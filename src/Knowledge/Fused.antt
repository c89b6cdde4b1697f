-- ===== src/Knowledge/Fused.antt =====
-- The fusion against its definition one id at a time.
use radar_system.Prelude.{
  ℕ, suc, ◌+◌, String, ◌≡◌, refl, sym, ap, ◌∙◌, true, Option, none, some, List, [], ◌∷◌, ◌++◌, inl,
  inr, any, arith, str_eq, eq_iff, Bool-cases, if◌then◌else◌,
}
use radar_system.Knowledge.Reconciliation.{is_text}
use radar_system.Knowledge.Fusion.{
  FloatLib, lookup, get_or, ids_of, Tally, count, count_ranking, count_rankings, tallied, precedes,
  insert_ranked, sort_ranked, reciprocal_rank_fusion,
}
use radar_system.Knowledge.Positions.{
  positions, occurrences, least, is_held, is_there, lookup-put, ids-lookup, least-append, improved,
}

module _ {N : Type 0} (lib : FloatLib N) where
  -- The shares of the positions, added in their order to what has come before.
  abbrev pub total : ℕ → Option N → List ℕ → Option N
  total c before [] = before
  total c before (p ∷ ps) = total c (some (lib.add (get_or lib.zero before) (lib.share c p))) ps

  total-append :
      (c : ℕ) (before : Option N) (xs ys : List ℕ)
      → total c before (xs ++ ys) ≡ total c (total c before xs) ys
  total-append c before [] ys = refl
  total-append c before (x ∷ xs) ys =
      total-append c (some (lib.add (get_or lib.zero before) (lib.share c x))) xs ys

  counted_score :
      (k : String) (c position : ℕ) (ids : List String) (t : Tally N)
      → lookup k (count_ranking lib c position ids t).scores
        ≡ total c (lookup k t.scores) (positions k position ids)
  counted_score k c position [] t = refl
  counted_score k c position (x ∷ rest) t =
      counted_score k c (position + 1) rest (count lib c x position t)
      ∙ ap (λ o. total c o (positions k (position + 1) rest)) (lookup-put k x _ t.scores)
      ∙ elim (Bool-cases (str_eq x k)) [
        | inl q ↦ rw (q, ap (λ y. lookup y t.scores) ((eq_iff x k).0 q)) refl
        | inr q ↦ rw q refl
      ]

  counted_position :
      (k : String) (c position : ℕ) (ids : List String) (t : Tally N)
      → lookup k (count_ranking lib c position ids t).best_position
        ≡ least (lookup k t.best_position) (positions k position ids)
  counted_position k c position [] t = refl
  counted_position k c position (x ∷ rest) t =
      counted_position k c (position + 1) rest (count lib c x position t)
      ∙ improved k x position t.best_position (positions k (position + 1) rest)

  pub counted_all :
      (k : String) (c : ℕ) (rankings : List (List String)) (t : Tally N)
      → (lookup k (count_rankings lib c rankings t).scores
          ≡ total c (lookup k t.scores) (occurrences k rankings))
        × (lookup k (count_rankings lib c rankings t).best_position
            ≡ least (lookup k t.best_position) (occurrences k rankings))
  counted_all k c [] t = (refl, refl)
  counted_all k c (ranking ∷ rest) t =
      let (scores, best) = counted_all k c rest (count_ranking lib c 1 ranking t) in
      (
        scores
            ∙ ap (λ o. total c o (occurrences k rest)) (counted_score k c 1 ranking t)
            ∙ sym (total-append c (lookup k t.scores) (positions k 1 ranking) (occurrences k rest)),
        best
            ∙ ap (λ o. least o (occurrences k rest)) (counted_position k c 1 ranking t)
            ∙ sym (
                least-append (lookup k t.best_position) (positions k 1 ranking)
                  (occurrences k rest)),
      )

  any-insert_ranked :
      (k a : String) (t : Tally N) (xs : List String)
      → any (is_text k) (insert_ranked lib t a xs) ≡ any (is_text k) (a ∷ xs)
  any-insert_ranked k a t [] = refl
  any-insert_ranked k a t (b ∷ rest) = elim (Bool-cases (precedes lib t b a)) [
    | inl q ↦ rw q (ground (arith, any-insert_ranked k a t rest))
    | inr q ↦ rw q refl
  ]

  pub any-sort_ranked :
      (k : String) (t : Tally N) (xs : List String)
      → any (is_text k) (sort_ranked lib t xs) ≡ any (is_text k) xs
  any-sort_ranked k t [] = refl
  any-sort_ranked k t (a ∷ rest) =
      any-insert_ranked k a t (sort_ranked lib t rest)
      ∙ ap (λ b. if is_text k a then true else b) (any-sort_ranked k t rest)

  total_there : (c : ℕ) (x : N) (ps : List ℕ) → is_there (total c (some x) ps) ≡ true
  total_there c x [] = refl
  total_there c x (p ∷ ps) = total_there c (lib.add x (lib.share c p)) ps

  pub total_held : (c : ℕ) (ps : List ℕ) → is_there (total c none ps) ≡ is_held ps
  total_held c [] = refl
  total_held c (p ∷ ps) = total_there c (lib.add lib.zero (lib.share c p)) ps

  -- With a positive constant and no limit the fusion answers a ranking. The score that its loop
  -- gives an id is the sum, from left to right, of the shares of the positions at which the
  -- rankings have the id, its best position is the least of them, and the ranking has the id
  -- exactly where one of the rankings does.
  pub fusion_exact :
      (k : String) (rankings : List (List String)) (c : ℕ)
      → (lookup k (tallied lib (suc c) rankings).scores
          ≡ total (suc c) none (occurrences k rankings))
        × (lookup k (tallied lib (suc c) rankings).best_position
            ≡ least none (occurrences k rankings))
        × (ids : List String) × (reciprocal_rank_fusion lib rankings (suc c) none ≡ some ids)
        × (any (is_text k) ids ≡ is_held (occurrences k rankings))
  unfolding reciprocal_rank_fusion
  fusion_exact k rankings c =
      let t = tallied lib (suc c) rankings in
      let (scores, best) =
        counted_all k (suc c) rankings (record { scores = []; best_position = [] }) in
      (
        scores,
        best,
        sort_ranked lib t (ids_of t.scores),
        refl,
        any-sort_ranked k t (ids_of t.scores)
            ∙ ids-lookup k t.scores
            ∙ ap is_there scores
            ∙ total_held (suc c) (occurrences k rankings),
      )
