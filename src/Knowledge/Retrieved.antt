-- ===== src/Knowledge/Retrieved.antt =====
-- The fused ids of a retrieval are those of its hits.
use radar_system.Prelude.{
  ℕ, ◌+◌, String, ◌≡◌, refl, sym, ap, ◌∙◌, subst, Bool, true, false, Option, none, some, List, [],
  ◌∷◌, ◌++◌, inl, inr, any, All, take, zero, suc, arith, str_eq, eq_iff, eq_refl, Bool-cases,
  Option-cases, if◌then◌else◌,
}
use radar_system.Knowledge.Reconciliation.{is_text}
use radar_system.Knowledge.Fusion.{
  Dict, lookup, put, get_or, ids_of, reciprocal_rank_fusion, tallied, sort_ranked,
}
use radar_system.Knowledge.Positions.{positions, occurrences, is_held, is_there, lookup-put}
use radar_system.Knowledge.Fused.{fusion_exact}
use radar_system.Knowledge.Grading.{Hit}
use radar_system.Knowledge.Retrieval.{
  SearchLib, rank_constant, set_default, by_ids, found_hits, hit_ids, graded_by, fused, first_leg,
  with_vector, retrieve,
}

-- every key of a dict of hits is the id of its hit
IsKeyed : Dict Hit → Type 0
IsKeyed d = (k : String) (h : Hit) → lookup k d ≡ some h → h.chunk_id ≡ k

set_default-IsKeyed : (hit : Hit) (d : Dict Hit) → IsKeyed d → IsKeyed (set_default hit d)
unfolding IsKeyed
set_default-IsKeyed hit d keyed k h e = elim (Option-cases (lookup hit.chunk_id d)) [
  | inr (g, q) ↦ keyed k h (rw (set_default, q) at e)
  | inl q ↦
      let put_there : lookup k (put hit.chunk_id hit d) ≡ some h = rw (set_default, q) at e in
      let e' = sym (lookup-put k hit.chunk_id hit d) ∙ put_there in
      elim (Bool-cases (str_eq hit.chunk_id k)) [
        | inl t ↦
            let same : hit ≡ h = cc (rw t at e') in
            sym (ap (λ (x : Hit). x.chunk_id) same) ∙ (eq_iff hit.chunk_id k).0 t
        | inr t ↦ keyed k h (rw t at e')
      ]
]

by_ids-IsKeyed : (hits : List Hit) (d : Dict Hit) → IsKeyed d → IsKeyed (by_ids hits d)
by_ids-IsKeyed [] d keyed = keyed
by_ids-IsKeyed (hit ∷ rest) d keyed =
    by_ids-IsKeyed rest (set_default hit d) (set_default-IsKeyed hit d keyed)

there-set_default :
    (k : String) (hit : Hit) (d : Dict Hit)
    → is_there (lookup k (set_default hit d))
      ≡ (if str_eq hit.chunk_id k then true else is_there (lookup k d))
there-set_default k hit d = elim (Option-cases (lookup hit.chunk_id d)) [
  | inr (g, q) ↦
      rw (set_default, q)
        (elim (Bool-cases (str_eq hit.chunk_id k)) [
          | inl t ↦ rw (t, sym (ap (λ x. lookup x d) ((eq_iff hit.chunk_id k).0 t)), q) refl
          | inr t ↦ rw t refl
        ])
  | inl q ↦ rw (set_default, q, lookup-put k hit.chunk_id hit d) (ground arith)
]

there-by_ids :
    (k : String) (hits : List Hit) (d : Dict Hit)
    → is_there (lookup k (by_ids hits d))
      ≡ (if is_there (lookup k d) then true else any (is_text k) (hit_ids hits))
there-by_ids k [] d = ground arith
there-by_ids k (hit ∷ rest) d =
    there-by_ids k rest (set_default hit d) ∙ rw (there-set_default k hit d) (ground arith)

positions-held :
    (k : String) (p : ℕ) (xs : List String) → is_held (positions k p xs) ≡ any (is_text k) xs
positions-held k p [] = refl
positions-held k p (x ∷ rest) = ground (arith, positions-held k (p + 1) rest)

append-held : (xs ys : List ℕ) → is_held (xs ++ ys) ≡ (if is_held xs then true else is_held ys)
append-held [] ys = refl
append-held (x ∷ xs) ys = refl

any-append :
    (k : String) (xs ys : List Hit)
    → any (is_text k) (hit_ids (xs ++ ys))
      ≡ (if any (is_text k) (hit_ids xs) then true else any (is_text k) (hit_ids ys))
any-append k [] ys = refl
any-append k (x ∷ xs) ys = ground (arith, any-append k xs ys)

All-any :
    (P : String → Type 0) (xs : List String)
    → ((k : String) → any (is_text k) xs ≡ true → P k)
    → All P xs
All-any P [] h = tt
All-any P (x ∷ xs) h = (
  h x (ap (λ b. if b then true else any (is_text x) xs) (eq_refl x)),
  All-any P xs (λ k e. h k (rw e (ground arith))),
)

take-All : (P : String → Type 0) (n : ℕ) (xs : List String) → All P xs → All P (take n xs)
take-All P zero xs h = tt
take-All P (suc n) [] h = tt
take-All P (suc n) (x ∷ xs) (h, hs) = (h, take-All P n xs hs)

hits_found :
    (d : Dict Hit) (ids : List String)
    → IsKeyed d
    → All (λ k. is_there (lookup k d) ≡ true) ids
    → (hits : List Hit) × (found_hits d ids ≡ some hits) × (hit_ids hits ≡ ids)
unfolding IsKeyed
hits_found d [] keyed h = ([], refl, refl)
hits_found d (id ∷ rest) keyed (h, hs) =
    let (hits, found, same) = hits_found d rest keyed hs in
    elim (Option-cases (lookup id d)) [
      | inl q ↦ cc (rw q at h)
      | inr (hit, q) ↦ (hit ∷ hits, rw (q, found) refl, ap2c (keyed id hit q) same)
    ]
  where
    ap2c : {a b : String} {xs ys : List String} → a ≡ b → xs ≡ ys → a ∷ xs ≡ b ∷ ys
    ap2c e f = cc

either :
    (a b : Bool)
    → (if a then true else if b then true else false) ≡ true
    → (if b then true else a) ≡ true
either true b h = ground arith
either false true h = refl
either false false h = h

-- The hits as they are without a grader, and what the grader makes of them with one.
abbrev pub IsHandedOver : Option (List Hit → List Hit) → List Hit → Option (List Hit) → Type 0
IsHandedOver none hits answer = answer ≡ some hits
IsHandedOver (some judge) hits answer = answer ≡ some (judge hits)

graded-IsHandedOver :
    (grader : Option (List Hit → List Hit)) (hits : List Hit)
    → IsHandedOver grader hits (graded_by grader (some hits))
graded-IsHandedOver none hits = refl
graded-IsHandedOver (some judge) hits = refl

module _ {V N : Type 0} (lib : SearchLib V N) where
  in_a_leg :
      (k : String) (lexical vectorial : List Hit)
      → is_held (occurrences k (hit_ids lexical ∷ hit_ids vectorial ∷ [])) ≡ true
      → is_there (lookup k (by_ids (vectorial ++ lexical) [])) ≡ true
  in_a_leg k lexical vectorial h =
      there-by_ids k (vectorial ++ lexical) []
      ∙ any-append k vectorial lexical
      ∙ either (any (is_text k) (hit_ids lexical)) (any (is_text k) (hit_ids vectorial)) (
          rw
            (
              append-held (positions k 1 (hit_ids lexical))
                  (positions k 1 (hit_ids vectorial) ++ []),
              append-held (positions k 1 (hit_ids vectorial)) [],
              positions-held k 1 (hit_ids lexical),
              positions-held k 1 (hit_ids vectorial),
            )
            at h)

  fused_found :
      (limit : ℕ) (lexical vectorial : List Hit)
      → (ids : List String) × (hits : List Hit) × (reciprocal_rank_fusion lib.floats
            (hit_ids lexical ∷ hit_ids vectorial ∷ [])
            rank_constant
            (some limit)
          ≡ some ids)
        × (fused lib limit lexical vectorial ≡ some hits)
        × (hit_ids hits ≡ ids)
  unfolding reciprocal_rank_fusion IsKeyed
  fused_found limit lexical vectorial =
      let rankings = hit_ids lexical ∷ hit_ids vectorial ∷ [] in
      let t = tallied lib.floats rank_constant rankings in
      let ranked = sort_ranked lib.floats t (ids_of t.scores) in
      let by_id = by_ids (vectorial ++ lexical) [] in
      let listed : (k : String) → any (is_text k) ranked ≡ is_held (occurrences k rankings) = λ k.
        let (scores, best, ids, e, h) = fusion_exact lib.floats k rankings 59 in
        ap (λ o. any (is_text k) (get_or [] o)) e ∙ h in
      let (hits, found, same) =
        hits_found by_id (take limit ranked)
          (by_ids-IsKeyed (vectorial ++ lexical) [] (λ k h e. cc))
          (take-All (λ k. is_there (lookup k by_id) ≡ true) limit ranked
            (All-any (λ k. is_there (lookup k by_id) ≡ true) ranked
              (λ k e. in_a_leg k lexical vectorial (sym (listed k) ∙ e)))) in
      (take limit ranked, hits, refl, found, same)

  -- Where the query is not blank, its vector is there and both searches answer, a retrieval
  -- answers: it looks up every id of the fusion of the two legs, so that the hits have the fused
  -- ids in the fused order. The answer is these hits without a grader, and what the grader makes of
  -- them with one.
  pub retrieved_exact :
      (grader : Option (List Hit → List Hit)) (leg_size : ℕ) (query : String)
      (service_name : Option String) (limit : ℕ) (vector : V) (lexical vectorial : List Hit)
      → str_eq (lib.strip query) "" ≡ false
      → lib.embed (query ∷ []) ≡ some (vector ∷ [])
      → lib.search_bm25 query service_name leg_size ≡ some lexical
      → lib.search_knn vector service_name leg_size ≡ some vectorial
      → (ids : List String) × (hits : List Hit) × (reciprocal_rank_fusion lib.floats
            (hit_ids lexical ∷ hit_ids vectorial ∷ [])
            rank_constant
            (some limit)
          ≡ some ids)
        × IsHandedOver grader hits (retrieve lib grader leg_size query service_name limit)
        × (hit_ids hits ≡ ids)
  unfolding retrieve
  retrieved_exact grader leg_size query service_name limit vector lexical vectorial asked embedded
        first second =
      let (ids, hits, ranked, found, same) = fused_found limit lexical vectorial in
      let both = λ (o : Option (List Hit)) (p : Option (List Hit)). first_leg lib limit o p in
      let searched = λ (o : Option (List V)). with_vector lib query service_name leg_size limit o in
      let answer : retrieve lib grader leg_size query service_name limit
          ≡ graded_by grader (some hits) =
        ap (λ b. if b then none else graded_by grader (searched (lib.embed (query ∷ [])))) asked
        ∙ ap (λ o. graded_by grader (searched o)) embedded
        ∙ ap (λ o. graded_by grader (both o (lib.search_knn vector service_name leg_size))) first
        ∙ ap (λ o. graded_by grader (both (some lexical) o)) second
        ∙ ap (graded_by grader) found in
      (
        ids,
        hits,
        ranked,
        subst (IsHandedOver grader hits) (sym answer) (graded-IsHandedOver grader hits),
        same,
      )
