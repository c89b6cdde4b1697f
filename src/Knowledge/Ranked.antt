-- ===== src/Knowledge/Ranked.antt =====
-- The answer of a fusion: the ids of the rankings, none directly after one that it outranks.
use Prim.Native.Nat.{Ordering}
use Prim.Native.String.{compare}
use radar_system.Prelude.{
  ℕ, ◌<◌, String, ◌≡◌, refl, Bool, true, false, none, List, [], ◌∷◌, ◌⊎◌, inl, inr, arith, ltb,
  Bool-cases, compare-flip, flip, if◌then◌else◌,
}
use radar_system.Knowledge.Fusion.{
  FloatLib, lookup, get_or, Tally, precedes_tie, precedes, insert_ranked, sort_ranked,
}
use radar_system.Knowledge.Positions.{occurrences, least}
use radar_system.Knowledge.Fused.{total}

module _ {N : Type 0} (lib : FloatLib N)
    (asym : (x y : N) → lib.higher x y ≡ true → lib.higher y x ≡ false) where
  is_lt-flip :
      (o : Ordering)
      → (elim o [ Ordering.lt ↦ true | Ordering.eq ↦ false | Ordering.gt ↦ false ]) ≡ true
      → (elim (flip o) [ Ordering.lt ↦ true | Ordering.eq ↦ false | Ordering.gt ↦ false ]) ≡ false
  is_lt-flip Ordering.lt h = refl
  is_lt-flip Ordering.eq h = cc
  is_lt-flip Ordering.gt h = cc

  tie_asym :
      (p q : ℕ) (a b : String) → precedes_tie lib p q a b ≡ true → precedes_tie lib q p b a ≡ false
  tie_asym p q a b h = elim (Bool-cases (ltb p q)) [
    | inl t ↦ rw (t, ltb_asym p q t) refl
    | inr f ↦ elim (Bool-cases (ltb q p)) [
      | inl t ↦ cc (rw (f, t) at h)
      | inr g ↦ rw (f, g, compare-flip a b) (is_lt-flip (compare a b) (rw (f, g) at h))
    ]
  ]
    where
      ltb_asym : (p q : ℕ) → ltb p q ≡ true → ltb q p ≡ false
      ltb_asym p q h = ground arith

  precedes_asym :
      (t : Tally N) (a b : String) → precedes lib t a b ≡ true → precedes lib t b a ≡ false
  precedes_asym t a b h =
      let x = get_or lib.zero (lookup a t.scores) in
      let y = get_or lib.zero (lookup b t.scores) in
      by_score (lib.higher x y) (lib.higher y x) (asym x y)
        (tie_asym (get_or 0 (lookup a t.best_position)) (get_or 0 (lookup b t.best_position)) a b) h
    where
      by_score :
          (u v : Bool) {p q : Bool}
          → (u ≡ true → v ≡ false)
          → (p ≡ true → q ≡ false)
          → (if u then true else if v then false else p) ≡ true
          → (if v then true else if u then false else q) ≡ false
      by_score true true f g h = f refl
      by_score true false f g h = refl
      by_score false true f g h = cc
      by_score false false f g h = g h

  -- Each id does not precede the one before it.
  abbrev pub IsInOrder : Tally N → List String → Type 0
  IsInOrder t [] = Unit
  IsInOrder t (a ∷ []) = Unit
  IsInOrder t (a ∷ b ∷ rest) = (precedes lib t b a ≡ false) × IsInOrder t (b ∷ rest)

  insert-IsInOrder :
      (t : Tally N) (a : String) (xs : List String)
      → IsInOrder t xs
      → IsInOrder t (insert_ranked lib t a xs)
  insert-IsInOrder t a [] h = tt
  insert-IsInOrder t a (b ∷ []) h = elim (Bool-cases (precedes lib t b a)) [
    | inl u ↦ rw u (precedes_asym t b a u, tt)
    | inr u ↦ rw u (u, tt)
  ]
  insert-IsInOrder t a (b ∷ r ∷ rest) (k, h) = elim (Bool-cases (precedes lib t b a)) [
    | inr u ↦ rw u (u, (k, h))
    | inl u ↦ elim (Bool-cases (precedes lib t r a)) [
      | inl v ↦ rw (u, v) (k, rw v at (insert-IsInOrder t a (r ∷ rest) h))
      | inr v ↦ rw (u, v) (precedes_asym t b a u, (v, h))
    ]
  ]

  pub sort-IsInOrder : (t : Tally N) (xs : List String) → IsInOrder t (sort_ranked lib t xs)
  sort-IsInOrder t [] = tt
  sort-IsInOrder t (a ∷ rest) =
      insert-IsInOrder t a (sort_ranked lib t rest) (sort-IsInOrder t rest)

  -- The specification of the order: the higher score, then the better position, then the earlier
  -- text.
  abbrev pub OutranksBy : N → N → ℕ → ℕ → String → String → Type 0
  OutranksBy x y p q a b =
      (lib.higher x y ≡ true)
      ⊎ ((lib.higher x y ≡ false)
          × (lib.higher y x ≡ false)
          × ((p < q) ⊎ ((p ≡ q) × (compare a b ≡ Ordering.lt))))

  abbrev pub score : ℕ → List (List String) → String → N
  score c rankings id = get_or lib.zero (total lib c none (occurrences id rankings))

  abbrev pub position : List (List String) → String → ℕ
  position rankings id = get_or 0 (least none (occurrences id rankings))

  abbrev pub Outranks : ℕ → List (List String) → String → String → Type 0
  Outranks c rankings a b =
      OutranksBy (score c rankings a) (score c rankings b) (position rankings a)
        (position rankings b) a b

  -- No id stands directly after one that it outranks.
  abbrev pub IsBestFirst : ℕ → List (List String) → List String → Type 0
  IsBestFirst c rankings [] = Unit
  IsBestFirst c rankings (a ∷ []) = Unit
  IsBestFirst c rankings (a ∷ b ∷ rest) =
      (Outranks c rankings b a → ⊥) × IsBestFirst c rankings (b ∷ rest)
