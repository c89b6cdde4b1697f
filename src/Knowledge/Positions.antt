-- ===== src/Knowledge/Positions.antt =====
-- The positions of an id in ranked lists, and what a dict has after an assignment.
use radar_system.Prelude.{
  ℕ, ◌+◌, String, ◌≡◌, refl, sym, ap, ◌∙◌, Bool, true, false, Option, none, some, List, [], ◌∷◌,
  ◌++◌, inl, inr, any, arith, str_eq, eq_iff, ltb, Bool-cases, Option-cases, if◌then◌else◌,
}
use radar_system.Knowledge.Reconciliation.{is_text}
use radar_system.Knowledge.Fusion.{Dict, lookup, put, get_or, ids_of}

-- The positions at which a ranking has an id, counted from a position on.
abbrev pub positions : String → ℕ → List String → List ℕ
positions id position [] = []
positions id position (x ∷ rest) =
    let later = positions id (position + 1) rest in if str_eq x id then position ∷ later else later

-- The positions at which the rankings have an id, counted from 1 in each.
abbrev pub occurrences : String → List (List String) → List ℕ
occurrences id [] = []
occurrences id (ranking ∷ rest) = positions id 1 ranking ++ occurrences id rest

-- The least of the positions and of one that may have come before.
abbrev pub least : Option ℕ → List ℕ → Option ℕ
least before [] = before
least none (p ∷ ps) = least (some p) ps
least (some q) (p ∷ ps) = least (some (if ltb p q then p else q)) ps

abbrev pub is_held : {A : Type 0} → List A → Bool
is_held [] = false
is_held (x ∷ xs) = true

abbrev pub is_there : {A : Type 0} → Option A → Bool
is_there none = false
is_there (some x) = true

pub lookup-put :
    {A : Type 0} (k j : String) (v : A) (d : Dict A)
    → lookup k (put j v d) ≡ (if str_eq j k then some v else lookup k d)
lookup-put k j v [] = refl
lookup-put k j v ((i, w) ∷ rest) = elim (Bool-cases (str_eq i j)) [
  | inl q ↦ rw (q, ap (λ x. str_eq x k) ((eq_iff i j).0 q)) (ground arith)
  | inr q ↦ elim (Bool-cases (str_eq j k)) [
    | inl t ↦
        let other : str_eq i k ≡ false = sym (ap (λ x. str_eq i x) ((eq_iff j k).0 t)) ∙ q in
        rw (q, t, other) (lookup-put k j v rest ∙ rw t refl)
    | inr t ↦
        rw (q, t) (ap (λ o. if str_eq i k then some w else o) (lookup-put k j v rest ∙ rw t refl))
  ]
]

pub ids-lookup :
    {A : Type 0} (k : String) (d : Dict A) → any (is_text k) (ids_of d) ≡ is_there (lookup k d)
ids-lookup k [] = refl
ids-lookup k ((j, v) ∷ rest) = ground (arith, ids-lookup k rest)

pub least-append :
    (before : Option ℕ) (xs ys : List ℕ) → least before (xs ++ ys) ≡ least (least before xs) ys
least-append before [] ys = refl
least-append none (x ∷ xs) ys = least-append (some x) xs ys
least-append (some q) (x ∷ xs) ys = least-append (some (if ltb x q then x else q)) xs ys

ltb_next : (p : ℕ) → ltb p (p + 1) ≡ true
ltb_next p = ground arith

-- the best position after one more position of an id
pub improved :
    (k x : String) (p : ℕ) (best : Dict ℕ) (ps : List ℕ)
    → least (lookup k (if ltb p (get_or (p + 1) (lookup x best)) then put x p best else best)) ps
      ≡ least (lookup k best) (if str_eq x k then p ∷ ps else ps)
improved k x p best ps = elim (Bool-cases (str_eq x k)) [
  | inl same ↦
      let xk : lookup x best ≡ lookup k best = ap (λ y. lookup y best) ((eq_iff x k).0 same) in
      elim (Option-cases (lookup k best)) [
        | inl q ↦ rw (same, xk, q, ltb_next p, lookup-put k x p best) (rw same refl)
        | inr (b, q) ↦ elim (Bool-cases (ltb p b)) [
          | inl t ↦
              rw (same, xk, q, t, lookup-put k x p best)
                (rw same (ap (λ v. least (some (if v then p else b)) ps) (sym t)))
          | inr t ↦
              rw (same, xk, q, t) (rw q (ap (λ v. least (some (if v then p else b)) ps) (sym t)))
        ]
      ]
  | inr other ↦ rw other (elim (Bool-cases (ltb p (get_or (p + 1) (lookup x best)))) [
    | inl t ↦ rw (t, lookup-put k x p best, other) refl
    | inr t ↦ rw t refl
  ])
]
