-- ===== src/Prelude/Sorted.antt =====
-- ORDER BY a number, and LIMIT.
use Prim.Native.Nat.{ℕ, zero, suc, ◌≤◌}
use mathlib.Core.Path.{◌≡◌, refl, subst}
use mathlib.Core.Logic.{inl, inr}
use mathlib.Core.Option.{Option, none, some, some-injective}
use mathlib.Core.List.{List, [], ◌∷◌}
use native.Mathlib.Omega.{arith}
use radar_system.Prelude.Tests.{if◌then◌else◌, leb, leb→le, leb-false→lt, Bool-cases, Option-cases}
use radar_system.Prelude.Lists.{take, drop, All, All-mono}

module _ {ℓ} {A : Type ℓ} where
  abbrev pub insert_by : (A → ℕ) → A → List A → List A
  insert_by key x [] = x ∷ []
  insert_by key x (y ∷ ys) =
      let rest = insert_by key x ys in if leb (key x) (key y) then x ∷ y ∷ ys else y ∷ rest

  -- ORDER BY key ASC; rows with equal keys keep the order of the table.
  abbrev pub order_by : (A → ℕ) → List A → List A
  order_by key [] = []
  order_by key (x ∷ xs) = insert_by key x (order_by key xs)

  abbrev newer : (A → ℕ) → A → Option A → Option A
  newer key x none = some x
  newer key x (some y) = if leb (key y) (key x) then some x else some y

  -- ORDER BY key DESC LIMIT 1; of several rows with the greatest key, the first of the table.
  abbrev pub latest : (A → ℕ) → List A → Option A
  latest key [] = none
  latest key (x ∷ xs) = newer key x (latest key xs)

  abbrev pub IsSorted : (A → ℕ) → List A → Type 0
  IsSorted key [] = Unit
  IsSorted key (x ∷ xs) = All (λ y. key x ≤ key y) xs × IsSorted key xs

module _ {ℓ κ} {A : Type ℓ} (P : A → Type κ) where
  pub All-insert_by :
      (key : A → ℕ) (x : A) (xs : List A) → P x → All P xs → All P (insert_by key x xs)
  All-insert_by key x [] h k = (h, tt)
  All-insert_by key x (y ∷ ys) h k = elim (Bool-cases (leb (key x) (key y))) [
    | inl e ↦ rw e (h, k)
    | inr e ↦ rw e (k.0, All-insert_by key x ys h k.1)
  ]

  pub All-order_by : (key : A → ℕ) (xs : List A) → All P xs → All P (order_by key xs)
  All-order_by key [] h = tt
  All-order_by key (x ∷ xs) h = All-insert_by key x (order_by key xs) h.0 (All-order_by key xs h.1)

  All-newer :
      (key : A → ℕ) (x : A) (o : Option A) (a : A)
      → P x
      → ((b : A) → o ≡ some b → P b)
      → newer key x o ≡ some a
      → P a
  All-newer key x none a h k e = subst P (some-injective x a e) h
  All-newer key x (some y) a h k e = elim (Bool-cases (leb (key y) (key x))) [
    | inl t ↦ subst P (some-injective x a (rw t at e)) h
    | inr t ↦ subst P (some-injective y a (rw t at e)) (k y refl)
  ]

  pub All-latest : (key : A → ℕ) (xs : List A) (a : A) → All P xs → latest key xs ≡ some a → P a
  All-latest key [] a h e = cc
  All-latest key (x ∷ xs) a h e =
      All-newer key x (latest key xs) a h.0 (λ b q. All-latest key xs b h.1 q) e

module _ {ℓ} {A : Type ℓ} where
  insert_by-IsSorted :
      (key : A → ℕ) (x : A) (xs : List A) → IsSorted key xs → IsSorted key (insert_by key x xs)
  insert_by-IsSorted key x [] h = (tt, tt)
  insert_by-IsSorted key x (y ∷ ys) h = elim (Bool-cases (leb (key x) (key y))) [
    | inl e ↦
        let le = leb→le (key x) (key y) e in rw e ((le, All-mono (λ z k. omega arith) ys h.0), h)
    | inr e ↦
        let lt = leb-false→lt (key x) (key y) e in
        rw e (
          All-insert_by (λ z. key y ≤ key z) key x ys (omega arith) h.0,
          insert_by-IsSorted key x ys h.1,
        )
  ]

  pub order_by-IsSorted : (key : A → ℕ) (xs : List A) → IsSorted key (order_by key xs)
  order_by-IsSorted key [] = tt
  order_by-IsSorted key (x ∷ xs) =
      insert_by-IsSorted key x (order_by key xs) (order_by-IsSorted key xs)

  pub All-drop {κ} : (P : A → Type κ) (n : ℕ) (xs : List A) → All P xs → All P (drop n xs)
  All-drop P zero xs h = h
  All-drop P (suc n) [] h = tt
  All-drop P (suc n) (x ∷ xs) h = All-drop P n xs h.1

  pub All-take {κ} : (P : A → Type κ) (n : ℕ) (xs : List A) → All P xs → All P (take n xs)
  All-take P zero xs h = tt
  All-take P (suc n) [] h = tt
  All-take P (suc n) (x ∷ xs) h = (h.0, All-take P n xs h.1)

  -- In a sorted list, what LIMIT takes is no later than what it leaves.
  pub take-le-drop :
      (key : A → ℕ) (n : ℕ) (xs : List A)
      → IsSorted key xs
      → All (λ x. All (λ y. key x ≤ key y) (drop n xs)) (take n xs)
  take-le-drop key zero xs h = tt
  take-le-drop key (suc n) [] h = tt
  take-le-drop key (suc n) (x ∷ xs) h =
      (All-drop (λ y. key x ≤ key y) n xs h.0, take-le-drop key n xs h.1)

  newer-le :
      (key : A → ℕ) (x : A) (o : Option A) (a : A)
      → newer key x o ≡ some a
      → (key x ≤ key a) × ((b : A) → o ≡ some b → key b ≤ key a)
  newer-le key x none a e =
      let same = some-injective x a e in (subst (λ c. key x ≤ key c) same (omega arith), λ b q. cc)
  newer-le key x (some y) a e = elim (Bool-cases (leb (key y) (key x))) [
    | inl t ↦
        let same = some-injective x a (rw t at e) in
        let le = leb→le (key y) (key x) t in
        (
          subst (λ c. key x ≤ key c) same (omega arith),
          λ b q.
              subst (λ c. key b ≤ key c) same
                (subst (λ c. key c ≤ key x) (some-injective y b q) le),
        )
    | inr t ↦
        let same = some-injective y a (rw t at e) in
        let lt = leb-false→lt (key y) (key x) t in
        (
          subst (λ c. key x ≤ key c) same (omega arith),
          λ b q.
              subst (λ c. key b ≤ key c) same
                (subst (λ c. key c ≤ key y) (some-injective y b q) (omega arith)),
        )
  ]

  newer-ne-none : (key : A → ℕ) (x : A) (o : Option A) → newer key x o ≡ none → ⊥
  newer-ne-none key x none e = cc
  newer-ne-none key x (some y) e = ground arith

  pub latest-none : (key : A → ℕ) (xs : List A) → latest key xs ≡ none → xs ≡ []
  latest-none key [] e = refl
  latest-none key (x ∷ xs) e = absurd (newer-ne-none key x (latest key xs) e)

  -- The latest row has the greatest key.
  pub latest-greatest :
      (key : A → ℕ) (xs : List A) (a : A) → latest key xs ≡ some a → All (λ x. key x ≤ key a) xs
  latest-greatest key [] a e = tt
  latest-greatest key (x ∷ xs) a e =
      let (first, others) = newer-le key x (latest key xs) a e in
      (
        first,
        elim (Option-cases (latest key xs)) [
          | inl q ↦ rw (latest-none key xs q) tt
          | inr (b, q) ↦
              let le = others b q in
              All-mono {P = λ y. key y ≤ key b} {Q = λ y. key y ≤ key a} (λ y k. omega arith) xs
                (latest-greatest key xs b q)
        ],
      )
