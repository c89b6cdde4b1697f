-- ===== src/Prelude/Rows.antt =====
-- Tables as lists of rows: what the SQL statements of the program do to one.
use Prim.Native.Nat.{ℕ, suc, ◌+◌, ◌≤◌}
use mathlib.Core.Path.{◌≡◌, refl, ap, subst}
use mathlib.Core.Logic.{inl, inr}
use mathlib.Core.Bool.{Bool, true, false, ◌||◌}
use mathlib.Core.Option.{Option, none, some, some-injective}
use mathlib.Core.List.{List, [], ◌∷◌, ◌++◌, map}
use native.Mathlib.Omega.{arith}
use radar_system.Prelude.Tests.{if◌then◌else◌, Bool-cases}
use radar_system.Prelude.Lists.{length, All, Some}

module _ {ℓ} {A : Type ℓ} where
  -- SELECT … WHERE p
  abbrev pub select : (A → Bool) → List A → List A
  select p [] = []
  select p (x ∷ xs) = let rest = select p xs in if p x then x ∷ rest else rest

  -- UPDATE … WHERE p
  abbrev pub update : (A → Bool) → (A → A) → List A → List A
  update p f [] = []
  update p f (x ∷ xs) = (if p x then f x else x) ∷ update p f xs

  -- DELETE … WHERE p
  abbrev pub delete : (A → Bool) → List A → List A
  delete p [] = []
  delete p (x ∷ xs) = let rest = delete p xs in if p x then rest else x ∷ rest

  -- The one row of a lookup by a unique key.
  abbrev pub find_row : (A → Bool) → List A → Option A
  find_row p [] = none
  find_row p (x ∷ xs) = if p x then some x else find_row p xs

  -- SELECT count(*) … WHERE p
  abbrev pub count_where : (A → Bool) → List A → ℕ
  count_where p [] = 0
  count_where p (x ∷ xs) = (if p x then 1 else 0) + count_where p xs

  abbrev pub any : (A → Bool) → List A → Bool
  any p [] = false
  any p (x ∷ xs) = if p x then true else any p xs

  pub find_row_sound : (p : A → Bool) (xs : List A) (a : A) → find_row p xs ≡ some a → p a ≡ true
  find_row_sound p [] a h = cc
  find_row_sound p (x ∷ xs) a h = ground (arith, find_row_sound p xs a)

  pub any-or_left :
      (p q : A → Bool) (xs : List A) → any (λ x. p x || q x) xs ≡ false → any p xs ≡ false
  any-or_left p q [] h = refl
  any-or_left p q (x ∷ xs) h = ground (arith, any-or_left p q xs)

  pub any-or_true :
      (p q : A → Bool) (xs : List A) → any p xs ≡ true → any (λ x. p x || q x) xs ≡ true
  any-or_true p q [] h = cc
  any-or_true p q (x ∷ xs) h = ground (arith, any-or_true p q xs)

  pub length-update : (p : A → Bool) (f : A → A) (xs : List A) → length (update p f xs) ≡ length xs
  length-update p f [] = refl
  length-update p f (x ∷ xs) = ap suc (length-update p f xs)

  pub count_where-append :
      (p : A → Bool) (xs ys : List A)
      → count_where p (xs ++ ys) ≡ count_where p xs + count_where p ys
  count_where-append p [] ys = omega arith
  count_where-append p (x ∷ xs) ys = omega (arith, count_where-append p xs ys)

module _ {ℓ κ} {A : Type ℓ} (P : A → Type κ) where
  pub All-select : (p : A → Bool) (xs : List A) → All P xs → All P (select p xs)
  All-select p [] h = tt
  All-select p (x ∷ xs) h = elim (Bool-cases (p x)) [
    | inl e ↦ rw e (h.0, All-select p xs h.1)
    | inr e ↦ rw e (All-select p xs h.1)
  ]

  pub All-delete : (p : A → Bool) (xs : List A) → All P xs → All P (delete p xs)
  All-delete p [] h = tt
  All-delete p (x ∷ xs) h = elim (Bool-cases (p x)) [
    | inl e ↦ rw e (All-delete p xs h.1)
    | inr e ↦ rw e (h.0, All-delete p xs h.1)
  ]

  pub All-find_row : (p : A → Bool) (xs : List A) (a : A) → All P xs → find_row p xs ≡ some a → P a
  All-find_row p [] a h e = cc
  All-find_row p (x ∷ xs) a h e = elim (Bool-cases (p x)) [
    | inl t ↦ subst P (some-injective x a (rw t at e)) h.0
    | inr t ↦ All-find_row p xs a h.1 (rw t at e)
  ]

  pub All-update {μ} :
      (Q : A → Type μ) (p : A → Bool) (f : A → A) (xs : List A)
      → ((a : A) → P a → p a ≡ true → Q (f a))
      → ((a : A) → P a → p a ≡ false → Q a)
      → All P xs
      → All Q (update p f xs)
  All-update Q p f [] hit miss h = tt
  All-update Q p f (x ∷ xs) hit miss h = (
    elim (Bool-cases (p x)) [ inl e ↦ rw e (hit x h.0 e) | inr e ↦ rw e (miss x h.0 e) ],
    All-update Q p f xs hit miss h.1,
  )

  pub any_sound :
      (p : A → Bool) (xs : List A) → All P xs → any p xs ≡ true → (a : A) × P a × (p a ≡ true)
  any_sound p [] h e = cc
  any_sound p (x ∷ xs) h e = elim (Bool-cases (p x)) [
    | inl t ↦ (x, h.0, t)
    | inr t ↦ any_sound p xs h.1 (rw t at e)
  ]

module _ {ℓ} {A : Type ℓ} where
  -- Every row that SELECT returns has the property that it asks for.
  pub select-All : (p : A → Bool) (xs : List A) → All (λ a. p a ≡ true) (select p xs)
  select-All p [] = tt
  select-All p (x ∷ xs) = elim (Bool-cases (p x)) [
    | inl e ↦ rw e (e, select-All p xs)
    | inr e ↦ rw e (select-All p xs)
  ]

  pub All-intro {κ} : (P : A → Type κ) → ((a : A) → P a) → (xs : List A) → All P xs
  All-intro P f [] = tt
  All-intro P f (x ∷ xs) = (f x, All-intro P f xs)

  pub All-both {κ μ} :
      (P : A → Type κ) (Q : A → Type μ) (xs : List A)
      → All P xs
      → All Q xs
      → All (λ a. P a × Q a) xs
  All-both P Q [] h k = tt
  All-both P Q (x ∷ xs) h k = ((h.0, k.0), All-both P Q xs h.1 k.1)

  pub All-map {κ ℓ'} :
      {B : Type ℓ'} (P : B → Type κ) (f : A → B) (xs : List A)
      → All (λ a. P (f a)) xs
      → All P (map f xs)
  All-map P f [] h = tt
  All-map P f (x ∷ xs) h = (h.0, All-map P f xs h.1)

  pub length-select : (p : A → Bool) (xs : List A) → length (select p xs) ≡ count_where p xs
  length-select p [] = refl
  length-select p (x ∷ xs) = elim (Bool-cases (p x)) [
    | inl e ↦ rw e (omega (arith, length-select p xs))
    | inr e ↦ rw e (omega (arith, length-select p xs))
  ]

  pub length-map {ℓ'} : {B : Type ℓ'} (f : A → B) (xs : List A) → length (map f xs) ≡ length xs
  length-map f [] = refl
  length-map f (x ∷ xs) = ap suc (length-map f xs)

  -- A row found by a test is untouched by an UPDATE whose test it fails.
  pub find_row-update_ne :
      (p q : A → Bool) (f : A → A) (xs : List A)
      → ((a : A) → p a ≡ true → q a ≡ false)
      → ((a : A) → q a ≡ true → p (f a) ≡ false)
      → find_row p (update q f xs) ≡ find_row p xs
  find_row-update_ne p q f [] h k = refl
  find_row-update_ne p q f (x ∷ xs) h k = elim (Bool-cases (q x)) [
    | inl e ↦
        let notp : p x ≡ false = elim (Bool-cases (p x)) [ inl t ↦ cc (h x t) | inr t ↦ t ] in
        rw (e, k x e, notp) (find_row-update_ne p q f xs h k)
    | inr e ↦ rw e (ap (λ t. if p x then some x else t) (find_row-update_ne p q f xs h k))
  ]

  pub find_row-update_self :
      (p : A → Bool) (f : A → A) (xs : List A) (a : A)
      → find_row p xs ≡ some a
      → ((b : A) → p b ≡ true → p (f b) ≡ true)
      → find_row p (update p f xs) ≡ some (f a)
  find_row-update_self p f [] a h k = cc
  find_row-update_self p f (x ∷ xs) a h k = elim (Bool-cases (p x)) [
    | inl e ↦ rw (e, k x e) (ap (λ t. some (f t)) (some-injective x a (rw e at h)))
    | inr e ↦ rw (e, e) (find_row-update_self p f xs a (rw e at h) k)
  ]

module _ {ℓ κ} {A : Type ℓ} (P : A → Type κ) where
  -- What holds of the rows returned holds of every row that passes the test.
  pub All-of_select :
      (p : A → Bool) (xs : List A) → All P (select p xs) → All (λ a. p a ≡ true → P a) xs
  All-of_select p [] h = tt
  All-of_select p (x ∷ xs) h = elim (Bool-cases (p x)) [
    | inl t ↦ let k : All P (x ∷ select p xs) = rw t at h in (λ _. k.0, All-of_select p xs k.1)
    | inr t ↦ let k : All P (select p xs) = rw t at h in (λ u. cc, All-of_select p xs k)
  ]

module _ {ℓ} {A : Type ℓ} where
  pub count_where-update :
      (q p : A → Bool) (f : A → A) (xs : List A)
      → ((a : A) → p a ≡ true → q (f a) ≡ q a)
      → count_where q (update p f xs) ≡ count_where q xs
  count_where-update q p f [] h = refl
  count_where-update q p f (x ∷ xs) h = elim (Bool-cases (p x)) [
    | inl t ↦ rw (t, h x t, count_where-update q p f xs h)
    | inr t ↦ rw (t, count_where-update q p f xs h)
  ]

  pub count_where-update-le :
      (q p : A → Bool) (f : A → A) (xs : List A)
      → ((a : A) → p a ≡ true → q (f a) ≡ false)
      → count_where q (update p f xs) ≤ count_where q xs
  count_where-update-le q p f [] h = omega arith
  count_where-update-le q p f (x ∷ xs) h = elim (Bool-cases (p x)) [
    | inl t ↦ rw (t, h x t) (omega (arith, count_where-update-le q p f xs h))
    | inr t ↦ rw t (omega (arith, count_where-update-le q p f xs h))
  ]

  -- After an UPDATE that makes every row it touches fail its own test, no row passes it.
  pub count_where-update_self :
      (p : A → Bool) (f : A → A) (xs : List A)
      → ((a : A) → p a ≡ true → p (f a) ≡ false)
      → count_where p (update p f xs) ≡ 0
  count_where-update_self p f [] h = refl
  count_where-update_self p f (x ∷ xs) h = elim (Bool-cases (p x)) [
    | inl t ↦ rw (t, h x t, count_where-update_self p f xs h)
    | inr t ↦ rw (t, t, count_where-update_self p f xs h)
  ]

  pub count_where-zero :
      (p : A → Bool) (xs : List A) → All (λ a. p a ≡ false) xs → count_where p xs ≡ 0
  count_where-zero p [] h = refl
  count_where-zero p (x ∷ xs) h = rw (h.0, count_where-zero p xs h.1)

module _ {A : Type 0} (p : A → Bool) (P : A → Type 0) where
  pub any-Some : ((a : A) → p a ≡ true → P a) → (xs : List A) → any p xs ≡ true → Some P xs
  any-Some f [] h = cc
  any-Some f (x ∷ xs) h = elim (Bool-cases (p x)) [
    | inl t ↦ inl (f x t)
    | inr t ↦ inr (any-Some f xs (rw t at h))
  ]

  pub Some-any : ((a : A) → P a → p a ≡ true) → (xs : List A) → Some P xs → any p xs ≡ true
  Some-any f [] h = absurd h
  Some-any f (x ∷ xs) (inl h) = rw (f x h) refl
  Some-any f (x ∷ xs) (inr h) = elim (Bool-cases (p x)) [
    | inl t ↦ rw t refl
    | inr t ↦ rw t (Some-any f xs h)
  ]
