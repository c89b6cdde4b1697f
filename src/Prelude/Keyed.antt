-- ===== src/Prelude/Keyed.antt =====
-- Tables with a unique key: what keeps it unique, and what a lookup by it finds.
use Prim.Native.Nat.{ℕ}
use mathlib.Core.Path.{◌≡◌, refl}
use mathlib.Core.Logic.{inl, inr}
use mathlib.Core.Bool.{Bool, true, false}
use mathlib.Core.Option.{some}
use mathlib.Core.List.{List, [], ◌∷◌, ◌++◌}
use native.Mathlib.Omega.{arith}
use radar_system.Prelude.Tests.{◌==◌, ==_refl, Bool-cases}
use radar_system.Prelude.Lists.{All, All-mono}
use radar_system.Prelude.Rows.{any, find_row, update, delete, All-both}

==_sym_false : (a b : ℕ) → (a == b) ≡ false → (b == a) ≡ false
==_sym_false a b h = ground arith

module _ {A : Type 0} (key : A → ℕ) where
  abbrev pub has_key : ℕ → A → Bool
  has_key k x = key x == k

  -- No two rows have one key.
  abbrev pub HasUniqueKeys : List A → Type 0
  HasUniqueKeys [] = Unit
  HasUniqueKeys (e ∷ es) = (any (has_key (key e)) es ≡ false) × HasUniqueKeys es

  any-false : (p : A → Bool) (es : List A) → any p es ≡ false → All (λ e. p e ≡ false) es
  any-false p [] h = tt
  any-false p (e ∷ es) h = elim (Bool-cases (p e)) [
    | inl t ↦ cc (rw t at h)
    | inr t ↦ (t, any-false p es (rw t at h))
  ]

  -- Every row is what a lookup by its own key finds.
  pub self_found :
      (es : List A) → HasUniqueKeys es → All (λ e. find_row (has_key (key e)) es ≡ some e) es
  self_found [] u = tt
  self_found (e ∷ es) u = (
    rw (==_refl (key e)),
    All-mono
        {P = λ (x : A). (((key x) == (key e)) ≡ false) × (find_row (has_key (key x)) es ≡ some x)}
        {Q = λ (x : A). find_row (has_key (key x)) (e ∷ es) ≡ some x}
        (λ x h. let (ne, found) = h in step x ne found) es
        (All-both (λ (x : A). ((key x) == (key e)) ≡ false)
          (λ (x : A). find_row (has_key (key x)) es ≡ some x) es
          (any-false (has_key (key e)) es u.0) (self_found es u.1)),
  )
    where
      step :
          (x : A)
          → ((key x) == (key e)) ≡ false
          → find_row (has_key (key x)) es ≡ some x
          → find_row (has_key (key x)) (e ∷ es) ≡ some x
      step x ne found = ground arith

  any_id-update :
      (id : ℕ) (p : A → Bool) (f : A → A) (es : List A)
      → ((e : A) → p e ≡ true → key (f e) ≡ (key e))
      → any (has_key id) (update p f es) ≡ any (has_key id) es
  any_id-update id p f [] h = refl
  any_id-update id p f (e ∷ es) h = elim (Bool-cases (p e)) [
    | inl t ↦ rw (t, h e t, any_id-update id p f es h)
    | inr t ↦ rw (t, any_id-update id p f es h)
  ]

  -- An UPDATE that keeps the keys keeps them unique.
  pub update-HasUniqueKeys :
      (p : A → Bool) (f : A → A) (es : List A)
      → ((e : A) → p e ≡ true → key (f e) ≡ (key e))
      → HasUniqueKeys es
      → HasUniqueKeys (update p f es)
  update-HasUniqueKeys p f [] h u = tt
  update-HasUniqueKeys p f (e ∷ es) h u = (
    elim (Bool-cases (p e)) [
      | inl t ↦ rw (t, h e t, any_id-update (key e) p f es h) u.0
      | inr t ↦ rw (t, any_id-update (key e) p f es h) u.0
    ],
    update-HasUniqueKeys p f es h u.1,
  )

  any_id-delete :
      (id : ℕ) (p : A → Bool) (es : List A)
      → any (has_key id) es ≡ false
      → any (has_key id) (delete p es) ≡ false
  any_id-delete id p [] h = refl
  any_id-delete id p (e ∷ es) h = ground (arith, any_id-delete id p es)

  pub delete-HasUniqueKeys :
      (p : A → Bool) (es : List A) → HasUniqueKeys es → HasUniqueKeys (delete p es)
  delete-HasUniqueKeys p [] u = tt
  delete-HasUniqueKeys p (e ∷ es) u = elim (Bool-cases (p e)) [
    | inl t ↦ rw t (delete-HasUniqueKeys p es u.1)
    | inr t ↦ rw t (any_id-delete (key e) p es u.0, delete-HasUniqueKeys p es u.1)
  ]

  any_id-snoc :
      (id : ℕ) (es : List A) (new : A)
      → any (has_key id) es ≡ false
      → ((key new) == id) ≡ false
      → any (has_key id) (es ++ new ∷ []) ≡ false
  any_id-snoc id [] new h k = rw k
  any_id-snoc id (e ∷ es) new h k = ground (arith, any_id-snoc id es new)

  -- A new row under a key that no row has.
  pub snoc-HasUniqueKeys :
      (es : List A) (new : A)
      → any (has_key (key new)) es ≡ false
      → HasUniqueKeys es
      → HasUniqueKeys (es ++ new ∷ [])
  snoc-HasUniqueKeys [] new h u = (refl, tt)
  snoc-HasUniqueKeys (e ∷ es) new h u = elim (Bool-cases ((key e) == (key new))) [
    | inl t ↦ cc (rw t at h)
    | inr t ↦ (
      any_id-snoc (key e) es new u.0 (==_sym_false (key e) (key new) t),
      snoc-HasUniqueKeys es new (rw t at h) u.1,
    )
  ]
