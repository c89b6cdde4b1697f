-- ===== src/Database/Tx.antt =====
-- One transaction over the database. An action reads and changes the tables; where it raises, the
-- session rolls back, so no state comes back beside the error.
use radar_system.Prelude.{String, ◌≡◌, refl, ap, ◌∙◌, ◌⊎◌, inl, inr, [], ◌∷◌, ◌++◌}
use radar_system.Contracts.{UuidNumber}
use radar_system.Database.Tables.{Db, AuditLog}

-- The exceptions that the modelled code raises.
pub data Error : Type 0 where
  not_found : UuidNumber → Error
  invalid_state_transition : String → String → UuidNumber → Error
  incident_not_found : UuidNumber → Error
  integrity_error : Error
  key_error : Error
  value_error : Error
  runtime_error : Error
  plan_not_found : UuidNumber → Error
  notification_failed : Error

pub data Result {ℓ} (A : Type ℓ) : Type ℓ where
  ok : A → Result A
  err : Error → Result A

abbrev pub Tx : Type 0 → Type 0
Tx A = Db → Result (A × Db)

infixl 5 ◌>>=◌ ◌>>◌
abbrev pub ◌>>=◌ : {A B : Type 0} → Tx A → (A → Tx B) → Tx B
◌>>=◌ m f db = elim (m db) [ ok (a, db') ↦ f a db' | err e ↦ err e ]

abbrev pub ◌>>◌ : {A B : Type 0} → Tx A → Tx B → Tx B
m >> n = m >>= λ _. n

abbrev pub pure : {A : Type 0} → A → Tx A
pure a db = ok (a, db)

abbrev pub raise : {A : Type 0} → Error → Tx A
raise e db = err e

abbrev pub gets : {A : Type 0} → (Db → A) → Tx A
gets f db = ok (f db, db)

abbrev pub modify : (Db → Db) → Tx Unit
modify f db = ok (tt, f db)

-- `session.add(AuditLog(...))`: the table is only ever appended to
abbrev pub add_audit : AuditLog → Tx Unit
add_audit row = modify λ db. record db { audit_log = db.audit_log ++ row ∷ [] }

-- What a committed transaction leaves: a raise leaves the database as it was.
abbrev pub committed : {A : Type 0} → Tx A → Db → Db
committed m db = elim (m db) [ ok (a, db') ↦ db' | err e ↦ db ]

module _ {A : Type 0} where
  pub ok_state : {a b : A} {s t : Db} → ◌≡◌ {A = Result (A × Db)} (ok (a, s)) (ok (b, t)) → s ≡ t
  ok_state e = cc

  pub ok_value : {a b : A} {s t : Db} → ◌≡◌ {A = Result (A × Db)} (ok (a, s)) (ok (b, t)) → a ≡ b
  ok_value e = cc

  pub err_value : {x y : Error} → ◌≡◌ {A = Result (A × Db)} (err x) (err y) → x ≡ y
  err_value e = cc

  pub raise-ne-ok : {x : Error} {b : A} {t : Db} → ◌≡◌ {A = Result (A × Db)} (err x) (ok (b, t)) → ⊥
  raise-ne-ok e = cc

module _ {A B : Type 0} where
  pub >>=-ok :
      (m : Tx A) (f : A → Tx B) (db : Db) {b : B} {db' : Db}
      → (m >>= f) db ≡ ok (b, db')
      → (a : A) × (s : Db) × (m db ≡ ok (a, s)) × (f a s ≡ ok (b, db'))
  >>=-ok m f db {b} {db'} e = go (m db) refl e
    where
      go :
          (r : Result (A × Db))
          → m db ≡ r
          → ◌≡◌ {A = Result (B × Db)} (elim r [ ok (a, s) ↦ f a s | err x ↦ err x ]) (ok (b, db'))
          → (a : A) × (s : Db) × (m db ≡ ok (a, s)) × (f a s ≡ ok (b, db'))
      go (ok (a, s)) q k = (a, s, q, k)
      go (err x) q k = absurd (raise-ne-ok k)

  pub >>=-err :
      (m : Tx A) (f : A → Tx B) (db : Db) {x : Error} → m db ≡ err x → (m >>= f) db ≡ err x
  >>=-err m f db h = ap (λ r. after r) h
    where
      after : Result (A × Db) → Result (B × Db)
      after (ok (a, t)) = f a t
      after (err x) = err x

  pub >>=-step :
      (m : Tx A) (f : A → Tx B) (db : Db) {a : A} {s : Db} → m db ≡ ok (a, s) → (m >>= f) db ≡ f a s
  >>=-step m f db h = ap (λ r. after r) h
    where
      after : Result (A × Db) → Result (B × Db)
      after (ok (a, t)) = f a t
      after (err x) = err x

  pub >>=-err_cases :
      (m : Tx A) (f : A → Tx B) (db : Db) {x : Error}
      → (m >>= f) db ≡ err x
      → (m db ≡ err x) ⊎ ((a : A) × (s : Db) × (m db ≡ ok (a, s)) × (f a s ≡ err x))
  >>=-err_cases m f db {x} e = go (m db) refl e
    where
      go :
          (r : Result (A × Db))
          → m db ≡ r
          → ◌≡◌ {A = Result (B × Db)} (elim r [ ok (a, s) ↦ f a s | err y ↦ err y ]) (err x)
          → (m db ≡ err x) ⊎ ((a : A) × (s : Db) × (m db ≡ ok (a, s)) × (f a s ≡ err x))
      go (ok (a, s)) q k = inr (a, s, q, k)
      go (err y) q k = inl (q ∙ ap {A = Error} {B = Result (A × Db)} (λ z. err z) (err_value k))
