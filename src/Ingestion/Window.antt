-- ===== src/Ingestion/Window.antt =====
-- Which incident a firing alert joins, and which one an ending signal is for.
use radar_system.Prelude.{
  ◌+◌, ◌≤◌, String, ◌≡◌, refl, Bool, true, Option, none, some, List, arith, eq_iff, select, latest,
  All, All-mono, All-select, Some, All-members, All-latest, All-of_select, select-All,
  latest-greatest, latest-none, ◌⊎◌,
}
use radar_system.Contracts.{Time}
use radar_system.Database.Tables.{Incident, Db}
use radar_system.Database.Lifecycle.{status_open, status_investigating}
use radar_system.Ingestion.Deduper.{can_absorb, find_open_incident}
use radar_system.Ingestion.Resolver.{is_resolvable, find_resolvable_incident}

absorbs_if :
    (fingerprint : String) (as_of window : Time) (i : Incident)
    → can_absorb fingerprint as_of window i ≡ true
    → (i.fingerprint ≡ fingerprint) × (i.status ≡ status_open) × (as_of ≤ i.opened_at + window)
absorbs_if fingerprint as_of window i h =
    ground (arith, eq_iff i.fingerprint fingerprint, eq_iff i.status status_open)

-- Latest of the rows that pass a test: it passes, nothing that passes is later, and it is missing
-- only where nothing passes.
module _ (p : Incident → Bool) (rows : List Incident) where
  pub latest_passes :
      (i : Incident) → latest (λ r. r.opened_at) (select p rows) ≡ some i → p i ≡ true
  latest_passes i e =
      All-latest (λ r. p r ≡ true) (λ r. r.opened_at) (select p rows) i (select-All p rows) e

  pub latest_is_newest :
      (i : Incident)
      → latest (λ r. r.opened_at) (select p rows) ≡ some i
      → All (λ r. p r ≡ true → r.opened_at ≤ i.opened_at) rows
  latest_is_newest i e =
      All-of_select (λ r. r.opened_at ≤ i.opened_at) p rows
        (latest-greatest (λ r. r.opened_at) (select p rows) i e)

  pub latest_missing :
      latest (λ r. r.opened_at) (select p rows) ≡ none → All (λ r. p r ≡ true → ⊥) rows
  latest_missing e =
      All-of_select (λ r. ⊥) p rows
        (rw (latest-none (λ (r : Incident). r.opened_at) (select p rows) e) tt)

absorbs_all :
    (fingerprint : String) (as_of window : Time) (i : Incident)
    → i.fingerprint ≡ fingerprint
    → i.status ≡ "open"
    → as_of ≤ i.opened_at + window
    → can_absorb fingerprint as_of window i ≡ true
absorbs_all fingerprint as_of window i same is_open inside =
    ground (arith, (eq_iff i.fingerprint fingerprint).1 same, (eq_iff i.status "open").1 is_open)

module _ (fingerprint : String) (as_of window : Time) (db : Db) where
  -- What a lookup must answer: an open incident in the table of the fingerprint, opened at most the
  -- window before (the boundary included), and the newest of all that can take the alert; or none,
  -- and none can.
  abbrev pub IsChoice : Option Incident → Type 0
  IsChoice (some i) =
      (i.fingerprint ≡ fingerprint)
      × (i.status ≡ "open")
      × (as_of ≤ i.opened_at + window)
      × Some (λ r. r ≡ i) db.incidents
      × All
          (λ r.
            r.fingerprint ≡ fingerprint
            → r.status ≡ "open"
            → as_of ≤ r.opened_at + window
            → r.opened_at ≤ i.opened_at)
          db.incidents
  IsChoice none =
      All (λ r. r.fingerprint ≡ fingerprint → r.status ≡ "open" → as_of ≤ r.opened_at + window → ⊥)
        db.incidents

  -- An alert joins an open incident of its fingerprint that opened at most the window before it,
  -- the boundary included, and the newest such; it joins none only where there is none.
  pub find_open_incident_exact : IsChoice (find_open_incident fingerprint as_of window db)
  unfolding find_open_incident
  find_open_incident_exact = of_latest (latest (λ r. r.opened_at) (select p db.incidents)) refl
    where
      p : Incident → Bool
      p = can_absorb fingerprint as_of window

      of_latest :
          (o : Option Incident) → latest (λ r. r.opened_at) (select p db.incidents) ≡ o → IsChoice o
      of_latest none e =
          All-mono {P = λ r. p r ≡ true → ⊥}
            (λ r h same is_open inside.
              h (absorbs_all fingerprint as_of window r same is_open inside))
            db.incidents (latest_missing p db.incidents e)
      of_latest (some i) e =
          let (same, is_open, inside) =
            absorbs_if fingerprint as_of window i (latest_passes p db.incidents i e) in
          (
            same,
            is_open,
            inside,
            All-latest (λ r. Some (λ x. x ≡ r) db.incidents) (λ r. r.opened_at)
                (select p db.incidents) i
                (All-select (λ r. Some (λ x. x ≡ r) db.incidents) p db.incidents
                  (All-members db.incidents))
                e,
            All-mono {P = λ r. p r ≡ true → r.opened_at ≤ i.opened_at}
                (λ r h same is_open inside.
                  h (absorbs_all fingerprint as_of window r same is_open inside))
                db.incidents (latest_is_newest p db.incidents i e),
          )

resolvable_if :
    (fingerprint : String) (i : Incident)
    → is_resolvable fingerprint i ≡ true
    → (i.fingerprint ≡ fingerprint) × ((i.status ≡ status_open) ⊎ (i.status ≡ status_investigating))
resolvable_if fingerprint i h = ground (
  arith,
  eq_iff i.fingerprint fingerprint,
  eq_iff i.status status_open,
  eq_iff i.status status_investigating,
)

pub find_resolvable_live :
    (fingerprint : String) (db : Db) (i : Incident)
    → find_resolvable_incident fingerprint db ≡ some i
    → (i.fingerprint ≡ fingerprint) × ((i.status ≡ status_open) ⊎ (i.status ≡ status_investigating))
unfolding find_resolvable_incident
find_resolvable_live fingerprint db i e =
    resolvable_if fingerprint i (latest_passes (is_resolvable fingerprint) db.incidents i e)
