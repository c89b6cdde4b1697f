-- ===== src/Ingestion/Consistent.antt =====
-- What holds between incidents and alerts: an incident that is over has no firing alert, and
-- `alert_count` counts the alert rows of its incident.
use radar_system.Prelude.{
  ℕ, ◌+◌, ◌≡◌, sym, ap, ◌∙◌, Bool, true, false, some, List, [], ◌∷◌, ◌++◌, arith, if◌then◌else◌,
  ◌==◌, ==→eq, any, find_row, select, count_where, count_where-append, All, All-select, All-latest,
  latest, HasUniqueKeys, self_found,
}
use mathlib.Core.Option.{some-injective}
use radar_system.Contracts.{UuidNumber}
use radar_system.Database.Tables.{Incident, Alert, Db}
use radar_system.Database.Repository.{is_active}
use radar_system.Ingestion.Resolver.{is_on, is_firing_on}

-- One incident against the table of alerts.
pub record IsCounted (alerts : List Alert) (i : Incident) : Type 0 where
  pub quiet : is_active i ≡ false → count_where (is_firing_on i.id) alerts ≡ 0
  pub counted : i.alert_count ≡ count_where (is_on i.id) alerts

abbrev pub incident_key : Incident → UuidNumber
incident_key i = i.id

abbrev pub has_id : UuidNumber → Incident → Bool
has_id id i = i.id == id

pub record Consistent (incidents : List Incident) (alerts : List Alert) : Type 0 where
  pub rows : All (IsCounted alerts) incidents
  pub keys : HasUniqueKeys incident_key incidents
  -- the foreign key of `alerts.incident_id`
  pub refs :
      All (λ a. (id : UuidNumber) → is_on id a ≡ true → any (has_id id) incidents ≡ true) alerts

abbrev pub IsConsistent : Db → Type 0
IsConsistent db = Consistent db.incidents db.alerts

-- A row of the table is what its id finds.
abbrev pub IsFound : Db → Incident → Type 0
IsFound db i = find_row (has_id i.id) db.incidents ≡ some i

pub All-found : (db : Db) → IsConsistent db → All (IsFound db) db.incidents
All-found db c = self_found incident_key db.incidents c.keys

pub found_eq :
    (db : Db) (r i : Incident) → IsFound db r → IsFound db i → (r.id == i.id) ≡ true → r ≡ i
found_eq db r i fr fi same =
    some-injective r i (
      sym fr
      ∙ ap (λ (k : UuidNumber). find_row (has_id k) db.incidents) (==→eq r.id i.id same)
      ∙ fi)

-- The row that a lookup by any test returns is in the table.
pub latest_found :
    (db : Db) (p : Incident → Bool) (i : Incident)
    → IsConsistent db
    → latest (λ r. r.opened_at) (select p db.incidents) ≡ some i
    → IsFound db i
latest_found db p i c e =
    All-latest (IsFound db) (λ r. r.opened_at) (select p db.incidents) i
      (All-select (IsFound db) p db.incidents (All-found db c)) e

on_of_id : (a : Alert) (j k : UuidNumber) → a.incident_id ≡ some j → is_on k a ≡ (j == k)
on_of_id a j k e = rw e

-- One more alert of the incident `j` moves the count of `j` alone.
pub count-on_snoc :
    (a : Alert) (j k : UuidNumber) (alerts : List Alert)
    → a.incident_id ≡ some j
    → count_where (is_on k) (alerts ++ a ∷ [])
      ≡ count_where (is_on k) alerts + (if j == k then 1 else 0)
count-on_snoc a j k alerts e = rw (count_where-append, e) (omega arith)

pub count-firing_snoc_other :
    (a : Alert) (j k : UuidNumber) (alerts : List Alert)
    → a.incident_id ≡ some j
    → (j == k) ≡ false
    → count_where (is_firing_on k) (alerts ++ a ∷ []) ≡ count_where (is_firing_on k) alerts
count-firing_snoc_other a j k alerts e ne = rw (count_where-append, e, ne) (omega arith)

pub ==_flip : (j k : ℕ) → (j == k) ≡ (k == j)
==_flip j k = ground arith
