-- ===== src/Ingestion/Deduper.antt =====
-- apps/ingestion/src/radar_ingestion/deduper.py: the open incident that a firing alert joins.
use radar_system.Prelude.{◌+◌, String, Bool, ◌&&◌, Option, leb, str_eq, select, latest}
use radar_system.Contracts.{Time, minutes}
use radar_system.Database.Tables.{Incident, Db}
use radar_system.Database.Lifecycle.{status_open}

abbrev pub dedup_window : Time
dedup_window = minutes 5

-- `opened_at >= as_of - window`, written without a truncated subtraction
abbrev pub can_absorb : String → Time → Time → Incident → Bool
can_absorb fingerprint as_of window i =
    str_eq i.fingerprint fingerprint
    && str_eq i.status status_open
    && leb as_of (i.opened_at + window)

unfoldable pub find_open_incident : String → Time → Time → Db → Option Incident
find_open_incident fingerprint as_of window db =
    latest (λ i. i.opened_at) (select (can_absorb fingerprint as_of window) db.incidents)
