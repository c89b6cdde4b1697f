-- ===== src/Ingestion/Resolver.antt =====
-- apps/ingestion/src/radar_ingestion/resolver.py: the incident that an ending signal is for, the
-- flip of its firing alerts, and the gate on the incident's own transition.
use radar_system.Prelude.{
  ℕ, String, Bool, true, false, ◌&&◌, ◌||◌, Option, none, some, [], ◌∷◌, str_eq, ◌==◌, select,
  update, count_where, latest, if◌then◌else◌, ltb,
}
use radar_system.Contracts.{UuidNumber, Time, text, Document}
use radar_system.Database.Tables.{Incident, Alert, Db}
use radar_system.Database.Tx.{Tx, ◌>>◌, pure, modify}
use radar_system.Database.Lifecycle.{status_open, status_investigating, status_resolved}
use radar_system.Database.Repository.{transition_status}

abbrev pub alert_status_firing : String
alert_status_firing = "firing"

abbrev pub alert_status_resolved : String
alert_status_resolved = "resolved"

abbrev pub ingestion_actor : String
ingestion_actor = "ingestion"

abbrev pub resolved_by_alert : Document
resolved_by_alert = ("resolved_by", text "alert_resolution") ∷ []

-- `_RESOLVABLE_INCIDENT_STATES`
abbrev pub is_resolvable : String → Incident → Bool
is_resolvable fingerprint i =
    str_eq i.fingerprint fingerprint
    && (str_eq i.status status_open || str_eq i.status status_investigating)

unfoldable pub find_resolvable_incident : String → Db → Option Incident
find_resolvable_incident fingerprint db =
    latest (λ i. i.opened_at) (select (is_resolvable fingerprint) db.incidents)

abbrev pub is_on : UuidNumber → Alert → Bool
is_on incident_id a = elim a.incident_id [ some k ↦ k == incident_id | none ↦ false ]

abbrev pub is_firing_on : UuidNumber → Alert → Bool
is_firing_on incident_id a = is_on incident_id a && str_eq a.status alert_status_firing

abbrev pub flipped : Time → Alert → Alert
flipped resolved_at a = record a { status = alert_status_resolved; resolved_at = some resolved_at }

unfoldable pub mark_incident_alerts_resolved : UuidNumber → Time → Tx ℕ
mark_incident_alerts_resolved incident_id resolved_at db =
    (do
      modify λ t. record t {
        alerts = update (is_firing_on incident_id) (flipped resolved_at) t.alerts;
      }
      pure (count_where (is_firing_on incident_id) db.alerts))
      db

unfoldable pub count_firing_alerts : UuidNumber → Db → ℕ
count_firing_alerts incident_id db = count_where (is_firing_on incident_id) db.alerts

-- the transition of a quiet incident, stamped with the webhook's time
abbrev pub resolve_now : UuidNumber → Time → Time → Tx Bool
resolve_now incident_id resolved_at now = do
  transition_status incident_id status_resolved ingestion_actor none (some resolved_by_alert)
      (some resolved_at) now
  pure true

unfoldable pub resolve_incident_if_quiet : UuidNumber → Time → Time → Tx Bool
unfolding count_firing_alerts
resolve_incident_if_quiet incident_id resolved_at now db =
    if ltb 0 (count_firing_alerts incident_id db)
    then pure false db
    else resolve_now incident_id resolved_at now db
