-- ===== src/Ingestion/Publisher.antt =====
-- apps/ingestion/src/radar_ingestion/publisher.py: what one normalized alert writes, in one
-- transaction. The ids that the code generates and the clocks that it reads are in `Fresh`.
use Prim.Native.String.{◌++◌ as str_append}
use radar_system.Prelude.{
  ℕ, ◌+◌, String, Bool, true, false, ◌||◌, Option, none, some, [], ◌∷◌, ◌++◌, str_eq, ◌==◌, any,
  update, if◌then◌else◌,
}
use radar_system.Contracts.{
  UuidNumber, Time, Value, null, text, number, uuid, Document, value, NormalizedAlert,
  alert_normalized,
}
use radar_system.Database.Tables.{Incident, Alert, AuditLog, document, OutboxEvent}
use radar_system.Database.Tx.{
  Tx, ◌>>=◌, ◌>>◌, pure, raise, gets, modify, add_audit, integrity_error,
}
use radar_system.Database.Lifecycle.{status_open}
use radar_system.Database.Outbox.{write_outbox_event}
use radar_system.Ingestion.Deduper.{dedup_window, find_open_incident}
use radar_system.Ingestion.Resolver.{
  alert_status_resolved, ingestion_actor, find_resolvable_incident, mark_incident_alerts_resolved,
  resolve_incident_if_quiet,
}

-- `new_id()`, the generated row key and event id, `utcnow()` and NOW()
pub record Fresh : Type 0 where
  pub incident_id : UuidNumber
  pub outbox_id : UuidNumber
  pub event_id : UuidNumber
  pub utcnow : Time
  pub now : Time

pub record PublishResult : Type 0 where
  pub incident_id : Option UuidNumber
  pub deduplicated : Bool
  pub ignored : Bool
  pub alerts_resolved : Option ℕ
  pub incident_resolved : Bool

-- `session.add` of rows with a primary key, and of an incident's unique correlation id
abbrev pub add_incident : Incident → Tx Unit
add_incident i db =
    if any (λ r. r.correlation_id == i.correlation_id || r.id == i.id) db.incidents
    then raise integrity_error db
    else modify (λ t. record t { incidents = t.incidents ++ i ∷ [] }) db

abbrev pub add_alert : Alert → Tx Unit
add_alert a db =
    if any (λ r. r.id == a.id) db.alerts
    then raise integrity_error db
    else modify (λ t. record t { alerts = t.alerts ++ a ∷ [] }) db

abbrev text_or_null : Option String → Value
text_or_null none = null
text_or_null (some t) = text t

abbrev pub alert_facts : NormalizedAlert → Document
alert_facts alert =
    ("source", text alert.source)
    ∷ ("source_alert_id", text_or_null alert.source_alert_id)
    ∷ ("alert_id", uuid alert.id)
    ∷ ("fingerprint", text alert.fingerprint)
    ∷ ("service_name", text alert.service_name)
    ∷ ("alert_name", text alert.alert_name)
    ∷ ("severity", text (value alert.severity))
    ∷ []

abbrev audit_row : String → String → UuidNumber → NormalizedAlert → Document → AuditLog
audit_row event_type entity_type entity_id alert body = record {
  event_type = event_type;
  entity_type = entity_type;
  entity_id = entity_id;
  correlation_id = alert.correlation_id;
  actor = ingestion_actor;
  payload = document body;
}

abbrev pub incident_opened_audit : NormalizedAlert → UuidNumber → AuditLog
incident_opened_audit alert incident_id =
    audit_row "ingestion.incident_opened" "incident" incident_id alert (alert_facts alert)

abbrev pub alert_attached_audit : NormalizedAlert → UuidNumber → ℕ → AuditLog
alert_attached_audit alert incident_id alert_count =
    audit_row "ingestion.alert_attached" "incident" incident_id alert
      (alert_facts alert ++ ("alert_count", number alert_count) ∷ [])

abbrev pub resolve_ignored_audit : NormalizedAlert → AuditLog
resolve_ignored_audit alert = audit_row "ingestion.resolve_ignored" "alert" alert.id alert (
    ("source", text alert.source)
    ∷ ("source_alert_id", text_or_null alert.source_alert_id)
    ∷ ("fingerprint", text alert.fingerprint)
    ∷ ("service_name", text alert.service_name)
    ∷ ("alert_name", text alert.alert_name)
    ∷ ("severity", text (value alert.severity))
    ∷ ("reason", text "no_open_incident_for_resolved_alert")
    ∷ [])

-- `_new_incident`; the unset columns take their server defaults
abbrev pub new_incident : Fresh → NormalizedAlert → Incident
new_incident fresh alert = record {
  id = fresh.incident_id;
  correlation_id = alert.correlation_id;
  fingerprint = alert.fingerprint;
  service_name = alert.service_name;
  title = str_append alert.service_name (str_append " " alert.alert_name);
  severity = value alert.severity;
  status = status_open;
  alert_count = 1;
  opened_at = fresh.now;
  resolved_at = none;
  closed_at = none;
  updated_at = fresh.now;
}

-- `_alert_row`
abbrev pub alert_row : NormalizedAlert → UuidNumber → Alert
alert_row alert incident_id = record {
  id = alert.id;
  source = alert.source;
  source_alert_id = alert.source_alert_id;
  fingerprint = alert.fingerprint;
  service_name = alert.service_name;
  alert_name = alert.alert_name;
  severity = value alert.severity;
  status = alert.status;
  labels = alert.labels;
  annotations = alert.annotations;
  fired_at = alert.fired_at;
  resolved_at = alert.resolved_at;
  received_at = alert.received_at;
  incident_id = some incident_id;
  correlation_id = alert.correlation_id;
}

-- `_publish`
unfoldable pub publish : Fresh → NormalizedAlert → UuidNumber → Bool → Tx OutboxEvent
publish fresh alert incident_id deduplicated =
    write_outbox_event fresh.outbox_id fresh.event_id "alert.normalized" "watcher-agent"
      (alert_normalized
        (record { alert = alert; incident_id = incident_id; deduplicated = deduplicated }))
      alert.correlation_id fresh.now

abbrev pub bumped : Time → Incident → Incident
bumped utcnow i = record i { alert_count = i.alert_count + 1; updated_at = utcnow }

-- the duplicate branch of `persist_alert`
unfoldable pub attach : Fresh → NormalizedAlert → Incident → Tx PublishResult
attach fresh alert i = do
  modify
      λ db. record db { incidents = update (λ r. r.id == i.id) (bumped fresh.utcnow) db.incidents }
  add_alert (alert_row alert i.id)
  add_audit (alert_attached_audit alert i.id (i.alert_count + 1))
  publish fresh alert i.id true
  pure (record {
    incident_id = some i.id;
    deduplicated = true;
    ignored = false;
    alerts_resolved = none;
    incident_resolved = false;
  })

-- the new-incident branch
unfoldable pub open_incident : Fresh → NormalizedAlert → Tx PublishResult
open_incident fresh alert = do
  add_incident (new_incident fresh alert)
  add_alert (alert_row alert fresh.incident_id)
  add_audit (incident_opened_audit alert fresh.incident_id)
  publish fresh alert fresh.incident_id false
  pure (record {
    incident_id = some fresh.incident_id;
    deduplicated = false;
    ignored = false;
    alerts_resolved = none;
    incident_resolved = false;
  })

-- when the source says that the condition cleared, else when the webhook came in
abbrev pub webhook_time : NormalizedAlert → Time
webhook_time alert = elim alert.resolved_at [ some t ↦ t | none ↦ alert.received_at ]

-- `_resolve`, once the incident is looked up
unfoldable pub resolve_found : Fresh → NormalizedAlert → Option Incident → Tx PublishResult
resolve_found fresh alert none = do
  add_audit (resolve_ignored_audit alert)
  pure (record {
    incident_id = none;
    deduplicated = false;
    ignored = true;
    alerts_resolved = none;
    incident_resolved = false;
  })
resolve_found fresh alert (some i) = do
  let resolved_at = webhook_time alert
  count ← mark_incident_alerts_resolved i.id resolved_at
  incident_resolved ← resolve_incident_if_quiet i.id resolved_at fresh.utcnow
  pure (record {
    incident_id = some i.id;
    deduplicated = false;
    ignored = false;
    alerts_resolved = some count;
    incident_resolved = incident_resolved;
  })

abbrev pub fire_found : Fresh → NormalizedAlert → Option Incident → Tx PublishResult
fire_found fresh alert (some i) = attach fresh alert i
fire_found fresh alert none = open_incident fresh alert

unfoldable pub persist_alert : Fresh → NormalizedAlert → Option Time → Tx PublishResult
persist_alert fresh alert as_of =
    if str_eq alert.status alert_status_resolved
    then (do
      found ← gets (find_resolvable_incident alert.fingerprint)
      resolve_found fresh alert found)
    else (do
      found ← gets (
          find_open_incident alert.fingerprint
            (elim as_of [ some t ↦ t | none ↦ alert.received_at ]) dedup_window)
      fire_found fresh alert found)
