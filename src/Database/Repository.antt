-- ===== src/Database/Repository.antt =====
-- packages/database/src/radar_database/repository.py: the one entry point for a status change, the
-- idempotency markers, and the read queries of the bot.
pub mod Transition
pub mod Marker
pub mod Kept
use radar_system.Prelude.{
  ℕ, ◌+◌, ◌≤◌, String, Bool, true, false, ◌&&◌, ◌||◌, Option, none, some, List, [], ◌∷◌, ◌++◌, leb,
  ltb, ◌==◌, if◌then◌else◌, str_eq, find_row, update, select, count_where, any, take, order_by,
}
use radar_system.Contracts.{UuidNumber, Time, Document}
use radar_system.Database.Tables.{
  Incident, ProcessedEvent, AuditLog, document, Db, OutboxEvent, is_pending,
}
use radar_system.Database.Tx.{
  Tx, ◌>>=◌, ◌>>◌, pure, raise, gets, modify, add_audit, not_found, invalid_state_transition,
  integrity_error, key_error,
}
use radar_system.Database.Lifecycle.{
  status_open, status_investigating, status_resolved, status_closed, is_valid_transition,
  transition_audit_event_type,
}

abbrev pub incident_by_id : UuidNumber → Db → Option Incident
incident_by_id id db = find_row (λ i. i.id == id) db.incidents

-- the assignments to the row, as `transition_status` makes them
abbrev pub stamped : String → Time → Incident → Incident
stamped new_status when i = record i {
  status = new_status;
  updated_at = when;
  resolved_at = if str_eq new_status status_resolved then some when else i.resolved_at;
  closed_at = if str_eq new_status status_closed then some when else i.closed_at;
}

abbrev transition_audit :
    String → Incident → String → Option UuidNumber → Option Document → AuditLog
transition_audit event_type i actor correlation_id audit_payload = record {
  event_type = event_type;
  entity_type = "incident";
  entity_id = i.id;
  correlation_id = elim correlation_id [ some c ↦ c | none ↦ i.correlation_id ];
  actor = actor;
  payload = document (elim audit_payload [ some p ↦ p | none ↦ [] ]);
}

-- A missing key of the audit event table raises.
abbrev or_key_error : Option String → Tx String
or_key_error (some t) = pure t
or_key_error none = raise key_error

-- What follows once the row is loaded under its lock.
unfoldable pub move :
    Incident → String → String → Option UuidNumber → Option Document → Time → Tx Incident
unfolding is_valid_transition transition_audit_event_type
move i new_status actor correlation_id audit_payload when =
    if is_valid_transition i.status new_status
    then (do
      event_type ← or_key_error (transition_audit_event_type new_status)
      modify λ db. record db {
        incidents = update (λ r. r.id == i.id) (stamped new_status when) db.incidents;
      }
      add_audit (transition_audit event_type i actor correlation_id audit_payload)
      pure (stamped new_status when i))
    else raise (invalid_state_transition i.status new_status i.id)

abbrev or_not_found : UuidNumber → Option Incident → Tx Incident
or_not_found id none = raise (not_found id)
or_not_found id (some i) = pure i

-- `IncidentRepository.transition_status`; `now` is the clock that `occurred_at` defaults to
unfoldable pub transition_status :
    UuidNumber
    → String
    → String
    → Option UuidNumber
    → Option Document
    → Option Time
    → Time
    → Tx Incident
unfolding move
transition_status incident_id new_status actor correlation_id audit_payload occurred_at now = do
  found ← gets (incident_by_id incident_id)
  i ← or_not_found incident_id found
  move i new_status actor correlation_id audit_payload
      (elim occurred_at [ some t ↦ t | none ↦ now ])

-- `is_already_processed` and `mark_processed`; the primary key is the pair
abbrev pub is_marker : UuidNumber → String → ProcessedEvent → Bool
is_marker event_id service p = p.event_id == event_id && str_eq p.processed_by service

unfoldable pub is_already_processed : UuidNumber → String → Db → Bool
is_already_processed event_id service db = any (is_marker event_id service) db.processed_events

unfoldable pub mark_processed : UuidNumber → String → Tx Unit
unfolding is_already_processed
mark_processed event_id service db =
    if is_already_processed event_id service db
    then raise integrity_error db
    else modify
        (λ t. record t {
          processed_events =
              record { event_id = event_id; processed_by = service } ∷ t.processed_events;
        })
        db

-- `_ACTIVE_STATUSES`
unfoldable pub is_active : Incident → Bool
is_active i = str_eq i.status status_open || str_eq i.status status_investigating

unfoldable pub count_active : Db → ℕ
unfolding is_active
count_active db = count_where is_active db.incidents

unfoldable pub count_pending : Db → ℕ
count_pending db = count_where (λ (e : OutboxEvent). is_pending e.status) db.outbox_events
