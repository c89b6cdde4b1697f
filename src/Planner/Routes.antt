-- ===== src/Planner/Routes.antt =====
-- apps/planner-agent/src/radar_planner_agent/routes.py: `POST /events`, and the absorbed race. The
-- reads see `seen`; the writes, and the recovery transaction, meet the tables as they are by then.
use radar_system.Prelude.{String, Option, none, some, if◌then◌else◌, str_eq}
use radar_system.Contracts.{
  EventEnvelope, Payload, alert_normalized, plan_requested, reasoning_requested,
  recommendation_created, other, PlanRequestedPayload,
}
use radar_system.Database.Tables.{Db}
use radar_system.Database.Tx.{
  Tx, Result, ok, err, Error, incident_not_found, integrity_error, ◌>>=◌, ◌>>◌, pure, add_audit,
}
use radar_system.Database.Repository.{is_already_processed, mark_processed}
use radar_system.Planner.Templates.{PlanTemplates}
use radar_system.Planner.Planning.{Fresh, PlanningOutcome, plan_incident, duplicate_audit}

abbrev pub service_name : String
service_name = "planner-agent"

-- The HTTP answer: 200 with a status text, 422, 503, or the 500 of an uncaught exception.
pub data Answer : Type 0 where
  processed already_planned already_processed ignored : Answer
  unprocessable not_ready : Answer
  server_error : Error → Answer

-- `_parse_payload`
abbrev pub parse_payload : Payload → Option PlanRequestedPayload
parse_payload (plan_requested p) = some p
parse_payload (alert_normalized p) = none
parse_payload (reasoning_requested p) = none
parse_payload (recommendation_created p) = none
parse_payload (other p) = none

abbrev pub recover : EventEnvelope → PlanRequestedPayload → Tx Unit
recover envelope payload = do
  add_audit (duplicate_audit envelope.correlation_id payload)
  mark_processed envelope.event_id service_name

abbrev pub recovered : Db → Result {0} (Unit × Db) → Answer × Db
recovered db (ok (u, db')) = (already_planned, db')
recovered db (err e) = (server_error e, db)

-- `_absorb_duplicate`
unfoldable pub absorb_duplicate : EventEnvelope → PlanRequestedPayload → Db → Answer × Db
absorb_duplicate envelope payload db =
    if is_already_processed envelope.event_id service_name db
    then (already_processed, db)
    else recovered db (recover envelope payload db)

abbrev pub plan_and_mark :
    Fresh → PlanTemplates → EventEnvelope → PlanRequestedPayload → Db → Tx PlanningOutcome
plan_and_mark fresh templates envelope payload seen = do
  outcome ← plan_incident fresh templates envelope.correlation_id payload seen
  mark_processed envelope.event_id service_name
  pure outcome

-- what the plan's transaction comes to
abbrev pub planned :
    EventEnvelope → PlanRequestedPayload → Db → Result (PlanningOutcome × Db) → Answer × Db
planned envelope payload db (ok (o, db')) =
    (if o.duplicate then already_planned else processed, db')
planned envelope payload db (err (incident_not_found id)) = (unprocessable, db)
planned envelope payload db (err integrity_error) = absorb_duplicate envelope payload db
planned envelope payload db (err e) = (server_error e, db)

abbrev pub handle_parsed :
    Fresh → PlanTemplates → EventEnvelope → Option PlanRequestedPayload → Db → Db → Answer × Db
handle_parsed fresh templates envelope none seen db = (unprocessable, db)
handle_parsed fresh templates envelope (some payload) seen db =
    planned envelope payload db (plan_and_mark fresh templates envelope payload seen db)

abbrev pub marked_ignored : Db → Result {0} (Unit × Db) → Answer × Db
marked_ignored db (ok (u, db')) = (ignored, db')
marked_ignored db (err e) = (server_error e, db)

-- `receive_event`; `none` are templates that did not load
unfoldable pub receive_event : Fresh → Option PlanTemplates → EventEnvelope → Db → Db → Answer × Db
receive_event fresh none envelope seen db = (not_ready, db)
receive_event fresh (some templates) envelope seen db =
    if is_already_processed envelope.event_id service_name seen
    then (already_processed, db)
    else if str_eq envelope.event_type "incident.plan_requested"
    then handle_parsed fresh templates envelope (parse_payload envelope.payload) seen db
    else marked_ignored db (mark_processed envelope.event_id service_name db)
