-- ===== src/Watcher/Routes.antt =====
-- apps/watcher-agent/src/radar_watcher_agent/routes.py: `POST /events` behind the idempotency gate.
use radar_system.Prelude.{String, Option, none, some, if◌then◌else◌, str_eq}
use radar_system.Contracts.{
  EventEnvelope, Payload, alert_normalized, plan_requested, reasoning_requested,
  recommendation_created, other, AlertNormalizedPayload,
}
use radar_system.Database.Tables.{Db}
use radar_system.Database.Tx.{Tx, Result, ok, err, Error, incident_not_found, ◌>>=◌, ◌>>◌, pure}
use radar_system.Database.Repository.{is_already_processed, mark_processed}
use radar_system.Watcher.Rules.{CorrelationRules}
use radar_system.Watcher.Correlation.{Fresh, CorrelationOutcome, correlate}

abbrev pub service_name : String
service_name = "watcher-agent"

-- The HTTP answer: 200 with a status text, 422, 503, or the 500 of an uncaught exception.
pub data Answer : Type 0 where
  processed already_processed ignored : Answer
  unprocessable not_ready : Answer
  server_error : Error → Answer

-- `_parse_payload`
abbrev pub parse_payload : Payload → Option AlertNormalizedPayload
parse_payload (alert_normalized p) = some p
parse_payload (plan_requested p) = none
parse_payload (reasoning_requested p) = none
parse_payload (recommendation_created p) = none
parse_payload (other p) = none

-- the decision and the marker, in one transaction
abbrev pub decide_and_mark :
    Fresh → CorrelationRules → EventEnvelope → AlertNormalizedPayload → Tx CorrelationOutcome
decide_and_mark fresh rules envelope payload = do
  outcome ← correlate fresh rules envelope.correlation_id payload
  mark_processed envelope.event_id service_name
  pure outcome

-- A transaction that raises is rolled back: the missing incident is answered 422, anything else
-- 500.
abbrev pub answer_of : {A : Type 0} → Answer → Db → Result (A × Db) → Answer × Db
answer_of answer db (ok (a, db')) = (answer, db')
answer_of answer db (err (incident_not_found id)) = (unprocessable, db)
answer_of answer db (err e) = (server_error e, db)

abbrev pub handle_parsed :
    Fresh → CorrelationRules → EventEnvelope → Option AlertNormalizedPayload → Db → Answer × Db
handle_parsed fresh rules envelope none db = (unprocessable, db)
handle_parsed fresh rules envelope (some payload) db =
    answer_of processed db (decide_and_mark fresh rules envelope payload db)

abbrev pub handle_ready : Fresh → CorrelationRules → EventEnvelope → Db → Answer × Db
handle_ready fresh rules envelope db =
    if is_already_processed envelope.event_id service_name db
    then (already_processed, db)
    else if str_eq envelope.event_type "alert.normalized"
    then handle_parsed fresh rules envelope (parse_payload envelope.payload) db
    else answer_of ignored db (mark_processed envelope.event_id service_name db)

-- `receive_event`; `none` are rules that did not load
unfoldable pub receive_event : Fresh → Option CorrelationRules → EventEnvelope → Db → Answer × Db
receive_event fresh none envelope db = (not_ready, db)
receive_event fresh (some rules) envelope db = handle_ready fresh rules envelope db
