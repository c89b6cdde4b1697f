-- ===== src/Feedback/Routes.antt =====
-- apps/feedback-service/src/radar_feedback_service/routes.py: `POST /events`.
use radar_system.Prelude.{String, Option, none, some, List, [], if◌then◌else◌, str_eq}
use radar_system.Contracts.{
  Time, EventEnvelope, Payload, alert_normalized, plan_requested, reasoning_requested,
  recommendation_created, other, RecommendationCreatedPayload,
}
use radar_system.Database.Tables.{Db}
use radar_system.Database.Tx.{Result, ok, err, Error, not_found, notification_failed}
use radar_system.Database.Repository.{is_already_processed, mark_processed}
use radar_system.Feedback.Cards.{TextLib}
use radar_system.Feedback.Delivery.{
  service_name, DeliveryOutcome, delivered, already_delivered, Posted, Notifier, Delivery,
  deliver_rca,
}

-- The HTTP answer: 200 with a status text, 422, 503, or the 500 of an uncaught exception.
pub data Answer : Type 0 where
  delivered_now delivered_before already_processed ignored : Answer
  unprocessable unavailable : Answer
  server_error : Error → Answer

-- `_parse_payload`
abbrev pub parse_payload : Payload → Option RecommendationCreatedPayload
parse_payload (recommendation_created p) = some p
parse_payload (alert_normalized p) = none
parse_payload (plan_requested p) = none
parse_payload (reasoning_requested p) = none
parse_payload (other p) = none

-- The answer, the tables, and the cards that were posted.
abbrev pub Handled : Type 0
Handled = Answer × Db × List Posted

abbrev pub outcome_answer : DeliveryOutcome → Answer
outcome_answer delivered = delivered_now
outcome_answer already_delivered = delivered_before

abbrev pub answered : Db → Delivery → Handled
answered db (ok (o, db'), posts) = (outcome_answer o, db', posts)
answered db (err (not_found id), posts) = (unprocessable, db, posts)
answered db (err notification_failed, posts) = (unavailable, db, posts)
answered db (err e, posts) = (server_error e, db, posts)

abbrev pub marked_ignored : Db → Result {0} (Unit × Db) → Handled
marked_ignored db (ok (u, db')) = (ignored, db', [])
marked_ignored db (err e) = (server_error e, db, [])

module _ (texts : TextLib) (channel : String) (now : Time) where
  abbrev pub handle_parsed :
      Notifier → EventEnvelope → Option RecommendationCreatedPayload → Db → Handled
  handle_parsed send envelope none db = (unprocessable, db, [])
  handle_parsed send envelope (some payload) db = answered db (
      deliver_rca texts send channel envelope.event_id now db payload.recommendation_id
        payload.incident_id)

  -- `handle_event`; `none` is a service without its database or its notifier
  unfoldable pub handle_event : Option Notifier → EventEnvelope → Db → Handled
  handle_event none envelope db = (unavailable, db, [])
  handle_event (some send) envelope db =
      if is_already_processed envelope.event_id service_name db
      then (already_processed, db, [])
      else if str_eq envelope.event_type "recommendation.created"
      then handle_parsed send envelope (parse_payload envelope.payload) db
      else marked_ignored db (mark_processed envelope.event_id service_name db)
