-- ===== src/Feedback/Delivery.antt =====
-- apps/feedback-service/src/radar_feedback_service/delivery.py: one card for one recommendation.
-- The row is locked for the whole call, so a delivery reads and writes the tables `db` alone.
-- `send` is the notification backend: `none` is any exception of it. What was posted outlives a
-- rollback, so the posted cards stand beside the result.
use radar_system.Prelude.{
  true, false, String, Bool, false, not, ◌&&◌, Option, none, some, List, [], ◌∷◌, ◌==◌, any,
  find_row, update, str_eq, if◌then◌else◌,
}
use radar_system.Contracts.{UuidNumber, Time, Document, text, flag, uuid}
use radar_system.Database.Tables.{Incident, Recommendation, AuditLog, document, Db}
use radar_system.Database.Tx.{
  Tx, Result, ok, err, not_found, invalid_state_transition, integrity_error, notification_failed,
  ◌>>◌, pure, raise, modify, add_audit,
}
use radar_system.Database.Lifecycle.{status_investigating}
use radar_system.Database.Repository.{incident_by_id, transition_status, mark_processed}
use radar_system.Feedback.Cards.{TextLib, RcaCardData, Block, format_rca_card}

abbrev pub service_name : String
service_name = "feedback-service"

pub data DeliveryOutcome : Type 0 where
  delivered already_delivered : DeliveryOutcome

-- A card as it is posted: the channel, the fallback text and the blocks, and what it is about.
pub record Post : Type 0 where
  pub recommendation_id : UuidNumber
  pub channel : String
  pub card : String × List Block

-- What a post comes to: the timestamp of the message, an exception before the message was there, or
-- an exception after it (the reply is lost, or has no timestamp).
pub data Sent : Type 0 where
  confirmed : String → Sent
  refused unconfirmed : Sent

abbrev pub Notifier : Type 0
Notifier = Post → Sent

-- A card that is there, and whether the service knows it.
pub record Posted : Type 0 where
  pub post : Post
  pub known : Bool

abbrev pub recommendation_by_id : UuidNumber → Db → Option Recommendation
recommendation_by_id id db = find_row (λ r. r.id == id) db.recommendations

-- `card_data_from_rows`
abbrev pub card_data_from_rows : Recommendation → Incident → RcaCardData
card_data_from_rows r i = record {
  incident_id = i.id;
  recommendation_id = r.id;
  service_name = i.service_name;
  title = i.title;
  severity = i.severity;
  status = i.status;
  root_cause = r.root_cause;
  confidence = r.confidence;
  recommended_actions = r.recommended_actions;
  is_fallback = r.is_fallback;
}

abbrev pub holds_ts : String → Option String → Bool
holds_ts ts none = false
holds_ts ts (some t) = str_eq t ts

-- the flush of the timestamp, under the unique index on it
unfoldable pub record_ts : UuidNumber → String → Tx Unit
record_ts id ts db =
    if any (λ (r : Recommendation). holds_ts ts r.slack_message_ts && not (r.id == id))
      db.recommendations
    then raise integrity_error db
    else modify
        (λ t. record t {
          recommendations =
              update (λ r. r.id == id) (λ r. record r { slack_message_ts = some ts })
                t.recommendations;
        })
        db

-- `_delivery_audit`
abbrev pub delivery_audit : Recommendation → Incident → String → String → AuditLog
delivery_audit r i ts channel = record {
  event_type = "notification.delivered";
  entity_type = "recommendation";
  entity_id = r.id;
  correlation_id = r.correlation_id;
  actor = service_name;
  payload = document (
      ("incident_id", uuid i.id)
      ∷ ("channel", text channel)
      ∷ ("slack_message_ts", text ts)
      ∷ ("is_fallback", flag r.is_fallback)
      ∷ []);
}

-- an InvalidStateTransitionError leaves the transaction as it was before the call
abbrev pub tolerated : Db → Result (Incident × Db) → Result {0} (Unit × Db)
tolerated db (ok (i, db')) = ok (tt, db')
tolerated db (err (invalid_state_transition from to id)) = ok (tt, db)
tolerated db (err e) = err e

abbrev pub investigating_payload : Recommendation → Document
investigating_payload r =
    ("recommendation_id", uuid r.id)
    ∷ ("is_fallback", flag r.is_fallback)
    ∷ ("confidence", text r.confidence)
    ∷ []

-- `_mark_investigating`
unfoldable pub mark_investigating : Recommendation → Incident → Time → Tx Unit
mark_investigating r i now db = tolerated db (
    transition_status i.id status_investigating service_name (some r.correlation_id)
      (some (investigating_payload r)) none now db)

-- what follows a successful post
unfoldable pub record_delivery :
    Recommendation → Incident → String → String → UuidNumber → Time → Tx DeliveryOutcome
record_delivery r i ts channel event_id now = do
  record_ts r.id ts
  add_audit (delivery_audit r i ts channel)
  mark_processed event_id service_name
  mark_investigating r i now
  pure delivered

abbrev pub Delivery : Type 0
Delivery = Result (DeliveryOutcome × Db) × List Posted

module _ (texts : TextLib) (send : Notifier) (channel : String) (event_id : UuidNumber) (now : Time)
    (db : Db) where
  -- `_post`, and what follows it
  abbrev pub after_post : Recommendation → Incident → Post → Sent → Delivery
  after_post r i post refused = (err notification_failed, [])
  after_post r i post unconfirmed =
      (err notification_failed, record { post = post; known = false } ∷ [])
  after_post r i post (confirmed ts) =
      (record_delivery r i ts channel event_id now db, record { post = post; known = true } ∷ [])

  abbrev pub post_of : Recommendation → Incident → Post
  post_of r i = record {
    recommendation_id = r.id;
    channel = channel;
    card = format_rca_card texts (card_data_from_rows r i) none;
  }

  abbrev pub deliver_card : UuidNumber → Recommendation → Option Incident → Delivery
  deliver_card incident_id r none = (err (not_found incident_id), [])
  deliver_card incident_id r (some i) = after_post r i (post_of r i) (send (post_of r i))

  abbrev pub deliver_unless : UuidNumber → Recommendation → Option String → Delivery
  deliver_unless incident_id r (some ts) = (ok (already_delivered, db), [])
  deliver_unless incident_id r none = deliver_card incident_id r (incident_by_id incident_id db)

  abbrev pub deliver_found : UuidNumber → UuidNumber → Option Recommendation → Delivery
  deliver_found recommendation_id incident_id none = (err (not_found recommendation_id), [])
  deliver_found recommendation_id incident_id (some r) =
      deliver_unless incident_id r r.slack_message_ts

  -- `deliver_rca`
  unfoldable pub deliver_rca : UuidNumber → UuidNumber → Delivery
  deliver_rca recommendation_id incident_id =
      deliver_found recommendation_id incident_id (recommendation_by_id recommendation_id db)
