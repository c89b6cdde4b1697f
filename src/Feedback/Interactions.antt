-- ===== src/Feedback/Interactions.antt =====
-- apps/feedback-service/src/radar_feedback_service/interactions.py: what a click on a card does to
-- the tables, and the card that is shown afterwards. The update of the card is best-effort and
-- changes no table; its reply is not looked at.
use Prim.Native.String.{◌++◌ as str_append}
use radar_system.Prelude.{String, Option, none, some, List, [], ◌∷◌, ◌++◌, ◌==◌, any, if◌then◌else◌}
use radar_system.Contracts.{UuidNumber, Time, Document, text, uuid}
use radar_system.Database.Tables.{Incident, Recommendation, Feedback, AuditLog, document, Db}
use radar_system.Database.Tx.{
  Tx, Result, ok, err, not_found, invalid_state_transition, integrity_error, key_error, ◌>>=◌, ◌>>◌,
  pure, raise, gets, modify, add_audit,
}
use radar_system.Database.Lifecycle.{status_resolved}
use radar_system.Database.Repository.{incident_by_id, transition_status}
use radar_system.Feedback.Callbacks.{
  InteractionAction, feedback_up, feedback_down, resolve, NotificationInteraction, ParsedCallback,
  CallbackResult, callback, unknown_action, no_value, not_an_id, parse_callback,
}
use radar_system.Feedback.Cards.{TextLib, Block, format_rca_card}
use radar_system.Feedback.Delivery.{recommendation_by_id, card_data_from_rows}

pub data CallbackOutcome : Type 0 where
  feedback_recorded resolved already_resolved : CallbackOutcome

-- `_SENTIMENT` and `_FEEDBACK_ACK`; `none` is the KeyError of an action that is no rating
abbrev pub sentiment : InteractionAction → Option String
sentiment feedback_up = some "helpful"
sentiment feedback_down = some "not_helpful"
sentiment resolve = none

abbrev feedback_ack : InteractionAction → String
feedback_ack feedback_up = "👍 Marked helpful by"
feedback_ack feedback_down = "👎 Marked not helpful by"
feedback_ack resolve = ""

-- `_resolve_ack`
abbrev resolve_ack : CallbackOutcome → String → String
resolve_ack resolved user_id = str_append "✅ Resolved by <@" (str_append user_id ">")
resolve_ack already_resolved user_id = "✅ Already resolved"
resolve_ack feedback_recorded user_id = "✅ Already resolved"

-- the line that is added to the card
abbrev ack_of : ParsedCallback → CallbackOutcome → String
ack_of parsed feedback_recorded =
    str_append (feedback_ack parsed.action) (str_append " <@" (str_append parsed.user_id ">"))
ack_of parsed resolved = resolve_ack resolved parsed.user_id
ack_of parsed already_resolved = resolve_ack already_resolved parsed.user_id

-- `_load_recommendation`, `_load_incident`
abbrev pub or_missing : {A : Type 0} → UuidNumber → Option A → Tx A
or_missing id none = raise (not_found id)
or_missing id (some a) = pure a

abbrev pub load_recommendation : UuidNumber → Tx Recommendation
load_recommendation id = gets (recommendation_by_id id) >>= or_missing id

abbrev pub load_incident : UuidNumber → Tx Incident
load_incident id = gets (incident_by_id id) >>= or_missing id

abbrev pub or_key_error : Option String → Tx String
or_key_error none = raise key_error
or_key_error (some s) = pure s

-- the insert of a rating, under its primary key
unfoldable pub add_feedback : Feedback → Tx Unit
add_feedback row db =
    if any (λ (f : Feedback). f.id == row.id) db.feedback
    then raise integrity_error db
    else modify (λ t. record t { feedback = t.feedback ++ row ∷ [] }) db

abbrev pub feedback_row : UuidNumber → Time → ParsedCallback → String → Recommendation → Feedback
feedback_row id now parsed given r = record {
  id = id;
  recommendation_id = r.id;
  incident_id = r.incident_id;
  correlation_id = r.correlation_id;
  sentiment = given;
  correction_text = none;
  slack_user_id = some parsed.user_id;
  slack_message_ts = some parsed.message_ts;
  llm_provider = r.llm_provider;
  model_alias = r.model_alias;
  created_at = now;
}

abbrev pub Reflected : Type 0
Reflected = CallbackOutcome × Recommendation × Incident

-- `_record_feedback`; `id` is the key that the database generates
unfoldable pub record_feedback : UuidNumber → Time → ParsedCallback → Tx Reflected
record_feedback id now parsed = do
  given ← or_key_error (sentiment parsed.action)
  r ← load_recommendation parsed.recommendation_id
  i ← load_incident r.incident_id
  add_feedback (feedback_row id now parsed given r)
  pure (feedback_recorded, r, i)

-- `_invalid_transition_audit`
abbrev pub invalid_transition_audit :
    ParsedCallback → Recommendation → String → String → UuidNumber → AuditLog
invalid_transition_audit parsed r from_status attempted incident_id = record {
  event_type = "incident.invalid_transition";
  entity_type = "incident";
  entity_id = incident_id;
  correlation_id = r.correlation_id;
  actor = parsed.user_id;
  payload = document (
      ("from_status", text from_status)
      ∷ ("attempted_status", text attempted)
      ∷ ("recommendation_id", uuid r.id)
      ∷ ("slack_user_id", text parsed.user_id)
      ∷ ("channel_id", text parsed.channel_id)
      ∷ []);
}

abbrev pub resolve_payload : ParsedCallback → Recommendation → Document
resolve_payload parsed r =
    ("recommendation_id", uuid r.id)
    ∷ ("slack_user_id", text parsed.user_id)
    ∷ ("channel_id", text parsed.channel_id)
    ∷ []

-- the lost race, and any other exception
abbrev pub after_transition :
    ParsedCallback → Recommendation → Db → Result (Incident × Db) → Result (Reflected × Db)
after_transition parsed r db (ok (i, db')) = ok ((resolved, r, i), db')
after_transition parsed r db (err (invalid_state_transition from_status attempted id)) =
    (do
      add_audit (invalid_transition_audit parsed r from_status attempted id)
      i ← load_incident r.incident_id
      pure (already_resolved, r, i))
      db
after_transition parsed r db (err e) = err e

abbrev pub resolve_loaded : Time → ParsedCallback → Recommendation → Tx Reflected
resolve_loaded now parsed r db = after_transition parsed r db (
    transition_status r.incident_id status_resolved parsed.user_id (some r.correlation_id)
      (some (resolve_payload parsed r)) none now db)

-- `_resolve`
unfoldable pub resolve_incident : Time → ParsedCallback → Tx Reflected
resolve_incident now parsed = do
  r ← load_recommendation parsed.recommendation_id
  resolve_loaded now parsed r

abbrev pub apply : UuidNumber → Time → ParsedCallback → InteractionAction → Tx Reflected
apply id now parsed resolve = resolve_incident now parsed
apply id now parsed feedback_up = record_feedback id now parsed
apply id now parsed feedback_down = record_feedback id now parsed

-- What a click comes to: the outcome where there is one, the tables, and the card that `_reflect`
-- sends.
pub record Clicked : Type 0 where
  pub outcome : Option CallbackOutcome
  pub tables : Db
  pub shown : Option (String × List Block)

abbrev pub unchanged : Db → Clicked
unchanged db = record { outcome = none; tables = db; shown = none }

module _ (texts : TextLib) (id : UuidNumber) (now : Time) where
  abbrev pub reflected : ParsedCallback → Db → Result (Reflected × Db) → Clicked
  reflected parsed db (ok ((o, r, i), db')) = record {
    outcome = some o;
    tables = db';
    shown = some (format_rca_card texts (card_data_from_rows r i) (some (ack_of parsed o)));
  }
  reflected parsed db (err e) = unchanged db

  -- `handle_callback`, with the NotFoundError that its caller logs
  unfoldable pub handle_callback : ParsedCallback → Db → Clicked
  handle_callback parsed db = reflected parsed db (apply id now parsed parsed.action db)

  abbrev pub handle_parsed : CallbackResult → Db → Clicked
  handle_parsed (callback parsed) db = handle_callback parsed db
  handle_parsed unknown_action db = unchanged db
  handle_parsed no_value db = unchanged db
  handle_parsed not_an_id db = unchanged db

  -- the handler of `build_interaction_handler`
  unfoldable pub handle : NotificationInteraction → Db → Clicked
  handle click db = handle_parsed (parse_callback texts.uuid_of click) db
