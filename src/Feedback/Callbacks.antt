-- ===== src/Feedback/Callbacks.antt =====
-- apps/feedback-service/src/radar_feedback_service/callbacks.py: what a click on a card means. The
-- text of a UUID is the library's: a parameter, in both directions.
use radar_system.Prelude.{String, Option, none, some, str_eq, if◌then◌else◌}
use radar_system.Contracts.{UuidNumber}

pub data InteractionAction : Type 0 where
  feedback_up feedback_down resolve : InteractionAction

-- `InteractionAction.value`
abbrev pub action_value : InteractionAction → String
action_value feedback_up = "feedback.up"
action_value feedback_down = "feedback.down"
action_value resolve = "incident.resolve"

-- `InteractionAction(text)`; `none` is its ValueError
unfoldable pub action_of_value : String → Option InteractionAction
action_of_value id =
    if str_eq id "feedback.up"
    then some feedback_up
    else if str_eq id "feedback.down"
    then some feedback_down
    else if str_eq id "incident.resolve"
    then some resolve
    else none

-- `NotificationInteraction` of packages/contracts/src/radar_contracts/notifications.py
pub record NotificationInteraction : Type 0 where
  pub action_id : String
  pub value : Option String
  pub user_id : String
  pub channel_id : String
  pub message_ts : String

pub record ParsedCallback : Type 0 where
  pub action : InteractionAction
  pub recommendation_id : UuidNumber
  pub user_id : String
  pub channel_id : String
  pub message_ts : String

-- The CallbackParseError of each kind, or the callback.
pub data CallbackResult : Type 0 where
  callback : ParsedCallback → CallbackResult
  unknown_action no_value not_an_id : CallbackResult

module _ (uuid_of : String → Option UuidNumber) where
  abbrev pub with_id :
      NotificationInteraction → InteractionAction → Option UuidNumber → CallbackResult
  with_id click action none = not_an_id
  with_id click action (some id) = callback (record {
    action = action;
    recommendation_id = id;
    user_id = click.user_id;
    channel_id = click.channel_id;
    message_ts = click.message_ts;
  })

  abbrev pub with_value :
      NotificationInteraction → InteractionAction → Option String → CallbackResult
  with_value click action none = no_value
  with_value click action (some v) = with_id click action (uuid_of v)

  abbrev pub with_action : NotificationInteraction → Option InteractionAction → CallbackResult
  with_action click none = unknown_action
  with_action click (some action) = with_value click action click.value

  -- `parse_callback`
  unfoldable pub parse_callback : NotificationInteraction → CallbackResult
  parse_callback click = with_action click (action_of_value click.action_id)
