-- ===== src/Feedback/Tests.antt =====
-- Runs of the feedback service on a concrete recommendation, and the laws at those inputs.
use radar_system.Prelude.{
  ℕ, String, ◌≡◌, refl, true, none, some, List, [], ◌∷◌, ◌⊎◌, map, All, ◌==◌, str_eq, if◌then◌else◌,
}
use radar_system.Contracts.{Severity, EventEnvelope, recommendation_created}
use radar_system.Database.Tables.{Incident, Recommendation, Db, empty_db}
use radar_system.Database.Lifecycle.{
  status_resolved, valid_transitions, is_valid_transition, transition_audit_event_type,
}
use radar_system.Database.Repository.{is_already_processed, mark_processed, move, transition_status}
use radar_system.Database.Repository.Transition.{IsEdge}
use radar_system.Feedback.Callbacks.{feedback_up, feedback_down, action_of_value, parse_callback}
use radar_system.Feedback.Cards.{TextLib, RcaCardData, buttons, truncate, format_rca_card}
use radar_system.Feedback.Buttons.{click, read_as, clicks_round_trip, IsFitting, card_fits}
use radar_system.Feedback.Delivery.{
  Notifier, refused, confirmed, unconfirmed, card_data_from_rows, deliver_rca, record_ts,
  mark_investigating, record_delivery,
}
use radar_system.Feedback.Routes.{unavailable, handle_event}
use radar_system.Feedback.Delivered.{message_ts, posts_of, lost_of, CardStep}
use radar_system.Feedback.Once.{Arrival, run, all_answered, deliveries-CardStep}
use radar_system.Feedback.Interactions.{
  resolved, feedback_recorded, Clicked, add_feedback, record_feedback, resolve_incident,
  handle_callback, handle,
}
use radar_system.Feedback.Resolving.{clicked, IsResolved, IsRefused, click_resolves}

abbrev texts : TextLib
texts = record {
  uuid_text = λ n. if n == 40 then "u40" else "other";
  uuid_of = λ s. if str_eq s "u40" then some 40 else none;
  shown = λ n. "1";
  capitalize = λ s. s;
}

abbrev incident_in : String → Incident
incident_in status = record {
  id = 5;
  correlation_id = 11;
  fingerprint = "f";
  service_name = "payments";
  title = "payments HighLatency";
  severity = "high";
  status = status;
  alert_count = 1;
  opened_at = 100;
  resolved_at = none;
  closed_at = none;
  updated_at = 100;
}

abbrev recommendation : Recommendation
recommendation = record {
  id = 40;
  incident_id = 5;
  plan_id = 9;
  correlation_id = 11;
  llm_provider = "none";
  model_alias = "none";
  model_id = "template-fallback";
  root_cause = "unknown";
  confidence = "low";
  recommended_actions = record { order = 1; action = "read the logs" } ∷ [];
  context_bundle = record {
    bundle = record {
      incident_id = 5;
      service_name = "payments";
      alert_name = "HighLatency";
      severity = Severity.high;
      opened_at = 100;
      alert_count = 1;
      investigation_steps = [];
      alert_labels = [];
      alert_annotations = [];
      retrieved_context = [];
      historical_prior = record { total = 0; category_counts = [] };
      past_feedback = record { confirmed_causes = []; corrections = []; unhelpful_count = 0 };
    };
    fallback = none;
    retrieval = none;
  };
  raw_llm_response = none;
  is_fallback = true;
  prompt_tokens = none;
  completion_tokens = none;
  latency_ms = none;
  slack_message_ts = none;
  created_at = 200;
}

abbrev db_in : String → Db
db_in status = record empty_db {
  incidents = incident_in status ∷ [];
  recommendations = recommendation ∷ [];
}

abbrev event : ℕ → EventEnvelope
event n = record {
  event_id = n;
  event_type = "recommendation.created";
  correlation_id = 11;
  payload = recommendation_created (record { incident_id = 5; recommendation_id = 40 });
}

abbrev posting : Notifier
posting p = confirmed "1700.1"

abbrev failing : Notifier
failing p = refused

abbrev losing : Notifier
losing p = unconfirmed

-- a failed post, a post whose reply is lost, a delivery, its redelivery, and a second event for the
-- same recommendation
abbrev arrivals : List Arrival
arrivals =
    record { send = some failing; now = 300; envelope = event 31 }
    ∷ record { send = some losing; now = 305; envelope = event 31 }
    ∷ record { send = some posting; now = 310; envelope = event 31 }
    ∷ record { send = some posting; now = 320; envelope = event 31 }
    ∷ record { send = some posting; now = 330; envelope = event 32 }
    ∷ []

failed_first :
    handle_event texts "#rca" 300 (some failing) (event 31) (db_in "open")
    ≡ (unavailable, db_in "open", [])
unfolding handle_event is_already_processed deliver_rca
failed_first = refl

confirmed_once : posts_of 40 (run texts "#rca" arrivals (db_in "open")).1 ≡ 2
unfolding run handle_event is_already_processed mark_processed deliver_rca record_ts
    mark_investigating record_delivery transition_status move is_valid_transition valid_transitions
    transition_audit_event_type
confirmed_once = refl

all_fine : all_answered texts "#rca" arrivals (db_in "open") ≡ true
unfolding all_answered handle_event is_already_processed mark_processed deliver_rca record_ts
    mark_investigating record_delivery transition_status move is_valid_transition valid_transitions
    transition_audit_event_type
all_fine = refl

deliveries-CardStep_example :
    CardStep none
      (message_ts 40 (run texts "#rca" arrivals (db_in "open")).0)
      (posts_of 40 (run texts "#rca" arrivals (db_in "open")).1)
      (lost_of 40 (run texts "#rca" arrivals (db_in "open")).1)
deliveries-CardStep_example = deliveries-CardStep texts "#rca" 40 arrivals (db_in "open") all_fine

clicks_round_trip_example :
    map (λ b. parse_callback texts.uuid_of (click "U1" "C1" "1700.1" b)) (buttons texts 40 true)
    ≡ map (read_as "U1" "C1" "1700.1" 40) (feedback_up ∷ feedback_down ∷ [])
clicks_round_trip_example = clicks_round_trip texts 40 true "U1" "C1" "1700.1" refl

abbrev card_data : RcaCardData
card_data = card_data_from_rows recommendation (incident_in "resolved")

card_fits_example : All IsFitting (format_rca_card texts card_data none).1
card_fits_example = card_fits texts card_data none

abbrev resolving : String → Clicked
resolving status =
    handle texts 70 400
      (clicked texts 70 400 "U1" "C1" "1700.1" recommendation (incident_in status) (db_in status))
      (db_in status)

resolved_now : (resolving "investigating").outcome ≡ some resolved
unfolding handle parse_callback action_of_value handle_callback resolve_incident transition_status
    move is_valid_transition valid_transitions transition_audit_event_type format_rca_card buttons
    truncate
resolved_now = refl

rated :
    (handle texts 70 400
      (click "U1" "C1" "1700.1"
        (record { label = ""; action_id = "feedback.down"; value = "u40"; style = none }))
      (db_in "open")).outcome
    ≡ some feedback_recorded
unfolding handle parse_callback action_of_value handle_callback record_feedback add_feedback
rated = refl

click_resolves_example :
    (IsEdge "resolved" status_resolved
      × IsResolved texts 70 400 "U1" "C1" "1700.1" recommendation
          (incident_in "resolved")
          (db_in "resolved")
          (resolving "resolved"))
    ⊎ ((IsEdge "resolved" status_resolved → ⊥)
        × IsRefused texts 70 400 "U1" "C1" "1700.1" recommendation
            (incident_in "resolved")
            (db_in "resolved")
            (resolving "resolved"))
click_resolves_example =
    click_resolves texts 70 400 "U1" "C1" "1700.1" recommendation (incident_in "resolved")
      (db_in "resolved") refl refl refl
