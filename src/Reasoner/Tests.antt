-- ===== src/Reasoner/Tests.antt =====
-- Runs of the reasoner on a concrete incident, and the laws at those inputs.
use radar_system.Prelude.{ap, ℕ, String, ◌≡◌, refl, true, false, none, some, List, [], ◌∷◌}
use radar_system.Contracts.{
  Document, text, Confidence, Severity, LlmMode, ContextBundle, FallbackReason, cannot_reach,
  EventEnvelope, ReasoningRequestedPayload, reasoning_requested, of_value,
}
use radar_system.Database.Tables.{Incident, Alert, InvestigationPlan, Recommendation, Db, empty_db}
use radar_system.Database.Outbox.{write_outbox_event}
use radar_system.Database.Repository.{is_already_processed, mark_processed}
use radar_system.Reasoner.Rca.{RcaLib, unreadable}
use radar_system.Reasoner.Llm.{
  http_error, LlmFailureReason, LlmSuccess, failure, lookup_field, prompted_fields, complete,
}
use radar_system.Reasoner.Fallback.{ReasoningOutcome, generate_template_rca, resolve}
use radar_system.Reasoner.History.{classify_cause, historical_prior, past_feedback}
use radar_system.Reasoner.Context.{available, build_context_bundle}
use radar_system.Reasoner.Storage.{
  Fresh, existing_recommendation, add_recommendation, store_recommendation,
}
use radar_system.Reasoner.Routes.{
  Services, processed, already_processed, already_recommended, reason_with, receive_event,
}
use radar_system.Reasoner.Once.{reasoned_once}
use radar_system.Reasoner.Outcome.{IsActionable, unusable_step_raises}
use radar_system.Reasoner.Always.{new, recommended, always_recommended}
use radar_system.Reasoner.Race.{race_recorded, refused_insert_absorbed}

abbrev same : String → String
same s = s

-- a parser to which no text is JSON
abbrev no_json : RcaLib Unit
no_json = record {
  strip = same;
  lower = same;
  fenced = λ t. none;
  loads = λ t. unreadable;
  find_brace = λ t. none;
  rfind_brace = λ t. none;
  read_fields = λ o. none;
  error_count = λ o. 0;
}

-- a gateway that cannot be reached
abbrev services : Services Unit
services = record {
  lower = same;
  rca = no_json;
  post = λ bundle. http_error "ConnectError";
  decode = λ body. none;
  budget = 25_000_000;
  elapsed = 7;
  knowledge = none;
}

abbrev payload : ReasoningRequestedPayload
payload = record { incident_id = 5; plan_id = 9 }

abbrev request : ℕ → EventEnvelope
request n = record {
  event_id = n;
  event_type = "incident.reasoning_requested";
  correlation_id = 11;
  payload = reasoning_requested payload;
}

abbrev incident : Incident
incident = record {
  id = 5;
  correlation_id = 11;
  fingerprint = "f";
  service_name = "payments";
  title = "payments HighLatency";
  severity = "high";
  status = "open";
  alert_count = 1;
  opened_at = 100;
  resolved_at = none;
  closed_at = none;
  updated_at = 100;
}

abbrev alert : Alert
alert = record {
  id = 3;
  source = "alertmanager";
  source_alert_id = none;
  fingerprint = "f";
  service_name = "payments";
  alert_name = "HighLatency";
  severity = "high";
  status = "firing";
  labels = [];
  annotations = [];
  fired_at = 99;
  resolved_at = none;
  received_at = 100;
  incident_id = some 5;
  correlation_id = 11;
}

abbrev plan_of : List (ℕ × String) → InvestigationPlan
plan_of steps = record {
  id = 9;
  incident_id = 5;
  correlation_id = 11;
  steps = steps;
  template_key = some "_default";
  status = "pending";
  created_at = 110;
  updated_at = 110;
}

abbrev steps : List (ℕ × String)
steps = (2, "read the logs") ∷ (1, "look at the dashboard") ∷ []

abbrev start : Db
start = record empty_db {
  incidents = incident ∷ [];
  alerts = alert ∷ [];
  investigation_plans = plan_of steps ∷ [];
}

abbrev bundle_with : List (ℕ × String) → ContextBundle
bundle_with steps = record {
  incident_id = 5;
  service_name = "payments";
  alert_name = "HighLatency";
  severity = Severity.high;
  opened_at = 100;
  alert_count = 1;
  investigation_steps = steps;
  alert_labels = [];
  alert_annotations = [];
  retrieved_context = [];
  historical_prior = record { total = 0; category_counts = [] };
  past_feedback = record { confirmed_causes = []; corrections = []; unhelpful_count = 0 };
}

abbrev bundle : ContextBundle
bundle = bundle_with steps

abbrev fresh_at : ℕ → Fresh
fresh_at n = record { recommendation_id = n; outbox_id = n; event_id = n; now = n }

context_built : build_context_bundle same 5 9 start ≡ available bundle
unfolding build_context_bundle of_value historical_prior past_feedback
context_built = refl

reasoned_db : Db
unfolding receive_event
reasoned_db = (receive_event (some services) (fresh_at 200) (request 21) start start start).1

first_processed :
    (receive_event (some services) (fresh_at 200) (request 21) start start start).0 ≡ processed
unfolding receive_event is_already_processed mark_processed build_context_bundle of_value
    historical_prior past_feedback resolve generate_template_rca complete store_recommendation
    existing_recommendation add_recommendation write_outbox_event
first_processed = refl

recommended_rows : {r : Recommendation} {rs : List Recommendation} → r ∷ rs ≡ [] → ⊥
recommended_rows e = cc

recommendation_changes :
    (receive_event (some services) (fresh_at 200) (request 21) start start start).1 ≡ start → ⊥
unfolding receive_event is_already_processed mark_processed build_context_bundle of_value
    historical_prior past_feedback resolve generate_template_rca complete store_recommendation
    existing_recommendation add_recommendation write_outbox_event
recommendation_changes e = recommended_rows (ap (λ (d : Db). d.recommendations) e)

reasoned_once_example :
    receive_event
      (some services)
      (fresh_at 400)
      (request 21)
      (receive_event (some services) (fresh_at 200) (request 21) start start start).1
      (receive_event (some services) (fresh_at 200) (request 21) start start start).1
      (receive_event (some services) (fresh_at 200) (request 21) start start start).1
    ≡ (
      already_processed,
      (receive_event (some services) (fresh_at 200) (request 21) start start start).1,
    )
reasoned_once_example =
    reasoned_once (request 21) start services (fresh_at 200) start start (fresh_at 400)
      recommendation_changes

always_recommended_example :
    (outcome : ReasoningOutcome) × IsActionable
      (new (fresh_at 200) (request 21) payload incident outcome start).recommended_actions
    × (receive_event (some services) (fresh_at 200) (request 21) start start start
        ≡ (processed, recommended (fresh_at 200) (request 21) payload incident outcome start))
unfolding build_context_bundle of_value historical_prior past_feedback is_already_processed
    existing_recommendation
always_recommended_example =
    always_recommended services (fresh_at 200) (request 21) payload bundle incident (plan_of steps)
      start start start refl refl refl refl refl refl refl refl (refl, refl, refl, refl, refl)

abbrev template : ReasoningOutcome
template = record {
  root_cause =
      "AI analysis unavailable. Manual investigation required for payments HighLatency. The recommended actions below are this incident's investigation plan steps, not a model's analysis.";
  confidence = Confidence.low;
  recommended_actions =
      record { order = 1; action = "look at the dashboard" }
      ∷ record { order = 2; action = "read the logs" }
      ∷ [];
  context_bundle = record {
    bundle = bundle;
    fallback = some (record {
      reason = FallbackReason.gateway_unavailable;
      attempted_mode = LlmMode.extended;
      detail = cannot_reach "ConnectError";
      elapsed_ms = some 7;
    });
    retrieval = none;
  };
  is_fallback = true;
  llm_provider = "none";
  model_alias = "none";
  model_id = "template-fallback";
  raw_llm_response = none;
  prompt_tokens = none;
  completion_tokens = none;
  latency_ms = none;
}

template_made : reason_with services bundle none ≡ some template
unfolding resolve generate_template_rca complete
template_made = refl

-- the second request read the tables before the first had committed
refused_insert_absorbed_example :
    receive_event (some services) (fresh_at 300) (request 22) start start reasoned_db
    ≡ (already_recommended, race_recorded (fresh_at 300) (request 22) payload start reasoned_db)
unfolding reasoned_db receive_event is_already_processed mark_processed build_context_bundle
    of_value historical_prior past_feedback resolve generate_template_rca complete
    store_recommendation existing_recommendation add_recommendation write_outbox_event
refused_insert_absorbed_example =
    refused_insert_absorbed services (fresh_at 300) (request 22) payload bundle template incident
      (plan_of steps) start start reasoned_db refl refl refl refl refl template_made refl refl refl
      refl

abbrev prose : LlmSuccess
prose = record {
  content = "I am sorry";
  provider = "openai";
  model = "gpt";
  mode = "extended";
  prompt_tokens = 900;
  completion_tokens = some 12;
  latency_ms = 8000;
}

unusable_step_raises_example :
    resolve no_json
      (bundle_with ((1, "") ∷ []))
      none
      (failure LlmFailureReason.gateway_unavailable (cannot_reach "ConnectError") 7)
    ≡ none
unusable_step_raises_example =
    unusable_step_raises no_json (bundle_with ((1, "") ∷ [])) none refl
      LlmFailureReason.gateway_unavailable (cannot_reach "ConnectError") 7

abbrev chunk : Document
chunk = ("grade", text "partial") ∷ ("title", text "Latency") ∷ ("content", text "roll back") ∷ []

grade_hidden : lookup_field "grade" (prompted_fields chunk) ≡ none
unfolding prompted_fields
grade_hidden = refl

classified : classify_cause same "the database rollback at noon" ≡ "deployment"
unfolding classify_cause
classified = refl

-- two analyses that earlier incidents of the fingerprint came to
abbrev analysed : ℕ → String → Recommendation
analysed n cause = record {
  id = n;
  incident_id = 5;
  plan_id = 9;
  correlation_id = 11;
  llm_provider = "openai";
  model_alias = "extended";
  model_id = "gpt";
  root_cause = cause;
  confidence = "low";
  recommended_actions = [];
  context_bundle = record { bundle = bundle; fallback = none; retrieval = none };
  raw_llm_response = none;
  is_fallback = false;
  prompt_tokens = none;
  completion_tokens = none;
  latency_ms = none;
  slack_message_ts = none;
  created_at = n;
}

abbrev history : Db
history = record start {
  recommendations =
      analysed 1 "a bad rollout" ∷ analysed 2 "dns" ∷ analysed 3 "the canary build" ∷ [];
}

prior_counted :
    historical_prior same "f" 6 history
    ≡ record { total = 3; category_counts = ("deployment", 2) ∷ ("network", 1) ∷ [] }
unfolding historical_prior classify_cause
prior_counted = refl
