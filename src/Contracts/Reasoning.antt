-- ===== src/Contracts/Reasoning.antt =====
-- What the reasoner concludes and what it worked from: `Confidence`, `RecommendedAction` and
-- `LLMMode` of packages/contracts/src/radar_contracts, and the context bundle of
-- apps/reasoner-agent/src/radar_reasoner_agent/{context.py, history.py, fallback.py}, which the
-- recommendations table stores. The JSON round trip of a column is not modelled.
use radar_system.Prelude.{
  ℕ, String, Bool, ◌&&◌, Option, none, some, List, ltb, if◌then◌else◌, str_eq, not,
}
use radar_system.Contracts.Alerts.{Severity}
use radar_system.Contracts.Events.{UuidNumber, Time, Document}

pub data Confidence : Type 0 where
  low medium high : Confidence

abbrev pub confidence_value : Confidence → String
confidence_value Confidence.low = "low"
confidence_value Confidence.medium = "medium"
confidence_value Confidence.high = "high"

pub record RecommendedAction : Type 0 where
  pub order : ℕ
  pub action : String

-- the constraints of the two fields; `none` is the ValidationError
abbrev pub is_action : RecommendedAction → Bool
is_action a = ltb 0 a.order && not (str_eq a.action "")

abbrev pub validated_action : RecommendedAction → Option RecommendedAction
validated_action a = if is_action a then some a else none

pub data LlmMode : Type 0 where
  fast reason extended embed : LlmMode

pub record HistoricalPrior : Type 0 where
  pub total : ℕ
  pub category_counts : List (String × ℕ)

pub record PastFeedback : Type 0 where
  pub confirmed_causes : List String
  pub corrections : List String
  pub unhelpful_count : ℕ

-- `ContextBundle`; `investigation_steps` holds the order and the description of each step
pub record ContextBundle : Type 0 where
  pub incident_id : UuidNumber
  pub service_name : String
  pub alert_name : String
  pub severity : Severity
  pub opened_at : Time
  pub alert_count : ℕ
  pub investigation_steps : List (ℕ × String)
  pub alert_labels : List (String × String)
  pub alert_annotations : List (String × String)
  pub retrieved_context : List Document
  pub historical_prior : HistoricalPrior
  pub past_feedback : PastFeedback

pub data FallbackReason : Type 0 where
  gateway_unavailable timeout rejected not_json schema_invalid : FallbackReason

abbrev pub reason_value : FallbackReason → String
reason_value gateway_unavailable = "gateway_unavailable"
reason_value timeout = "timeout"
reason_value rejected = "rejected"
reason_value not_json = "not_json"
reason_value schema_invalid = "schema_invalid"

-- The text of a failure; one constructor for each message of the reasoner.
pub data FailureText : Type 0 where
  no_answer_within : Time → FailureText
  httpx_enforced_timeout : FailureText
  cannot_reach : String → FailureText
  every_provider_failed : FailureText
  request_rejected gateway_unhealthy unexpected_status : ℕ → FailureText
  not_an_llm_response : FailureText
  no_json_object : FailureText
  field_errors : ℕ → FailureText

pub record FallbackMetadata : Type 0 where
  pub reason : FallbackReason
  pub attempted_mode : LlmMode
  pub detail : FailureText
  pub elapsed_ms : Option ℕ

pub record RetrievalMetadata : Type 0 where
  pub outcome : String
  pub chunk_count : ℕ
  pub detail : Option String
  pub elapsed_ms : Option ℕ

pub record StoredContextBundle : Type 0 where
  pub bundle : ContextBundle
  pub fallback : Option FallbackMetadata
  pub retrieval : Option RetrievalMetadata
