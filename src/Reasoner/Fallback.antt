-- ===== src/Reasoner/Fallback.antt =====
-- apps/reasoner-agent/src/radar_reasoner_agent/fallback.py: the one recommendation that whatever
-- the call came to ends in.
use Prim.Native.String.{◌++◌ as str_append}
use radar_system.Prelude.{ℕ, String, Bool, true, false, Option, none, some, List, [], ◌∷◌, order_by}
use radar_system.Contracts.{
  Confidence, RecommendedAction, validated_action, LlmMode, extended, ContextBundle, FallbackReason,
  FailureText, FallbackMetadata, RetrievalMetadata, StoredContextBundle,
}
use radar_system.Reasoner.Rca.{
  RcaParseFailureReason, ParsedRca, RcaResult, parsed, unusable, RcaLib, parse_rca,
}
use radar_system.Reasoner.Llm.{LlmFailureReason, LlmSuccess, LlmResult, success, failure}

abbrev pub attempted_mode : LlmMode
attempted_mode = extended

abbrev pub fallback_provider : String
fallback_provider = "none"

abbrev pub fallback_model_alias : String
fallback_model_alias = "none"

abbrev pub fallback_model_id : String
fallback_model_id = "template-fallback"

abbrev pub no_steps_action : String
no_steps_action =
    "No investigation plan steps are available for this incident. Triage manually: check recent deployments, error logs, and dependency health for the service."

pub record ReasoningOutcome : Type 0 where
  pub root_cause : String
  pub confidence : Confidence
  pub recommended_actions : List RecommendedAction
  pub context_bundle : StoredContextBundle
  pub is_fallback : Bool
  pub llm_provider : String
  pub model_alias : String
  pub model_id : String
  pub raw_llm_response : Option String
  pub prompt_tokens : Option ℕ
  pub completion_tokens : Option ℕ
  pub latency_ms : Option ℕ

-- `_reason_for_llm_failure`
abbrev pub reason_for_llm_failure : LlmFailureReason → FallbackReason
reason_for_llm_failure LlmFailureReason.gateway_unavailable = FallbackReason.gateway_unavailable
reason_for_llm_failure LlmFailureReason.timeout = FallbackReason.timeout
reason_for_llm_failure LlmFailureReason.rejected = FallbackReason.rejected

-- `_reason_for_parse_failure`
abbrev pub reason_for_parse_failure : RcaParseFailureReason → FallbackReason
reason_for_parse_failure RcaParseFailureReason.not_json = FallbackReason.not_json
reason_for_parse_failure RcaParseFailureReason.schema_invalid = FallbackReason.schema_invalid

abbrev and_action :
    Option RecommendedAction → Option (List RecommendedAction) → Option (List RecommendedAction)
and_action none rest = none
and_action (some a) none = none
and_action (some a) (some rest) = some (a ∷ rest)

-- the comprehension over the sorted steps; each action is validated as it is built
abbrev pub actions_of : List (ℕ × String) → Option (List RecommendedAction)
actions_of [] = some []
actions_of ((order, description) ∷ rest) =
    and_action (validated_action (record { order = order; action = description })) (actions_of rest)

abbrev pub floored : List RecommendedAction → List RecommendedAction
floored [] = record { order = 1; action = no_steps_action } ∷ []
floored (a ∷ rest) = a ∷ rest

abbrev pub template_root_cause : ContextBundle → String
template_root_cause bundle =
    str_append "AI analysis unavailable. Manual investigation required for " (
      str_append bundle.service_name (
        str_append " " (
          str_append bundle.alert_name
            ". The recommended actions below are this incident's investigation plan steps, not a model's analysis.")))

abbrev pub template_of : ContextBundle → Option (List RecommendedAction) → Option ParsedRca
template_of bundle none = none
template_of bundle (some actions) = some (record {
  root_cause = template_root_cause bundle;
  confidence = Confidence.low;
  recommended_actions = floored actions;
})

-- `generate_template_rca`; `none` is the ValidationError of an action
unfoldable pub generate_template_rca : ContextBundle → Option ParsedRca
generate_template_rca bundle =
    template_of bundle (actions_of (order_by (λ (s : ℕ × String). s.0) bundle.investigation_steps))

-- `_from_analysis`
abbrev pub from_analysis :
    ContextBundle → LlmSuccess → ParsedRca → Option RetrievalMetadata → ReasoningOutcome
from_analysis bundle reply rca retrieval = record {
  root_cause = rca.root_cause;
  confidence = rca.confidence;
  recommended_actions = rca.recommended_actions;
  context_bundle = record { bundle = bundle; fallback = none; retrieval = retrieval };
  is_fallback = false;
  llm_provider = reply.provider;
  model_alias = reply.mode;
  model_id = reply.model;
  raw_llm_response = some reply.content;
  prompt_tokens = some reply.prompt_tokens;
  completion_tokens = reply.completion_tokens;
  latency_ms = some reply.latency_ms;
}

abbrev pub call_column : {A : Type 0} → (LlmSuccess → Option A) → Option LlmSuccess → Option A
call_column f none = none
call_column f (some call) = f call

abbrev pub template_outcome :
    ContextBundle
    → FallbackMetadata
    → Option LlmSuccess
    → Option RetrievalMetadata
    → ParsedRca
    → ReasoningOutcome
template_outcome bundle why call retrieval template = record {
  root_cause = template.root_cause;
  confidence = template.confidence;
  recommended_actions = template.recommended_actions;
  context_bundle = record { bundle = bundle; fallback = some why; retrieval = retrieval };
  is_fallback = true;
  llm_provider = fallback_provider;
  model_alias = fallback_model_alias;
  model_id = fallback_model_id;
  raw_llm_response = call_column (λ c. some c.content) call;
  prompt_tokens = call_column (λ c. some c.prompt_tokens) call;
  completion_tokens = call_column (λ c. c.completion_tokens) call;
  latency_ms = call_column (λ c. some c.latency_ms) call;
}

abbrev pub fallback_of :
    ContextBundle
    → FallbackMetadata
    → Option LlmSuccess
    → Option RetrievalMetadata
    → Option ParsedRca
    → Option ReasoningOutcome
fallback_of bundle why call retrieval none = none
fallback_of bundle why call retrieval (some template) =
    some (template_outcome bundle why call retrieval template)

-- `_from_failure`
abbrev pub from_failure :
    ContextBundle
    → FallbackReason
    → FailureText
    → Option LlmSuccess
    → Option ℕ
    → Option RetrievalMetadata
    → Option ReasoningOutcome
from_failure bundle reason detail call elapsed_ms retrieval =
    fallback_of bundle
      (record {
        reason = reason;
        attempted_mode = attempted_mode;
        detail = detail;
        elapsed_ms = elapsed_ms;
      })
      call retrieval (generate_template_rca bundle)

module _ {J : Type 0} (py : RcaLib J) (bundle : ContextBundle)
    (retrieval : Option RetrievalMetadata) where
  abbrev pub resolve_parsed : LlmSuccess → RcaResult → Option ReasoningOutcome
  resolve_parsed reply (parsed rca) = some (from_analysis bundle reply rca retrieval)
  resolve_parsed reply (unusable reason detail) =
      from_failure bundle (reason_for_parse_failure reason) detail (some reply)
        (some reply.latency_ms) retrieval

  -- `resolve`
  unfoldable pub resolve : LlmResult → Option ReasoningOutcome
  resolve (success reply) = resolve_parsed reply (parse_rca py reply.content)
  resolve (failure reason detail elapsed_ms) =
      from_failure bundle (reason_for_llm_failure reason) detail none (some elapsed_ms) retrieval
