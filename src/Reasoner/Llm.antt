-- ===== src/Reasoner/Llm.antt =====
-- apps/reasoner-agent/src/radar_reasoner_agent/llm.py: what the model is shown, and what a call of
-- the gateway comes to. The HTTP client, the clock and the reading of the reply are parameters.
use radar_system.Prelude.{
  ℕ, String, Bool, true, false, ◌||◌, Option, none, some, List, [], ◌∷◌, ltb, leb, ◌==◌, str_eq,
  map, if◌then◌else◌,
}
use radar_system.Contracts.{
  Time, Document, Value, ContextBundle, FailureText, no_answer_within, httpx_enforced_timeout,
  cannot_reach, every_provider_failed, request_rejected, gateway_unhealthy, unexpected_status,
  not_an_llm_response,
}

pub data LlmFailureReason : Type 0 where
  gateway_unavailable timeout rejected : LlmFailureReason

pub record LlmSuccess : Type 0 where
  pub content : String
  pub provider : String
  pub model : String
  pub mode : String
  pub prompt_tokens : ℕ
  pub completion_tokens : Option ℕ
  pub latency_ms : ℕ

pub data LlmResult : Type 0 where
  success : LlmSuccess → LlmResult
  failure : LlmFailureReason → FailureText → ℕ → LlmResult

-- PROMPTED_CHUNK_FIELDS
abbrev pub prompted_chunk_fields : List String
prompted_chunk_fields = "title" ∷ "runbook_id" ∷ "section" ∷ "content" ∷ []

abbrev pub lookup_field : String → Document → Option Value
lookup_field name [] = none
lookup_field name ((k, v) ∷ rest) = if str_eq k name then some v else lookup_field name rest

abbrev pub keep_field : String → Option Value → Document → Document
keep_field name none rest = rest
keep_field name (some v) rest = (name, v) ∷ rest

abbrev pub fields_of : List String → Document → Document
fields_of [] chunk = []
fields_of (name ∷ names) chunk = keep_field name (lookup_field name chunk) (fields_of names chunk)

-- `_prompted_fields`
unfoldable pub prompted_fields : Document → Document
prompted_fields chunk = fields_of prompted_chunk_fields chunk

-- `render_user_message`, before it is written as JSON
abbrev pub prompted : ContextBundle → ContextBundle
prompted bundle = record bundle { retrieved_context = map prompted_fields bundle.retrieved_context }

-- what `client.post` under `asyncio.timeout` comes to
pub data PostResult : Type 0 where
  timed_out httpx_timed_out : PostResult
  http_error : String → PostResult
  response : ℕ → String → PostResult

abbrev pub decoded : ℕ → Option LlmSuccess → LlmResult
decoded elapsed none = failure gateway_unavailable not_an_llm_response elapsed
decoded elapsed (some reply) = success reply

-- `GatewayClient._classify`; `decode` reads the body as an `LLMResponse`
unfoldable pub classify : (String → Option LlmSuccess) → ℕ → String → ℕ → LlmResult
classify decode status_code body elapsed =
    if status_code == 503
    then failure gateway_unavailable every_provider_failed elapsed
    else if (status_code == 401) || (status_code == 403) || (status_code == 422)
    then failure rejected (request_rejected status_code) elapsed
    else if leb 500 status_code || (status_code == 429)
    then failure gateway_unavailable (gateway_unhealthy status_code) elapsed
    else if status_code == 200
    then decoded elapsed (decode body)
    else failure gateway_unavailable (unexpected_status status_code) elapsed

abbrev pub of_post : (String → Option LlmSuccess) → Time → ℕ → PostResult → LlmResult
of_post decode budget elapsed timed_out = failure timeout (no_answer_within budget) elapsed
of_post decode budget elapsed httpx_timed_out = failure timeout httpx_enforced_timeout elapsed
of_post decode budget elapsed (http_error name) =
    failure gateway_unavailable (cannot_reach name) elapsed
of_post decode budget elapsed (response status_code body) = classify decode status_code body elapsed

-- `GatewayClient.complete`
unfoldable pub complete :
    (ContextBundle → PostResult)
    → (String → Option LlmSuccess)
    → Time
    → ℕ
    → ContextBundle
    → LlmResult
complete post decode budget elapsed bundle = of_post decode budget elapsed (post (prompted bundle))

-- `_reject_undercutting_timeout`, over the client's four timeouts; false is the ConfigurationError
abbrev pub no_undercutting_timeout : Time → List (Option Time) → Bool
no_undercutting_timeout budget [] = true
no_undercutting_timeout budget (none ∷ rest) = no_undercutting_timeout budget rest
no_undercutting_timeout budget (some t ∷ rest) =
    if ltb t budget then false else no_undercutting_timeout budget rest
