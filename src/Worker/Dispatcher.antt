-- ===== src/Worker/Dispatcher.antt =====
-- apps/outbox-worker/src/radar_outbox_worker/dispatcher.py: one delivery attempt and its class.
-- The HTTP client, the URL formatting and the token map are parameters.
pub mod Safety
use radar_system.Prelude.{
  ℕ, ◌≤◌, ◌<◌, String, ◌≡◌, refl, sym, Bool, true, false, ◌&&◌, ◌||◌, Option, none, some, List, [],
  ◌∷◌, ◌⊎◌, inl, inr, arith, if◌then◌else◌, leb, ltb, leb→le, str_eq, ◌==◌, any, find_row,
  Bool-cases, &&-true, Option-cases,
}
use radar_system.Contracts.{Time, seconds, EventEnvelope}
use radar_system.Database.Tables.{
  OutboxEvent, ErrorText, no_text, no_token_for, exceeded, connection_error_to, http_status,
}

pub data DispatchStatus : Type 0 where
  delivered retryable permanent : DispatchStatus

pub record DispatchResult : Type 0 where
  pub status : DispatchStatus
  pub reason : String
  pub status_code : Option ℕ
  pub detail : ErrorText

-- What comes back from `client.post` under the wall-clock bound.
pub data Reply : Type 0 where
  wall_clock_timeout client_timeout : Reply
  http_error : String → Reply
  response : ℕ → Reply

-- `mapping.get(key)`
abbrev lookup : {V : Type 0} → String → List (String × V) → Option V
lookup key [] = none
lookup key ((k, v) ∷ rest) = if str_eq k key then some v else lookup key rest

-- `RETRYABLE_STATUS_CODES`
pub is_retryable_code : ℕ → Bool
is_retryable_code code = any (λ c. c == code) (429 ∷ 500 ∷ 502 ∷ 503 ∷ 504 ∷ [])

-- `PERMANENT_STATUS_REASONS.get(code, "unexpected_status")`
pub permanent_reason : ℕ → String
permanent_reason code =
    if code == 400
    then "bad_request"
    else if code == 401
    then "auth_rejected"
    else if code == 403
    then "forbidden"
    else if code == 422
    then "unprocessable"
    else "unexpected_status"

-- `EventDispatcher._classify`
pub classify : ℕ → String → DispatchResult
unfolding is_retryable_code permanent_reason
classify code target =
    if leb 200 code && ltb code 300
    then record { status = delivered; reason = "ok"; status_code = some code; detail = no_text }
    else if is_retryable_code code
    then record {
      status = retryable;
      reason = if code == 429 then "rate_limited" else "server_error";
      status_code = some code;
      detail = http_status code target;
    }
    else record {
      status = permanent;
      reason = permanent_reason code;
      status_code = some code;
      detail = http_status code target;
    }

-- `EventDispatcher._timeout_result`
abbrev timeout_result : OutboxEvent → Time → DispatchResult
timeout_result event budget = record {
  status = retryable;
  reason = "timeout";
  status_code = none;
  detail = exceeded event.target_service budget;
}

-- the row -> wire projection
abbrev pub envelope : OutboxEvent → EventEnvelope
envelope event = record {
  event_id = event.event_id;
  event_type = event.event_type;
  correlation_id = event.correlation_id;
  payload = event.payload;
}

-- `TargetResolver`, `TimeoutPolicy` and the token map, as they are after construction
pub record Routing : Type 0 where
  pub url_template : String
  pub url_overrides : List (String × String)
  pub timeout_default : Time
  pub timeout_overrides : List (String × Time)
  pub tokens : List (String × String)

module _ (format : String → String → String) (routing : Routing) where
  -- `TargetResolver.resolve`
  pub resolve_url : String → String
  resolve_url target = elim (lookup target routing.url_overrides) [
    | some url ↦ url
    | none ↦ format routing.url_template target
  ]

-- `TimeoutPolicy.resolve`
pub resolve_timeout : Routing → String → Time
resolve_timeout routing target = elim (lookup target routing.timeout_overrides) [
  | some t ↦ t
  | none ↦ routing.timeout_default
]

abbrev no_token_result : OutboxEvent → DispatchResult
no_token_result event = record {
  status = permanent;
  reason = "no_dispatch_token";
  status_code = none;
  detail = no_token_for event.target_service;
}

abbrev outcome : OutboxEvent → Time → Reply → DispatchResult
outcome event budget wall_clock_timeout = timeout_result event budget
outcome event budget client_timeout = timeout_result event budget
outcome event budget (http_error name) = record {
  status = retryable;
  reason = "connection_error";
  status_code = none;
  detail = connection_error_to event.target_service name;
}
outcome event budget (response code) = classify code event.target_service

module _ (format : String → String → String) (post : String → EventEnvelope → String → Time → Reply)
    (routing : Routing) where
  abbrev attempt : OutboxEvent → String → DispatchResult
  attempt event token =
      let budget = resolve_timeout routing event.target_service in
      outcome event budget
        (post (resolve_url format routing event.target_service) (envelope event) token budget)

  abbrev dispatch_with : OutboxEvent → Option String → DispatchResult
  dispatch_with event none = no_token_result event
  dispatch_with event (some token) = attempt event token

  -- `EventDispatcher.dispatch`
  pub dispatch : OutboxEvent → DispatchResult
  dispatch event = dispatch_with event (lookup event.target_service routing.tokens)
