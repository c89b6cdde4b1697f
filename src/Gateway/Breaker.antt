-- ===== src/Gateway/Breaker.antt =====
-- apps/llm-gateway/src/radar_llm_gateway/gateway/circuit_breaker.py: the state machine of a
-- binding. The clock's answer is an argument; `notified` is what `on_state_change` was called with.
use radar_system.Prelude.{
  ℕ, ◌+◌, Bool, true, false, Option, none, some, List, [], ◌∷◌, ◌++◌, leb, if◌then◌else◌,
}
use radar_system.Contracts.{Time}

-- CLOSED, OPEN and HALF_OPEN of `CircuitState`
pub data CircuitState : Type 0 where
  closed opened half_open : CircuitState

pub record CircuitBreaker : Type 0 where
  pub failure_threshold : ℕ
  pub reset_timeout : Time
  pub state : CircuitState
  pub failures : ℕ
  pub opened_at : Option Time
  pub probe_in_flight : Bool
  pub notified : List CircuitState

-- `CircuitBreaker.__init__`
abbrev pub new_breaker : ℕ → Time → CircuitBreaker
new_breaker failure_threshold reset_timeout = record {
  failure_threshold = failure_threshold;
  reset_timeout = reset_timeout;
  state = closed;
  failures = 0;
  opened_at = none;
  probe_in_flight = false;
  notified = [];
}

abbrev pub same_state : CircuitState → CircuitState → Bool
same_state closed closed = true
same_state opened opened = true
same_state half_open half_open = true
same_state _ _ = false

-- `_transition`
abbrev pub transition : CircuitState → CircuitBreaker → CircuitBreaker
transition new b =
    if same_state new b.state
    then b
    else record b { state = new; notified = b.notified ++ new ∷ [] }

abbrev reserved : CircuitBreaker → CircuitBreaker
reserved b = record b { probe_in_flight = true }

-- the OPEN branch of `allow`; `none` is its AssertionError
abbrev pub allow_opened : Time → CircuitBreaker → Option Time → Option (Bool × CircuitBreaker)
allow_opened now b none = none
allow_opened now b (some opened_at) =
    if leb (opened_at + b.reset_timeout) now
    then some (true, reserved (transition half_open b))
    else some (false, b)

abbrev pub allow_in : CircuitState → Time → CircuitBreaker → Option (Bool × CircuitBreaker)
allow_in closed now b = some (true, b)
allow_in opened now b = allow_opened now b b.opened_at
allow_in half_open now b = if b.probe_in_flight then some (false, b) else some (true, reserved b)

-- `allow`: whether a call may proceed, and the breaker after the question
unfoldable pub allow : Time → CircuitBreaker → Option (Bool × CircuitBreaker)
allow now b = allow_in b.state now b

unfoldable pub record_success : CircuitBreaker → CircuitBreaker
record_success b =
    transition closed (record b { probe_in_flight = false; failures = 0; opened_at = none })

abbrev pub open_at : Time → CircuitBreaker → CircuitBreaker
open_at now b = transition opened (record b { opened_at = some now })

abbrev pub record_failure_in : CircuitState → Time → CircuitBreaker → CircuitBreaker
record_failure_in half_open now b = open_at now b
record_failure_in opened now b = b
record_failure_in closed now b =
    let counted = record b { failures = b.failures + 1 } in
    if leb b.failure_threshold (b.failures + 1) then open_at now counted else counted

unfoldable pub record_failure : Time → CircuitBreaker → CircuitBreaker
record_failure now b = record_failure_in b.state now (record b { probe_in_flight = false })

abbrev pub is_open : CircuitBreaker → Bool
is_open b = same_state b.state opened
