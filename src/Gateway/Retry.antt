-- ===== src/Gateway/Retry.antt =====
-- apps/llm-gateway/src/radar_llm_gateway/gateway/retry.py: the retry loop around one binding. The
-- operation is a parameter: what its n-th call comes to, and what the clock says before and after
-- it.
use radar_system.Prelude.{
  ℕ, suc, ◌+◌, Bool, true, false, ◌||◌, not, Option, none, some, List, [], ◌∷◌, if◌then◌else◌,
}
use radar_system.Contracts.{Time}
use radar_system.Gateway.Breaker.{CircuitBreaker, allow, record_success, record_failure, is_open}

-- How a call ends: a value, a ProviderError (with its `retryable`), or another exception.
pub data Outcome {ℓ} (A : Type ℓ) : Type ℓ where
  returned : A → Outcome A
  provider_error : Bool → Outcome A
  circuit_open : Outcome A
  other_exception : Outcome A

pub record Call {ℓ} (A : Type ℓ) : Type ℓ where
  pub started : Time
  pub outcome : Outcome A
  pub ended : Time

-- What a retry loop did: how it ended, the breaker, the calls made, the delays slept, and how often
-- `on_error` was called.
pub record Run {ℓ} (A : Type ℓ) : Type ℓ where
  pub outcome : Outcome A
  pub breaker : Option CircuitBreaker
  pub calls : ℕ
  pub slept : List Time
  pub errors : ℕ

-- the guard before a call; `none` is the breaker's AssertionError
abbrev pub guarded : Option (Bool × CircuitBreaker) → Option (Bool × Option CircuitBreaker)
guarded none = none
guarded (some (ok, b)) = some (ok, some b)

abbrev pub guard : Time → Option CircuitBreaker → Option (Bool × Option CircuitBreaker)
guard now none = some (true, none)
guard now (some b) = guarded (allow now b)

abbrev pub succeeded : Option CircuitBreaker → Option CircuitBreaker
succeeded none = none
succeeded (some b) = some (record_success b)

abbrev pub failed : Time → Option CircuitBreaker → Option CircuitBreaker
failed now none = none
failed now (some b) = some (record_failure now b)

abbrev pub tripped : Option CircuitBreaker → Bool
tripped none = false
tripped (some b) = is_open b

module _ {ℓ} {A : Type ℓ} where
  abbrev pub stop : Outcome A → Option CircuitBreaker → ℕ → ℕ → Run A
  stop outcome breaker calls errors = record {
    outcome = outcome;
    breaker = breaker;
    calls = calls;
    slept = [];
    errors = errors;
  }

  -- a failing call, then a sleep, then the rest of the loop
  abbrev pub after_sleep : Time → Run A → Run A
  after_sleep delay run = record run {
    calls = run.calls + 1;
    slept = delay ∷ run.slept;
    errors = run.errors + 1;
  }

  -- the except branch; without a delay left this was the last attempt
  abbrev pub on_failure :
      List Time → Bool → Option CircuitBreaker → (Option CircuitBreaker → Run A) → Run A
  on_failure [] retryable breaker next = stop (provider_error retryable) breaker 1 1
  on_failure (delay ∷ delays) retryable breaker next =
      if not retryable || tripped breaker
      then stop (provider_error retryable) breaker 1 1
      else after_sleep delay (next breaker)

  abbrev pub on_outcome :
      List Time → Time → Outcome A → Option CircuitBreaker → (Option CircuitBreaker → Run A) → Run A
  on_outcome delays ended (returned a) breaker next = stop (returned a) (succeeded breaker) 1 0
  on_outcome delays ended (provider_error retryable) breaker next =
      on_failure delays retryable (failed ended breaker) next
  on_outcome delays ended circuit_open breaker next =
      on_failure delays false (failed ended breaker) next
  on_outcome delays ended other_exception breaker next = stop other_exception breaker 1 0

  abbrev pub on_guard :
      Option (Bool × Option CircuitBreaker)
      → Option CircuitBreaker
      → (Option CircuitBreaker → Run A)
      → Run A
  on_guard none breaker call = stop other_exception breaker 0 0
  on_guard (some (true, b)) breaker call = call b
  on_guard (some (false, b)) breaker call = stop circuit_open b 0 0

  -- one attempt behind the guard
  abbrev pub call_once :
      List Time → Call A → (Option CircuitBreaker → Run A) → Option CircuitBreaker → Run A
  call_once delays call next breaker = on_outcome delays call.ended call.outcome breaker next

  -- after the last attempt the loop cannot go on
  abbrev pub unreachable : Option CircuitBreaker → Run A
  unreachable breaker = stop other_exception breaker 0 0

  -- the loop from the attempt `n` on, with the delays that are left
  unfoldable pub attempts : (ℕ → Call A) → ℕ → List Time → Option CircuitBreaker → Run A
  attempts operation n [] breaker =
      on_guard (guard (operation n).started breaker) breaker
        (call_once [] (operation n) unreachable)
  attempts operation n (delay ∷ delays) breaker =
      on_guard (guard (operation n).started breaker) breaker
        (call_once (delay ∷ delays) (operation n) (attempts operation (suc n) delays))

  -- `call_with_retries`
  unfoldable pub call_with_retries : (ℕ → Call A) → List Time → Option CircuitBreaker → Run A
  unfolding attempts
  call_with_retries operation delays breaker = attempts operation 1 delays breaker
