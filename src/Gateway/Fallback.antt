-- ===== src/Gateway/Fallback.antt =====
-- apps/llm-gateway/src/radar_llm_gateway/gateway/fallback.py: the primary binding, then the
-- fallback.
use radar_system.Prelude.{ℕ, ◌+◌, String, Option, none, some, List, [], ◌∷◌}
use radar_system.Contracts.{Time}
use radar_system.Gateway.Breaker.{CircuitBreaker}
use radar_system.Gateway.Retry.{
  Outcome, returned, provider_error, circuit_open, other_exception, Call, Run, call_with_retries,
}

-- A binding: its name (`provider/model`), what its calls come to, and its breaker.
pub record Binding {ℓ} (A : Type ℓ) : Type ℓ where
  pub name : String
  pub operation : ℕ → Call A
  pub breaker : Option CircuitBreaker

-- How a request ends: a value, AllProvidersFailedError with what was tried, or another exception.
pub data Answer {ℓ} (A : Type ℓ) : Type ℓ where
  completed : A → Answer A
  all_providers_failed : List String → Answer A
  crashed : Answer A

pub record Served {ℓ} (A : Type ℓ) : Type ℓ where
  pub answer : Answer A
  pub calls : ℕ
  pub fallbacks : ℕ

module _ {ℓ} {A : Type ℓ} where
  -- the second `try`
  abbrev pub after_fallback : List String → ℕ → Run A → Served A
  after_fallback tried calls run = record {
    answer = elim run.outcome [
      | returned a ↦ completed a
      | provider_error r ↦ all_providers_failed tried
      | circuit_open ↦ all_providers_failed tried
      | other_exception ↦ crashed
    ];
    calls = calls + run.calls;
    fallbacks = 1;
  }

  -- the handler of the primary's ProviderError
  abbrev pub fall_back : List Time → Binding A → ℕ → Option (Binding A) → Served A
  fall_back delays primary calls none = record {
    answer = all_providers_failed (primary.name ∷ []);
    calls = calls;
    fallbacks = 0;
  }
  fall_back delays primary calls (some fallback) =
      after_fallback (primary.name ∷ fallback.name ∷ []) calls
        (call_with_retries fallback.operation delays fallback.breaker)

  abbrev pub after_primary : List Time → Binding A → Option (Binding A) → ℕ → Outcome A → Served A
  after_primary delays primary fallback calls (returned a) = record {
    answer = completed a;
    calls = calls;
    fallbacks = 0;
  }
  after_primary delays primary fallback calls (provider_error r) =
      fall_back delays primary calls fallback
  after_primary delays primary fallback calls circuit_open = fall_back delays primary calls fallback
  after_primary delays primary fallback calls other_exception = record {
    answer = crashed;
    calls = calls;
    fallbacks = 0;
  }

  -- `run_with_fallback`
  unfoldable pub run_with_fallback : List Time → Binding A → Option (Binding A) → Served A
  run_with_fallback delays primary fallback =
      let run = call_with_retries primary.operation delays primary.breaker in
      after_primary delays primary fallback run.calls run.outcome
