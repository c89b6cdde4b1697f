-- ===== src/Gateway/Tests.antt =====
-- Runs of the breaker, the retry loop and the fallback, and the laws at those inputs.
use radar_system.Prelude.{
  ℕ, ◌≡◌, refl, true, false, none, some, List, [], ◌∷◌, arith, leb, if◌then◌else◌,
}
use radar_system.Contracts.{Time}
use radar_system.Gateway.Breaker.{
  opened, CircuitBreaker, new_breaker, allow, record_success, record_failure,
}
use radar_system.Gateway.Retry.{
  Outcome, returned, provider_error, circuit_open, other_exception, Call, stop, attempts,
  call_with_retries,
}
use radar_system.Gateway.Fallback.{Binding, completed, run_with_fallback}
use radar_system.Gateway.Trips.{
  Reach, here, next, failed, IsAnswered, allow-IsAnswered_always, fail_all, trips_at_threshold,
}
use radar_system.Gateway.Trial.{on_trial, open_fails_fast, abandoned_trial_sticks}
use radar_system.Gateway.Budget.{IsWithinBudget, call_with_retries-IsWithinBudget}
use radar_system.Gateway.Terminal.{IsServed, run_with_fallback-IsServed}

abbrev open_breaker : CircuitBreaker
open_breaker = record (new_breaker 2 30) {
  state = opened;
  failures = 2;
  opened_at = some 100;
  notified = opened ∷ [];
}

abbrev call_at : Time → Outcome ℕ → Call ℕ
call_at now outcome = record { started = now; outcome = outcome; ended = now }

-- fails twice, then answers
abbrev flaky : ℕ → Call ℕ
flaky n = call_at n (if leb 3 n then returned 7 else provider_error true)

abbrev crashing : ℕ → Call ℕ
crashing n = call_at 200 other_exception

abbrev delays : List Time
delays = 1 ∷ 3 ∷ 9 ∷ []

flaky_run :
    call_with_retries flaky delays none
    ≡ record { outcome = returned 7; breaker = none; calls = 3; slept = 1 ∷ 3 ∷ []; errors = 2 }
unfolding call_with_retries attempts
flaky_run = refl

flaky_run_trips : (call_with_retries flaky delays (some (new_breaker 2 30))).calls ≡ 2
unfolding call_with_retries attempts allow record_failure
flaky_run_trips = refl

tripped_once : Reach (new_breaker 1 30) (record_failure 100 (new_breaker 1 30))
tripped_once = next here (failed 100)

allow-IsAnswered_always_example : IsAnswered (allow 110 (record_failure 100 (new_breaker 1 30)))
allow-IsAnswered_always_example =
    allow-IsAnswered_always 1 30 110 (record_failure 100 (new_breaker 1 30)) (omega arith)
      tripped_once

trips_at_threshold_example : (fail_all (100 ∷ 101 ∷ []) (new_breaker 2 30)).state ≡ opened
trips_at_threshold_example =
    trips_at_threshold (100 ∷ 101 ∷ []) (new_breaker 2 30) refl (omega arith)

open_fails_fast_example :
    call_with_retries flaky delays (some open_breaker) ≡ stop circuit_open (some open_breaker) 0 0
open_fails_fast_example = open_fails_fast flaky open_breaker 100 refl refl delays (omega arith)

abandoned_trial_sticks_example :
    ((call_with_retries crashing delays (some open_breaker)).breaker ≡ some (on_trial open_breaker))
    × (allow 1_000_000 (on_trial open_breaker) ≡ some (false, on_trial open_breaker))
abandoned_trial_sticks_example =
    abandoned_trial_sticks crashing open_breaker 100 refl refl delays 1_000_000 (omega arith) refl

call_with_retries-IsWithinBudget_example :
    IsWithinBudget flaky delays (call_with_retries flaky delays (some (new_breaker 5 30)))
call_with_retries-IsWithinBudget_example =
    call_with_retries-IsWithinBudget flaky delays (some (new_breaker 5 30))

abbrev primary : Binding ℕ
primary = record { name = "openai/gpt-4o"; operation = flaky; breaker = some (new_breaker 2 30) }

abbrev fallback : Binding ℕ
fallback = record {
  name = "openai/gpt-4o-mini";
  operation = flaky;
  breaker = some (new_breaker 5 30);
}

fallback_completes : (run_with_fallback delays primary (some fallback)).answer ≡ completed 7
unfolding run_with_fallback call_with_retries attempts allow record_failure record_success
fallback_completes = refl

run_with_fallback-IsServed_example :
    IsServed delays primary (some fallback) (run_with_fallback delays primary (some fallback))
run_with_fallback-IsServed_example = run_with_fallback-IsServed delays primary (some fallback)
