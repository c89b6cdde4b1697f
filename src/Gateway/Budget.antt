-- ===== src/Gateway/Budget.antt =====
-- How many calls one retry loop makes, how long it sleeps, and where a value comes from.
use radar_system.Prelude.{
  ℕ, suc, ◌+◌, ◌≤◌, ◌≡◌, refl, ap, Bool, true, false, ◌||◌, not, Option, none, some, List, [], ◌∷◌,
  arith, Bool-cases, inl, inr, length, take,
}
use radar_system.Contracts.{Time}
use radar_system.Gateway.Breaker.{CircuitBreaker}
use radar_system.Gateway.Retry.{
  Outcome, returned, provider_error, circuit_open, other_exception, Call, Run, guard, failed,
  succeeded, tripped, stop, after_sleep, on_failure, on_outcome, on_guard, call_once, unreachable,
  attempts, call_with_retries,
}

module _ {A : Type 0} (operation : ℕ → Call A) where
  -- A value that the loop returns is the value of one of the operation's calls.
  abbrev pub IsSourced : Outcome A → Type 0
  IsSourced (returned a) = (n : ℕ) × ((operation n).outcome ≡ returned a)
  IsSourced (provider_error r) = Unit
  IsSourced circuit_open = Unit
  IsSourced other_exception = Unit

  -- At most one call more than there are delays; the first delays, in their order, are what is
  -- slept, no more of them than there were calls; and a value comes from a call.
  pub record IsWithinBudget (delays : List Time) (run : Run A) : Type 0 where
    pub calls_bounded : run.calls ≤ length delays + 1
    pub slept_in_order : run.slept ≡ take (length run.slept) delays
    pub slept_between : length run.slept ≤ run.calls
    pub sourced : IsSourced run.outcome

  stopped-IsWithinBudget :
      (delays : List Time) (outcome : Outcome A) (b : Option CircuitBreaker) (calls errors : ℕ)
      → calls ≤ 1
      → IsSourced outcome
      → IsWithinBudget delays (stop outcome b calls errors)
  stopped-IsWithinBudget delays outcome b calls errors h from = record {
    calls_bounded = omega arith;
    slept_in_order = refl;
    slept_between = omega arith;
    sourced = from;
  }

  slept-IsWithinBudget :
      (delay : Time) (delays : List Time) (run : Run A)
      → IsWithinBudget delays run
      → IsWithinBudget (delay ∷ delays) (after_sleep delay run)
  slept-IsWithinBudget delay delays run h = record {
    calls_bounded = omega (arith, h.calls_bounded);
    slept_in_order = ap (λ ds. delay ∷ ds) h.slept_in_order;
    slept_between = omega (arith, h.slept_between);
    sourced = h.sourced;
  }

  failure-IsWithinBudget :
      (rest : List Time) (delay : Time) (retryable : Bool) (b : Option CircuitBreaker)
      (next : Option CircuitBreaker → Run A)
      → ((b' : Option CircuitBreaker) → IsWithinBudget rest (next b'))
      → IsWithinBudget (delay ∷ rest) (on_failure (delay ∷ rest) retryable b next)
  failure-IsWithinBudget rest delay retryable b next h =
      elim (Bool-cases (not retryable || tripped b)) [
        | inl last ↦ rw last (
            stopped-IsWithinBudget (delay ∷ rest) (provider_error retryable) b 1 1 (omega arith) tt)
        | inr again ↦ rw again (slept-IsWithinBudget delay rest (next b) (h b))
      ]

  last-IsWithinBudget :
      (ended : Time) (o : Outcome A) (b : Option CircuitBreaker)
      → IsSourced o
      → IsWithinBudget [] (on_outcome [] ended o b unreachable)
  last-IsWithinBudget ended (returned a) b from =
      stopped-IsWithinBudget [] (returned a) (succeeded b) 1 0 (omega arith) from
  last-IsWithinBudget ended (provider_error r) b from =
      stopped-IsWithinBudget [] (provider_error r) (failed ended b) 1 1 (omega arith) tt
  last-IsWithinBudget ended circuit_open b from =
      stopped-IsWithinBudget [] (provider_error false) (failed ended b) 1 1 (omega arith) tt
  last-IsWithinBudget ended other_exception b from =
      stopped-IsWithinBudget [] other_exception b 1 0 (omega arith) tt

  call-IsWithinBudget :
      (rest : List Time) (delay ended : Time) (o : Outcome A) (b : Option CircuitBreaker)
      (next : Option CircuitBreaker → Run A)
      → IsSourced o
      → ((b' : Option CircuitBreaker) → IsWithinBudget rest (next b'))
      → IsWithinBudget (delay ∷ rest) (on_outcome (delay ∷ rest) ended o b next)
  call-IsWithinBudget rest delay ended (returned a) b next from h =
      stopped-IsWithinBudget (delay ∷ rest) (returned a) (succeeded b) 1 0 (omega arith) from
  call-IsWithinBudget rest delay ended (provider_error r) b next from h =
      failure-IsWithinBudget rest delay r (failed ended b) next h
  call-IsWithinBudget rest delay ended circuit_open b next from h =
      failure-IsWithinBudget rest delay false (failed ended b) next h
  call-IsWithinBudget rest delay ended other_exception b next from h =
      stopped-IsWithinBudget (delay ∷ rest) other_exception b 1 0 (omega arith) tt

  guarded-IsWithinBudget :
      (delays : List Time) (g : Option (Bool × Option CircuitBreaker)) (b : Option CircuitBreaker)
      (call : Option CircuitBreaker → Run A)
      → ((b' : Option CircuitBreaker) → IsWithinBudget delays (call b'))
      → IsWithinBudget delays (on_guard g b call)
  guarded-IsWithinBudget delays none b call h =
      stopped-IsWithinBudget delays other_exception b 0 0 (omega arith) tt
  guarded-IsWithinBudget delays (some (true, b')) b call h = h b'
  guarded-IsWithinBudget delays (some (false, b')) b call h =
      stopped-IsWithinBudget delays circuit_open b' 0 0 (omega arith) tt

  outcome-IsSourced : (n : ℕ) → IsSourced (operation n).outcome
  outcome-IsSourced n = of_outcome (operation n).outcome refl
    where
      of_outcome : (o : Outcome A) → (operation n).outcome ≡ o → IsSourced o
      of_outcome (returned a) e = (n, e)
      of_outcome (provider_error r) e = tt
      of_outcome circuit_open e = tt
      of_outcome other_exception e = tt

  attempts-IsWithinBudget :
      (n : ℕ) (delays : List Time) (b : Option CircuitBreaker)
      → IsWithinBudget delays (attempts operation n delays b)
  unfolding attempts
  attempts-IsWithinBudget n [] b =
      guarded-IsWithinBudget [] (guard (operation n).started b) b
        (call_once [] (operation n) unreachable)
        (λ b'.
          last-IsWithinBudget (operation n).ended (operation n).outcome b' (outcome-IsSourced n))
  attempts-IsWithinBudget n (delay ∷ rest) b =
      let next = attempts operation (suc n) rest in
      guarded-IsWithinBudget (delay ∷ rest) (guard (operation n).started b) b
        (call_once (delay ∷ rest) (operation n) next)
        (λ b'.
          call-IsWithinBudget rest delay (operation n).ended (operation n).outcome b' next
            (outcome-IsSourced n) (attempts-IsWithinBudget (suc n) rest))

  -- Whatever the operation and the breaker do, a retry loop makes at most one call more than it has
  -- delays, sleeps the first of them in their order and no more than it made calls, and returns no
  -- value but one that a call returned.
  pub call_with_retries-IsWithinBudget :
      (delays : List Time) (b : Option CircuitBreaker)
      → IsWithinBudget delays (call_with_retries operation delays b)
  unfolding call_with_retries
  call_with_retries-IsWithinBudget delays b = attempts-IsWithinBudget 1 delays b
