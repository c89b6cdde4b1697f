-- ===== src/Gateway/Trial.antt =====
-- The half-open trial: one at a time, and what becomes of one that never reports back.
use radar_system.Prelude.{
  ℕ, ◌+◌, ◌≤◌, ◌<◌, ◌≡◌, refl, ap, ◌∙◌, true, false, Option, some, List, [], ◌∷◌, leb, arith,
}
use radar_system.Contracts.{Time}
use radar_system.Gateway.Breaker.{
  opened, half_open, CircuitBreaker, transition, allow_opened, allow_in, allow,
}
use radar_system.Gateway.Retry.{
  circuit_open, other_exception, Call, Run, stop, guard, guarded, on_guard, call_once, unreachable,
  on_outcome, attempts, call_with_retries,
}

too_early : (t r now : ℕ) → now < t + r → leb (t + r) now ≡ false
too_early t r now h = ground arith

late_enough : (t r now : ℕ) → t + r ≤ now → leb (t + r) now ≡ true
late_enough t r now h = ground arith

-- The breaker with its one trial in flight.
abbrev pub on_trial : CircuitBreaker → CircuitBreaker
on_trial b = record (transition half_open b) { probe_in_flight = true }

allow-early :
    (now t : Time) (b : CircuitBreaker)
    → b.state ≡ opened
    → b.opened_at ≡ some t
    → now < t + b.reset_timeout
    → allow now b ≡ some (false, b)
unfolding allow
allow-early now t b e since early =
    ap (λ s. allow_in s now b) e
    ∙ ap (allow_opened now b) since
    ∙ rw (too_early t b.reset_timeout now early) refl

allow-late :
    (now t : Time) (b : CircuitBreaker)
    → b.state ≡ opened
    → b.opened_at ≡ some t
    → t + b.reset_timeout ≤ now
    → allow now b ≡ some (true, on_trial b)
unfolding allow
allow-late now t b e since late =
    ap (λ s. allow_in s now b) e
    ∙ ap (allow_opened now b) since
    ∙ rw (late_enough t b.reset_timeout now late) refl

on_trial-half_open : (b : CircuitBreaker) → b.state ≡ opened → (on_trial b).state ≡ half_open
on_trial-half_open b e = rw e refl

-- While its trial is in flight a breaker refuses every call, and stays as it is.
on_trial_refuses :
    (now : Time) (b : CircuitBreaker)
    → b.state ≡ opened
    → allow now (on_trial b) ≡ some (false, on_trial b)
unfolding allow
on_trial_refuses now b e = ap (λ s. allow_in s now (on_trial b)) (on_trial-half_open b e)

module _ {A : Type 0} (call : Option CircuitBreaker → Run A) (now : Time) (b : CircuitBreaker) where
  refused :
      allow now b ≡ some (false, b)
      → on_guard (guard now (some b)) (some b) call ≡ stop circuit_open (some b) 0 0
  refused h = ap (λ g. on_guard (guarded g) (some b) call) h

  admitted :
      {c : CircuitBreaker}
      → allow now b ≡ some (true, c)
      → on_guard (guard now (some b)) (some b) call ≡ call (some c)
  admitted h = ap (λ g. on_guard (guarded g) (some b) call) h

crashed_call :
    {A : Type 0} (delays : List Time) (call : Call A) (next : Option CircuitBreaker → Run A)
    (b : CircuitBreaker)
    → call.outcome ≡ other_exception
    → call_once delays call next (some b) ≡ stop other_exception (some b) 1 0
crashed_call delays call next b h = ap (λ o. on_outcome delays call.ended o (some b) next) h

module _ {A : Type 0} (operation : ℕ → Call A) (b : CircuitBreaker) (t : Time)
    (e : b.state ≡ opened) (since : b.opened_at ≡ some t) where
  -- Before the reset timeout, an open breaker ends the retry loop with no call, no sleep and no
  -- change.
  pub open_fails_fast :
      (delays : List Time)
      → (operation 1).started < t + b.reset_timeout
      → call_with_retries operation delays (some b) ≡ stop circuit_open (some b) 0 0
  unfolding call_with_retries attempts
  open_fails_fast [] early =
      refused (call_once [] (operation 1) unreachable) (operation 1).started b
        (allow-early (operation 1).started t b e since early)
  open_fails_fast (delay ∷ delays) early =
      refused (call_once (delay ∷ delays) (operation 1) (attempts operation 2 delays))
        (operation 1).started b (allow-early (operation 1).started t b e since early)

  -- Where the trial call after the reset timeout raises anything but a ProviderError, the trial
  -- stays in flight, and a later question, at whatever time, is refused and changes nothing.
  pub abandoned_trial_sticks :
      (delays : List Time) (later : Time)
      → t + b.reset_timeout ≤ (operation 1).started
      → (operation 1).outcome ≡ other_exception
      → ((call_with_retries operation delays (some b)).breaker ≡ some (on_trial b))
        × (allow later (on_trial b) ≡ some (false, on_trial b))
  unfolding call_with_retries attempts
  abandoned_trial_sticks [] later late crash = (
    ap (λ (run : Run A). run.breaker)
        (admitted (call_once [] (operation 1) unreachable) (operation 1).started b
            (allow-late (operation 1).started t b e since late)
          ∙ crashed_call [] (operation 1) unreachable (on_trial b) crash),
    on_trial_refuses later b e,
  )
  abandoned_trial_sticks (delay ∷ delays) later late crash =
      let next = attempts operation 2 delays in
      (
        ap (λ (run : Run A). run.breaker)
            (admitted (call_once (delay ∷ delays) (operation 1) next) (operation 1).started b
                (allow-late (operation 1).started t b e since late)
              ∙ crashed_call (delay ∷ delays) (operation 1) next (on_trial b) crash),
        on_trial_refuses later b e,
      )
