-- ===== src/Gateway/Trips.antt =====
-- What holds of a breaker after any sequence of calls, and when it opens.
use radar_system.Prelude.{
  ℕ, suc, ◌+◌, ◌<◌, ◌≡◌, refl, sym, ap, subst, ◌∙◌, Bool, true, false, Option, none, some, List, [],
  ◌∷◌, leb, if◌then◌else◌, arith, Bool-cases, inl, inr, leb-false→lt, length,
}
use radar_system.Contracts.{Time}
use radar_system.Gateway.Breaker.{
  CircuitState, closed, opened, half_open, CircuitBreaker, new_breaker, allow_opened, allow_in,
  allow, record_success, record_failure_in, record_failure,
}

-- A closed breaker is below its threshold and has no trial; an open one knows since when; a
-- half-open one has its trial in flight.
abbrev pub IsWellFormedIn : CircuitState → CircuitBreaker → Type 0
IsWellFormedIn closed b = (b.failures < b.failure_threshold) × (b.probe_in_flight ≡ false)
IsWellFormedIn opened b = (t : Time) × (b.opened_at ≡ some t)
IsWellFormedIn half_open b = b.probe_in_flight ≡ true

pub record IsWellFormed (b : CircuitBreaker) : Type 0 where
  pub positive : 0 < b.failure_threshold
  pub in_state : IsWellFormedIn b.state b

-- The calls that a breaker gets, in any order.
pub data Step (b : CircuitBreaker) : CircuitBreaker → Type 0 where
  asked :
      {b' : CircuitBreaker} (now : Time) (answer : Bool)
      → allow now b ≡ some (answer, b')
      → Step b b'
  succeeded : Step b (record_success b)
  failed : (now : Time) → Step b (record_failure now b)

pub data Reach (start : CircuitBreaker) : CircuitBreaker → Type 0 where
  here : Reach start start
  next : {b b' : CircuitBreaker} → Reach start b → Step b b' → Reach start b'

-- The answer to a call, whatever the state: no assertion fails, and the breaker stays well-formed.
abbrev pub IsAnswered : Option (Bool × CircuitBreaker) → Type 0
IsAnswered none = ⊥
IsAnswered (some (answer, b)) = IsWellFormed b

opened-IsAnswered :
    (now : Time) (b : CircuitBreaker) (t : Time)
    → b.state ≡ opened
    → b.opened_at ≡ some t
    → 0 < b.failure_threshold
    → IsAnswered (allow_opened now b (some t))
opened-IsAnswered now b t s e pos = elim (Bool-cases (leb (t + b.reset_timeout) now)) [
  | inl late ↦ rw (late, s) (record { positive = pos; in_state = refl })
  | inr early ↦
      rw early
        (record { positive = pos; in_state = subst (λ x. IsWellFormedIn x b) (sym s) (t, e) })
]

allow_in-IsAnswered :
    (s : CircuitState) (now : Time) (b : CircuitBreaker)
    → b.state ≡ s
    → 0 < b.failure_threshold
    → IsWellFormedIn s b
    → IsAnswered (allow_in s now b)
allow_in-IsAnswered closed now b e pos h = record {
  positive = pos;
  in_state = subst (λ x. IsWellFormedIn x b) (sym e) h;
}
allow_in-IsAnswered opened now b e pos (t, since) =
    subst (λ o. IsAnswered (allow_opened now b o)) (sym since)
      (opened-IsAnswered now b t e since pos)
allow_in-IsAnswered half_open now b e pos h = rw h (record {
  positive = pos;
  in_state = subst (λ x. IsWellFormedIn x (record b { probe_in_flight = true })) (sym e) refl;
})

allow-IsAnswered : (now : Time) (b : CircuitBreaker) → IsWellFormed b → IsAnswered (allow now b)
unfolding allow
allow-IsAnswered now b w = allow_in-IsAnswered b.state now b refl w.positive w.in_state

success_in-IsWellFormed :
    (s : CircuitState) (b : CircuitBreaker)
    → b.state ≡ s
    → 0 < b.failure_threshold
    → IsWellFormed (record_success b)
unfolding record_success
success_in-IsWellFormed closed b e pos = rw e (record { positive = pos; in_state = (pos, refl) })
success_in-IsWellFormed opened b e pos = rw e (record { positive = pos; in_state = (pos, refl) })
success_in-IsWellFormed half_open b e pos = rw e (record { positive = pos; in_state = (pos, refl) })

failure_in-IsWellFormed :
    (s : CircuitState) (now : Time) (b : CircuitBreaker)
    → b.state ≡ s
    → 0 < b.failure_threshold
    → IsWellFormedIn s b
    → IsWellFormed (record_failure_in s now (record b { probe_in_flight = false }))
failure_in-IsWellFormed closed now b e pos h =
    elim (Bool-cases (leb b.failure_threshold (b.failures + 1))) [
      | inl trips ↦ rw (trips, e) (record { positive = pos; in_state = (now, refl) })
      | inr below ↦ rw below (record {
        positive = pos;
        in_state =
            subst
              (λ x.
                IsWellFormedIn x (record b { failures = b.failures + 1; probe_in_flight = false }))
              (sym e) (leb-false→lt b.failure_threshold (b.failures + 1) below, refl);
      })
    ]
failure_in-IsWellFormed opened now b e pos (t, since) = record {
  positive = pos;
  in_state =
      subst (λ x. IsWellFormedIn x (record b { probe_in_flight = false })) (sym e) (t, since);
}
failure_in-IsWellFormed half_open now b e pos h =
    rw e (record { positive = pos; in_state = (now, refl) })

failure-IsWellFormed :
    (now : Time) (b : CircuitBreaker) → IsWellFormed b → IsWellFormed (record_failure now b)
unfolding record_failure
failure-IsWellFormed now b w = failure_in-IsWellFormed b.state now b refl w.positive w.in_state

Step-IsWellFormed : {b b' : CircuitBreaker} → Step b b' → IsWellFormed b → IsWellFormed b'
Step-IsWellFormed {b} (asked now answer e) w = subst IsAnswered e (allow-IsAnswered now b w)
Step-IsWellFormed {b} succeeded w = success_in-IsWellFormed b.state b refl w.positive
Step-IsWellFormed {b} (failed now) w = failure-IsWellFormed now b w

Reach-IsWellFormed : {b₀ b : CircuitBreaker} → Reach b₀ b → IsWellFormed b₀ → IsWellFormed b
Reach-IsWellFormed here w = w
Reach-IsWellFormed (next before step) w = Step-IsWellFormed step (Reach-IsWellFormed before w)

-- After any sequence of calls on a new breaker with a positive threshold, `allow` answers (its
-- assertion holds), and leaves the breaker well-formed: closed below the threshold with no trial,
-- open since a known moment, or half-open with its one trial in flight.
pub allow-IsAnswered_always :
    (failure_threshold : ℕ) (reset_timeout now : Time) (b : CircuitBreaker)
    → 0 < failure_threshold
    → Reach (new_breaker failure_threshold reset_timeout) b
    → IsAnswered (allow now b)
allow-IsAnswered_always failure_threshold reset_timeout now b pos r =
    allow-IsAnswered now b
      (Reach-IsWellFormed r (record { positive = pos; in_state = (pos, refl) }))

-- The breaker after failures at these times, one after another.
pub fail_all : List Time → CircuitBreaker → CircuitBreaker
fail_all [] b = b
fail_all (now ∷ times) b = fail_all times (record_failure now b)

opened_stays :
    (times : List Time) (b : CircuitBreaker) → b.state ≡ opened → (fail_all times b).state ≡ opened
unfolding fail_all record_failure
opened_stays [] b e = e
opened_stays (now ∷ times) b e = opened_stays times (record_failure now b) (rw e refl)

abbrev one_more : CircuitBreaker → CircuitBreaker
one_more b = record b { failures = b.failures + 1; probe_in_flight = false }

failure_counted :
    (now : Time) (b : CircuitBreaker)
    → b.state ≡ closed
    → leb b.failure_threshold (b.failures + 1) ≡ false
    → record_failure now b ≡ one_more b
unfolding record_failure
failure_counted now b e below =
    ap (λ s. record_failure_in s now (record b { probe_in_flight = false })) e ∙ rw below refl

failure_trips :
    (now : Time) (b : CircuitBreaker)
    → b.state ≡ closed
    → leb b.failure_threshold (b.failures + 1) ≡ true
    → (record_failure now b).state ≡ opened
unfolding record_failure
failure_trips now b e trips =
    ap (λ s. (record_failure_in s now (record b { probe_in_flight = false })).state) e
    ∙ rw (trips, e) refl

not_yet : (f t : ℕ) → f < t → leb t (f + 0) ≡ false
not_yet f t h = ground arith

by_now : (f t n : ℕ) → leb t (f + 1) ≡ true → leb t (f + suc n) ≡ true
by_now f t n h = ground arith

moved : (f t n : ℕ) → leb t (f + 1 + n) ≡ leb t (f + suc n)
moved f t n = ap (leb t) (omega arith)

-- A closed breaker below its threshold that takes failures in a row is open from the one that
-- reaches the threshold, and closed until then.
pub trips_at_threshold :
    (times : List Time) (b : CircuitBreaker)
    → b.state ≡ closed
    → b.failures < b.failure_threshold
    → (fail_all times b).state
      ≡ (if leb b.failure_threshold (b.failures + length times) then opened else closed)
unfolding fail_all
trips_at_threshold [] b e below =
    e ∙ sym (ap (λ x. if x then opened else closed) (not_yet b.failures b.failure_threshold below))
trips_at_threshold (now ∷ times) b e below =
    elim (Bool-cases (leb b.failure_threshold (b.failures + 1))) [
      | inl trips ↦
          opened_stays times (record_failure now b) (failure_trips now b e trips)
          ∙ sym (
              ap (λ x. if x then opened else closed)
                (by_now b.failures b.failure_threshold (length times) trips))
      | inr short ↦
          ap (λ c. (fail_all times c).state) (failure_counted now b e short)
          ∙ trips_at_threshold times (one_more b) e
              (leb-false→lt b.failure_threshold (b.failures + 1) short)
          ∙ ap (λ x. if x then opened else closed)
              (moved b.failures b.failure_threshold (length times))
    ]
