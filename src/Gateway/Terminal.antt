-- ===== src/Gateway/Terminal.antt =====
-- What a request comes to: its value is a provider's, and its calls are bounded.
use radar_system.Prelude.{
  ℕ, ◌+◌, ◌≤◌, ◌≡◌, refl, sym, ap, subst, Option, none, some, List, [], ◌∷◌, ◌⊎◌, inl, inr, arith,
  length,
}
use radar_system.Contracts.{Time}
use radar_system.Gateway.Retry.{
  Outcome, returned, provider_error, circuit_open, other_exception, Run, call_with_retries,
}
use radar_system.Gateway.Fallback.{
  Binding, Answer, completed, all_providers_failed, crashed, Served, after_fallback, fall_back,
  after_primary, run_with_fallback,
}
use radar_system.Gateway.Budget.{IsSourced, call_with_retries-IsWithinBudget}

module _ {A : Type 0} (delays : List Time) (primary : Binding A) where
  -- A completion is what a call of one of the two bindings returned; a failure names what was
  -- tried.
  abbrev pub IsHonest : Option (Binding A) → Answer A → Type 0
  IsHonest none (completed a) = IsSourced primary.operation (returned a)
  IsHonest (some f) (completed a) =
      IsSourced primary.operation (returned a) ⊎ IsSourced f.operation (returned a)
  IsHonest none (all_providers_failed tried) = tried ≡ primary.name ∷ []
  IsHonest (some f) (all_providers_failed tried) = tried ≡ primary.name ∷ f.name ∷ []
  IsHonest o crashed = Unit

  abbrev pub budget : ℕ
  budget = length delays + 1

  abbrev pub first : Run A
  first = call_with_retries primary.operation delays primary.breaker

  abbrev pub second : Binding A → Run A
  second f = call_with_retries f.operation delays f.breaker

  -- The errors of a binding on which the fallback is tried.
  abbrev pub IsProviderFailure : Outcome A → Type 0
  IsProviderFailure (returned a) = ⊥
  IsProviderFailure (provider_error r) = Unit
  IsProviderFailure circuit_open = Unit
  IsProviderFailure other_exception = ⊥

  record IsBounded (fallback : Option (Binding A)) (served : Served A) : Type 0 where
    honest : IsHonest fallback served.answer
    calls_bounded : served.calls ≤ budget + budget

  -- How a request may end, by what its retry loops came to: the fallback's loop is run where the
  -- primary's ended in a provider failure, and only there.
  pub data Ended (fallback : Option (Binding A)) (served : Served A) : Type 0 where
    by_primary :
        (a : A)
        → first.outcome ≡ returned a
        → served ≡ record { answer = completed a; calls = first.calls; fallbacks = 0 }
        → Ended fallback served
    primary_crashed :
        first.outcome ≡ other_exception
        → served ≡ record { answer = crashed; calls = first.calls; fallbacks = 0 }
        → Ended fallback served
    none_left :
        IsProviderFailure first.outcome
        → fallback ≡ none
        → served ≡ record {
          answer = all_providers_failed (primary.name ∷ []);
          calls = first.calls;
          fallbacks = 0;
        }
        → Ended fallback served
    by_fallback :
        (f : Binding A) (a : A)
        → IsProviderFailure first.outcome
        → fallback ≡ some f
        → (second f).outcome ≡ returned a
        → served
          ≡ record { answer = completed a; calls = first.calls + (second f).calls; fallbacks = 1 }
        → Ended fallback served
    both_failed :
        (f : Binding A)
        → IsProviderFailure first.outcome
        → fallback ≡ some f
        → IsProviderFailure (second f).outcome
        → served ≡ record {
          answer = all_providers_failed (primary.name ∷ f.name ∷ []);
          calls = first.calls + (second f).calls;
          fallbacks = 1;
        }
        → Ended fallback served
    fallback_crashed :
        (f : Binding A)
        → IsProviderFailure first.outcome
        → fallback ≡ some f
        → (second f).outcome ≡ other_exception
        → served
          ≡ record { answer = crashed; calls = first.calls + (second f).calls; fallbacks = 1 }
        → Ended fallback served

  pub record IsServed (fallback : Option (Binding A)) (served : Served A) : Type 0 where
    pub honest : IsHonest fallback served.answer
    pub calls_bounded : served.calls ≤ budget + budget
    pub ended : Ended fallback served

  second-IsHonest :
      (f : Binding A) (calls : ℕ) (run : Run A)
      → IsSourced f.operation run.outcome
      → IsHonest (some f) (after_fallback (primary.name ∷ f.name ∷ []) calls run).answer
  second-IsHonest f calls run from = by_outcome run.outcome from
    where
      by_outcome :
          (o : Outcome A)
          → IsSourced f.operation o
          → IsHonest
              (some f)
              (after_fallback
                (primary.name ∷ f.name ∷ [])
                calls
                (record run { outcome = o })).answer
      by_outcome (returned a) k = inr k
      by_outcome (provider_error r) k = refl
      by_outcome circuit_open k = refl
      by_outcome other_exception k = tt

  -- the fallback's part, by the outcome of its loop
  with_outcome :
      (f : Binding A) {o : Outcome A}
      → (second f).outcome ≡ o
      → fall_back delays primary first.calls (some f)
        ≡ after_fallback
            (primary.name ∷ f.name ∷ [])
            first.calls
            (record (second f) { outcome = o })
  with_outcome f e =
      ap
        (λ o.
          after_fallback (primary.name ∷ f.name ∷ []) first.calls
            (record (second f) { outcome = o }))
        e

  fallback_ended :
      (f : Binding A) (o : Outcome A)
      → IsProviderFailure first.outcome
      → (second f).outcome ≡ o
      → Ended (some f) (fall_back delays primary first.calls (some f))
  fallback_ended f (returned a) failing e = by_fallback f a failing refl e (with_outcome f e)
  fallback_ended f (provider_error r) failing e =
      both_failed f failing refl (subst IsProviderFailure (sym e) tt) (with_outcome f e)
  fallback_ended f circuit_open failing e =
      both_failed f failing refl (subst IsProviderFailure (sym e) tt) (with_outcome f e)
  fallback_ended f other_exception failing e = fallback_crashed f failing refl e (with_outcome f e)

  failure_ended :
      (fallback : Option (Binding A))
      → IsProviderFailure first.outcome
      → Ended fallback (fall_back delays primary first.calls fallback)
  failure_ended none failing = none_left failing refl refl
  failure_ended (some f) failing = fallback_ended f (second f).outcome failing refl

  primary_ended :
      (fallback : Option (Binding A)) (o : Outcome A)
      → first.outcome ≡ o
      → Ended fallback (after_primary delays primary fallback first.calls o)
  primary_ended fallback (returned a) e = by_primary a e refl
  primary_ended fallback (provider_error r) e =
      failure_ended fallback (subst IsProviderFailure (sym e) tt)
  primary_ended fallback circuit_open e =
      failure_ended fallback (subst IsProviderFailure (sym e) tt)
  primary_ended fallback other_exception e = primary_crashed e refl

  fall_back-IsBounded :
      (calls : ℕ) (fallback : Option (Binding A))
      → calls ≤ budget
      → IsBounded fallback (fall_back delays primary calls fallback)
  fall_back-IsBounded calls none h = record { honest = refl; calls_bounded = omega arith }
  fall_back-IsBounded calls (some f) h =
      let next = call_with_retries-IsWithinBudget f.operation delays f.breaker in
      record {
        honest =
            second-IsHonest f calls (call_with_retries f.operation delays f.breaker) next.sourced;
        calls_bounded = omega (arith, next.calls_bounded);
      }

  primary-IsBounded :
      (fallback : Option (Binding A)) (calls : ℕ) (o : Outcome A)
      → calls ≤ budget
      → IsSourced primary.operation o
      → IsBounded fallback (after_primary delays primary fallback calls o)
  primary-IsBounded none calls (returned a) h from = record {
    honest = from;
    calls_bounded = omega arith;
  }
  primary-IsBounded (some f) calls (returned a) h from = record {
    honest = inl from;
    calls_bounded = omega arith;
  }
  primary-IsBounded fallback calls (provider_error r) h from = fall_back-IsBounded calls fallback h
  primary-IsBounded fallback calls circuit_open h from = fall_back-IsBounded calls fallback h
  primary-IsBounded none calls other_exception h from = record {
    honest = tt;
    calls_bounded = omega arith;
  }
  primary-IsBounded (some f) calls other_exception h from = record {
    honest = tt;
    calls_bounded = omega arith;
  }

  -- A request is never answered with a fabricated completion, and never fails before its bindings
  -- were tried. A value is one that a call to the primary or the fallback returned. The fallback's
  -- retry loop is run exactly where the primary's ended in a provider failure and there is a
  -- fallback; a terminal failure means that every loop that was run ended so, and names their
  -- bindings; the calls are those of the loops that were run, at most two full retry budgets.
  pub run_with_fallback-IsServed :
      (fallback : Option (Binding A))
      → IsServed fallback (run_with_fallback delays primary fallback)
  unfolding run_with_fallback
  run_with_fallback-IsServed fallback =
      let within = call_with_retries-IsWithinBudget primary.operation delays primary.breaker in
      let bounded =
        primary-IsBounded fallback first.calls first.outcome within.calls_bounded within.sourced in
      record {
        honest = bounded.honest;
        calls_bounded = bounded.calls_bounded;
        ended = primary_ended fallback first.outcome refl;
      }
