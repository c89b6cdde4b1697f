-- ===== src/Worker/Dispatcher/Safety.antt =====
-- When a dispatch counts as delivered, is tried again, or is given up.
use radar_system.Prelude.{
  ℕ, ◌≤◌, ◌<◌, String, ◌≡◌, refl, Option, none, some, ◌⊎◌, inl, inr, arith, subst, sym,
}
use radar_system.Contracts.{Time, EventEnvelope}
use radar_system.Database.Tables.{OutboxEvent}
use radar_system.Worker.Dispatcher.{
  DispatchStatus, delivered, retryable, permanent, Reply, wall_clock_timeout, client_timeout,
  http_error, response, lookup, classify, envelope, Routing, resolve_url, resolve_timeout, outcome,
  dispatch_with, dispatch,
}

-- 429, 500, 502, 503 and 504
abbrev pub IsTransient : ℕ → Type 0
IsTransient c = (c ≡ 429) ⊎ (c ≡ 500) ⊎ (c ≡ 502) ⊎ (c ≡ 503) ⊎ (c ≡ 504)

classify-delivered :
    (code : ℕ) (target : String)
    → (classify code target).status ≡ delivered
    → (200 ≤ code) × (code < 300)
unfolding classify
classify-delivered code target h = ground arith

classify-retryable :
    (code : ℕ) (target : String) → (classify code target).status ≡ retryable → IsTransient code
unfolding classify
classify-retryable code target h = ground arith

classify-permanent :
    (code : ℕ) (target : String)
    → (classify code target).status ≡ permanent
    → ((200 ≤ code × code < 300) → ⊥) × (IsTransient code → ⊥)
unfolding classify
classify-permanent code target h = (λ r. ground arith, λ r. ground arith)

response-injective : {a b : ℕ} → response a ≡ response b → a ≡ b
response-injective e = cc

-- What lies behind each class of result.
-- A reply after which a further attempt can help.
abbrev pub IsTransientReply : Reply → Type 0
IsTransientReply (response code) = IsTransient code
IsTransientReply wall_clock_timeout = Unit
IsTransientReply client_timeout = Unit
IsTransientReply (http_error name) = Unit

module _ (format : String → String → String) (post : String → EventEnvelope → String → Time → Reply)
    (routing : Routing) (event : OutboxEvent) where
  -- the reply to the one request that a dispatch with this token makes
  abbrev pub reply_with : String → Reply
  reply_with token =
      post (resolve_url format routing event.target_service) (envelope event) token
        (resolve_timeout routing event.target_service)

  abbrev pub target_token : Option String
  target_token = lookup event.target_service routing.tokens

  abbrev pub IsExplained : DispatchStatus → Type 0
  IsExplained delivered =
      (token : String) × (code : ℕ) × (target_token ≡ some token)
      × (reply_with token ≡ response code)
      × (200 ≤ code)
      × (code < 300)
  IsExplained retryable =
      (token : String) × (target_token ≡ some token) × IsTransientReply (reply_with token)
  IsExplained permanent =
      (target_token ≡ none)
      ⊎ ((token : String) × (code : ℕ) × (target_token ≡ some token)
          × (reply_with token ≡ response code)
          × ((200 ≤ code × code < 300) → ⊥)
          × (IsTransient code → ⊥))

  outcome-IsExplained :
      (token : String)
      → target_token ≡ some token
      → (r : Reply) → reply_with token ≡ r
      → IsExplained (outcome event (resolve_timeout routing event.target_service) r).status
  outcome-IsExplained token t wall_clock_timeout e = (token, t, subst IsTransientReply (sym e) tt)
  outcome-IsExplained token t client_timeout e = (token, t, subst IsTransientReply (sym e) tt)
  outcome-IsExplained token t (http_error name) e = (token, t, subst IsTransientReply (sym e) tt)
  outcome-IsExplained token t (response code) e =
      by_status (classify code event.target_service).status refl
    where
      by_status :
          (s : DispatchStatus) → (classify code event.target_service).status ≡ s → IsExplained s
      by_status delivered q =
          let (low, high) = classify-delivered code event.target_service q in
          (token, code, t, e, low, high)
      by_status retryable q = (
        token,
        t,
        subst IsTransientReply (sym e) (classify-retryable code event.target_service q),
      )
      by_status permanent q =
          let (not_ok, not_transient) = classify-permanent code event.target_service q in
          inr (token, code, t, e, not_ok, not_transient)

  -- A dispatch counts as delivered only on a 2xx reply to a request with the target's own token; it
  -- is tried again only after a timeout, a connection error or a transient status; it is given up
  -- only for want of the target's token or on a status that is neither.
  pub dispatch-IsExplained : IsExplained (dispatch format post routing event).status
  unfolding dispatch
  dispatch-IsExplained = by_token target_token refl
    where
      by_token :
          (o : Option String)
          → target_token ≡ o
          → IsExplained (dispatch_with format post routing event o).status
      by_token none e = inl e
      by_token (some token) e = outcome-IsExplained token e (reply_with token) refl
