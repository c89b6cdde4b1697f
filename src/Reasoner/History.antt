-- ===== src/Reasoner/History.antt =====
-- apps/reasoner-agent/src/radar_reasoner_agent/history.py: what earlier incidents of one
-- fingerprint came to. `lower` is `str.lower`. Rows of one moment come in the reverse order of the
-- table.
use Prim.Native.String.{len, find}
use mathlib.Core.List.{reverse}
use radar_system.Prelude.{
  ℕ, suc, String, Bool, false, not, ◌&&◌, Option, none, some, List, [], ◌∷◌, ◌++◌, leb, ◌==◌,
  str_eq, any, select, map, take, length, order_by, if◌then◌else◌,
}
use radar_system.Contracts.{UuidNumber, HistoricalPrior, PastFeedback}
use radar_system.Database.Tables.{Incident, Recommendation, Feedback, Db}
use radar_system.Database.Repository.{incident_by_id}

abbrev pub prior_limit : ℕ
prior_limit = 20

abbrev pub feedback_limit : ℕ
feedback_limit = 5

-- CAUSE_KEYWORDS
abbrev pub cause_keywords : List (String × List String)
cause_keywords =
    (
      "deployment",
      "deploy" ∷ "rollout" ∷ "roll out" ∷ "rollback" ∷ "release" ∷ "version " ∷ "canary"
          ∷ "regression" ∷ "new build" ∷ "bad push" ∷ [],
    )
    ∷ (
      "dependency",
      "dependency" ∷ "upstream" ∷ "downstream" ∷ "third-party" ∷ "third party" ∷ "external service"
          ∷ "payment gateway" ∷ "provider outage" ∷ "api call" ∷ [],
    )
    ∷ (
      "database",
      "database" ∷ "connection pool" ∷ "deadlock" ∷ "replication" ∷ "slow query" ∷ "postgres"
          ∷ "sql" ∷ "db " ∷ [],
    )
    ∷ (
      "resource",
      "memory" ∷ "cpu" ∷ "oom" ∷ "out of memory" ∷ "disk" ∷ "saturat" ∷ "exhaust" ∷ "leak"
          ∷ "capacity" ∷ "throttl" ∷ "resource" ∷ [],
    )
    ∷ (
      "configuration",
      "config" ∷ "misconfig" ∷ "feature flag" ∷ "env var" ∷ "environment variable" ∷ "certificate"
          ∷ "expired" ∷ "secret" ∷ [],
    )
    ∷ ("network", "network" ∷ "dns" ∷ "connectivity" ∷ "packet loss" ∷ "tls handshake" ∷ [])
    ∷ ("traffic", "traffic" ∷ "load spike" ∷ "surge" ∷ "spike in" ∷ "rate limit" ∷ "overload" ∷ [])
    ∷ []

-- `keyword in text`
abbrev pub contains : String → String → Bool
contains body keyword = leb (find body keyword) (len body)

abbrev pub first_category : String → List (String × List String) → String
first_category body [] = "other"
first_category body ((category, keywords) ∷ rest) =
    let next = first_category body rest in if any (contains body) keywords then category else next

-- `classify_cause`
unfoldable pub classify_cause : (String → String) → String → String
classify_cause lower root_cause = first_category (lower root_cause) cause_keywords

-- `counts[category] = counts.get(category, 0) + 1`
abbrev pub count_category : String → List (String × ℕ) → List (String × ℕ)
count_category category [] = (category, 1) ∷ []
count_category category ((c, n) ∷ rest) =
    if str_eq c category then (c, suc n) ∷ rest else (c, n) ∷ count_category category rest

abbrev pub count_causes : (String → String) → List String → List (String × ℕ) → List (String × ℕ)
count_causes lower [] counts = counts
count_causes lower (cause ∷ rest) counts =
    count_causes lower rest (count_category (classify_cause lower cause) counts)

abbrev pub is_of : String → UuidNumber → Option Incident → Bool
is_of fingerprint exclude none = false
is_of fingerprint exclude (some i) = str_eq i.fingerprint fingerprint && not (i.id == exclude)

-- the join with the incidents, and the conditions of both queries
abbrev pub is_prior : String → UuidNumber → Db → Recommendation → Bool
is_prior fingerprint exclude db r =
    is_of fingerprint exclude (incident_by_id r.incident_id db) && not r.is_fallback

abbrev pub newest_first {ℓ} : {A : Type ℓ} → (A → ℕ) → List A → List A
newest_first key xs = reverse (order_by key xs)

abbrev pub prior_of : (String → String) → List String → HistoricalPrior
prior_of lower causes = record {
  total = length causes;
  category_counts = count_causes lower causes [];
}

-- `_historical_prior`
unfoldable pub historical_prior : (String → String) → String → UuidNumber → Db → HistoricalPrior
historical_prior lower fingerprint exclude db = prior_of lower (
    map (λ (r : Recommendation). r.root_cause)
      (take prior_limit (
        newest_first (λ (r : Recommendation). r.created_at)
          (select (is_prior fingerprint exclude db) db.recommendations))))

-- a row of the feedback query: the sentiment, the correction and the root cause
abbrev pub Rated : Type 0
Rated = String × Option String × String

abbrev pub rated_rows : String → UuidNumber → Db → List Feedback → List Recommendation → List Rated
rated_rows fingerprint exclude db [] recommendations = []
rated_rows fingerprint exclude db (f ∷ rest) recommendations =
    map (λ (r : Recommendation). (f.sentiment, f.correction_text, r.root_cause))
      (select
        (λ (r : Recommendation). r.id == f.recommendation_id && is_prior fingerprint exclude db r)
        recommendations)
    ++ rated_rows fingerprint exclude db rest recommendations

abbrev pub added_once : String → List String → List String
added_once s known = if any (λ k. str_eq k s) known then known else known ++ s ∷ []

abbrev pub with_correction : Option String → List String → List String
with_correction none known = known
with_correction (some t) known = if str_eq t "" then known else added_once t known

abbrev pub rate : Rated → PastFeedback → PastFeedback
rate (sentiment, correction, cause) past =
    let helpful = str_eq sentiment "helpful" in
    let unhelpful = str_eq sentiment "not_helpful" in
    record {
      confirmed_causes =
          if helpful then added_once cause past.confirmed_causes else past.confirmed_causes;
      corrections = with_correction correction past.corrections;
      unhelpful_count = if unhelpful then suc past.unhelpful_count else past.unhelpful_count;
    }

abbrev pub rate_all : List Rated → PastFeedback → PastFeedback
rate_all [] past = past
rate_all (r ∷ rest) past = rate_all rest (rate r past)

abbrev pub limited : PastFeedback → PastFeedback
limited past = record past {
  confirmed_causes = take feedback_limit past.confirmed_causes;
  corrections = take feedback_limit past.corrections;
}

-- `_past_feedback`
unfoldable pub past_feedback : String → UuidNumber → Db → PastFeedback
past_feedback fingerprint exclude db = limited (
    rate_all
      (rated_rows fingerprint exclude db (newest_first (λ (f : Feedback). f.created_at) db.feedback)
        db.recommendations)
      (record { confirmed_causes = []; corrections = []; unhelpful_count = 0 }))
