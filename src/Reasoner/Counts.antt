-- ===== src/Reasoner/Counts.antt =====
-- The base rate of earlier causes: every counted cause is in one category.
use radar_system.Prelude.{
  ℕ, suc, ◌+◌, ◌≤◌, String, ◌≡◌, refl, List, [], ◌∷◌, arith, str_eq, Bool-cases, inl, inr, length,
  length-take-le, length-map, take, map, select,
}
use radar_system.Contracts.{UuidNumber}
use radar_system.Database.Tables.{Recommendation, Db}
use radar_system.Reasoner.History.{
  prior_limit, classify_cause, count_category, count_causes, is_prior, newest_first,
  historical_prior,
}

abbrev pub sum_counts : List (String × ℕ) → ℕ
sum_counts [] = 0
sum_counts ((c, n) ∷ rest) = n + sum_counts rest

sum-count_category :
    (category : String) (counts : List (String × ℕ))
    → sum_counts (count_category category counts) ≡ suc (sum_counts counts)
sum-count_category category [] = refl
sum-count_category category ((c, n) ∷ rest) = elim (Bool-cases (str_eq c category)) [
  | inl e ↦ rw e (omega arith)
  | inr e ↦ rw e (omega (arith, sum-count_category category rest))
]

sum-count_causes :
    (lower : String → String) (causes : List String) (counts : List (String × ℕ))
    → sum_counts (count_causes lower causes counts) ≡ length causes + sum_counts counts
sum-count_causes lower [] counts = omega arith
sum-count_causes lower (cause ∷ rest) counts = omega (
  arith,
  sum-count_causes lower rest (count_category (classify_cause lower cause) counts),
  sum-count_category (classify_cause lower cause) counts,
)

-- The prior summarises at most 20 recommendations, and its categories add up to their number.
pub historical_prior_adds_up :
    (lower : String → String) (fingerprint : String) (exclude : UuidNumber) (db : Db)
    → ((historical_prior lower fingerprint exclude db).total ≤ 20)
      × (sum_counts (historical_prior lower fingerprint exclude db).category_counts
          ≡ (historical_prior lower fingerprint exclude db).total)
unfolding historical_prior
historical_prior_adds_up lower fingerprint exclude db =
    let rows =
      newest_first (λ (r : Recommendation). r.created_at)
        (select (is_prior fingerprint exclude db) db.recommendations) in
    let causes = map (λ (r : Recommendation). r.root_cause) (take prior_limit rows) in
    (
      omega (
        arith,
        length-map (λ (r : Recommendation). r.root_cause) (take prior_limit rows),
        length-take-le prior_limit rows,
      ),
      omega (arith, sum-count_causes lower causes []),
    )
