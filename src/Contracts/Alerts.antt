-- ===== src/Contracts/Alerts.antt =====
-- `Severity` of packages/contracts/src/radar_contracts/alerts.py, with the rank that
-- apps/watcher-agent/src/radar_watcher_agent/correlation.py derives from its declaration order.
use radar_system.Prelude.{
  ℕ, ◌<◌, String, ◌≡◌, refl, Bool, true, Option, none, some, arith, ltb, if◌then◌else◌, str_eq,
}

pub data Severity : Type 0 where
  critical high medium low info : Severity

-- `Severity.value`
unfoldable pub value : Severity → String
value critical = "critical"
value high = "high"
value medium = "medium"
value low = "low"
value info = "info"

-- `Severity(text)`; `none` is its ValueError
unfoldable pub of_value : String → Option Severity
of_value text =
    if str_eq text "critical"
    then some critical
    else if str_eq text "high"
    then some high
    else if str_eq text "medium"
    then some medium
    else if str_eq text "low"
    then some low
    else if str_eq text "info"
    then some info
    else none

-- `_SEVERITY_RANK`: the declaration order, so a lower number is more severe
unfoldable pub rank : Severity → ℕ
rank critical = 0
rank high = 1
rank medium = 2
rank low = 3
rank info = 4

unfoldable pub is_more_severe : Severity → Severity → Bool
unfolding rank
is_more_severe candidate current = ltb (rank candidate) (rank current)

pub of_value-value : (s : Severity) → of_value (value s) ≡ some s
unfolding of_value value
of_value-value critical = refl
of_value-value high = refl
of_value-value medium = refl
of_value-value low = refl
of_value-value info = refl

pub is_more_severe→lt : (a b : Severity) → is_more_severe a b ≡ true → rank a < rank b
unfolding is_more_severe
is_more_severe→lt a b h = ground arith
