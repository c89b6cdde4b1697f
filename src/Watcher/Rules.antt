-- ===== src/Watcher/Rules.antt =====
-- apps/watcher-agent/src/radar_watcher_agent/rules.py: the rules and their validation. The deferred
-- blocks (window overrides, service groups) are validated by the source and applied by nothing,
-- here too.
pub mod Unshadowed
use radar_system.Prelude.{
  ltb, ℕ, String, Bool, true, false, not, ◌&&◌, Option, List, [], ◌∷◌, str_eq, if◌then◌else◌, any,
  map, find_row,
}
use radar_system.Contracts.{Severity}

pub record SuppressionRule : Type 0 where
  pub alert_name : String
  pub suppress_follow_on_minutes : ℕ

pub record EscalationRule : Type 0 where
  pub alert_count_threshold : ℕ
  pub within_minutes : ℕ
  pub escalate_to : Severity

pub record WindowOverride : Type 0 where
  pub alert_name : String
  pub window_minutes : ℕ

pub record ServiceGroup : Type 0 where
  pub name : String
  pub services : List String
  pub group_as_single_incident : Bool

pub record CorrelationRules : Type 0 where
  pub default_window_minutes : ℕ
  pub window_overrides : List WindowOverride
  pub service_groups : List ServiceGroup
  pub suppression : List SuppressionRule
  pub escalation : List EscalationRule
  pub fingerprint_fields : List String

-- FINGERPRINT_FIELDS of radar_contracts/alerts.py
abbrev pub fingerprint_fields_declared : List String
fingerprint_fields_declared = "service_name" ∷ "alert_name" ∷ "severity" ∷ []

-- does a name occur twice? (`_reject_duplicates`, by counting)
unfoldable pub has_duplicates : List String → Bool
has_duplicates [] = false
has_duplicates (n ∷ names) =
    let rest = has_duplicates names in if any (λ m. str_eq m n) names then true else rest

abbrev same_texts : List String → List String → Bool
same_texts [] [] = true
same_texts (a ∷ as') (b ∷ bs) = str_eq a b && same_texts as' bs
same_texts _ _ = false

abbrev is_blank : String → Bool
is_blank s = str_eq s ""

-- the constraints of the fields: `min_length=1` of a text, `gt` of a number

abbrev pub is_window_override : WindowOverride → Bool
is_window_override w = not (is_blank w.alert_name) && ltb 0 w.window_minutes

abbrev pub is_service_group : ServiceGroup → Bool
is_service_group g = not (is_blank g.name) && any (λ _. true) g.services

abbrev pub is_suppression_rule : SuppressionRule → Bool
is_suppression_rule r = not (is_blank r.alert_name) && ltb 0 r.suppress_follow_on_minutes

abbrev pub is_escalation_rule : EscalationRule → Bool
is_escalation_rule r = ltb 1 r.alert_count_threshold && ltb 0 r.within_minutes

abbrev pub has_valid_fields : CorrelationRules → Bool
has_valid_fields rules =
    ltb 0 rules.default_window_minutes
    && not (any (λ w. not (is_window_override w)) rules.window_overrides)
    && not (any (λ g. not (is_service_group g)) rules.service_groups)
    && not (any (λ r. not (is_suppression_rule r)) rules.suppression)
    && not (any (λ r. not (is_escalation_rule r)) rules.escalation)

-- the fields, then `CorrelationRules._validate`: does the document load?
unfoldable pub validate : CorrelationRules → Bool
unfolding has_duplicates
validate rules =
    has_valid_fields rules
    && not (has_duplicates (map (λ r. r.alert_name) rules.suppression))
    && not (has_duplicates (map (λ w. w.alert_name) rules.window_overrides))
    && same_texts rules.fingerprint_fields fingerprint_fields_declared

-- `suppression_for`: the first rule of the alert
unfoldable pub suppression_for : CorrelationRules → String → Option SuppressionRule
suppression_for rules alert_name = find_row (λ r. str_eq r.alert_name alert_name) rules.suppression
