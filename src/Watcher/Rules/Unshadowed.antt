-- ===== src/Watcher/Rules/Unshadowed.antt =====
-- The rules of a document that loads: none hides another.
use radar_system.Prelude.{
  String, ◌≡◌, refl, true, false, some, List, [], ◌∷◌, str_eq, eq_iff, eq_refl, any, map, find_row,
  All, All-mono, All-both, arith, Bool-cases, inl, inr,
}
use radar_system.Watcher.Rules.{
  SuppressionRule, CorrelationRules, has_duplicates, validate, suppression_for,
}

abbrev name_of : SuppressionRule → String
name_of r = r.alert_name

differ : (a b : String) → str_eq a b ≡ false → str_eq b a ≡ false
differ a b h = ground (arith, eq_iff a b, eq_iff b a)

others_differ :
    (n : String) (rules : List SuppressionRule)
    → any (λ m. str_eq m n) (map name_of rules) ≡ false
    → All (λ r. str_eq n r.alert_name ≡ false) rules
others_differ n [] h = tt
others_differ n (r ∷ rules) h = elim (Bool-cases (str_eq r.alert_name n)) [
  | inl same ↦ cc (rw same at h)
  | inr other ↦ (differ r.alert_name n other, others_differ n rules (rw other at h))
]

tail_unique :
    (n : String) (names : List String)
    → has_duplicates (n ∷ names) ≡ false
    → has_duplicates names ≡ false
unfolding has_duplicates
tail_unique n names h = ground arith

head_unique :
    (n : String) (names : List String)
    → has_duplicates (n ∷ names) ≡ false
    → any (λ m. str_eq m n) names ≡ false
unfolding has_duplicates
head_unique n names h = ground arith

abbrev IsOwn : List SuppressionRule → SuppressionRule → Type 0
IsOwn rules r = find_row (λ x. str_eq x.alert_name r.alert_name) rules ≡ some r

unique_found :
    (rules : List SuppressionRule)
    → has_duplicates (map name_of rules) ≡ false
    → All (IsOwn rules) rules
unique_found [] h = tt
unique_found (r ∷ rules) h = (
  rw (eq_refl r.alert_name) refl,
  All-mono {P = λ (x : SuppressionRule). (str_eq r.alert_name x.alert_name ≡ false) × IsOwn rules x}
      {Q = IsOwn (r ∷ rules)} (λ x k. rw (k.0, k.1) refl) rules
      (All-both (λ x. str_eq r.alert_name x.alert_name ≡ false) (IsOwn rules) rules
        (others_differ r.alert_name rules (head_unique r.alert_name (map name_of rules) h))
        (unique_found rules (tail_unique r.alert_name (map name_of rules) h))),
)

unique_of :
    (rules : CorrelationRules)
    → validate rules ≡ true
    → has_duplicates (map name_of rules.suppression) ≡ false
unfolding validate
unique_of rules h = ground arith

-- In a document that loads, no suppression rule hides another: every rule is the one that is found
-- for its alert.
pub validated_rules_found :
    (rules : CorrelationRules)
    → validate rules ≡ true
    → All (λ r. suppression_for rules r.alert_name ≡ some r) rules.suppression
unfolding suppression_for
validated_rules_found rules h = unique_found rules.suppression (unique_of rules h)
