-- ===== src/Watcher/Suppression.antt =====
-- When an alert is suppressed: an earlier incident of the same alert is inside the cooldown of its
-- rule.
use radar_system.Prelude.{
  ℕ, ◌+◌, ◌*◌, ◌≤◌, ◌≡◌, refl, sym, ap, ◌∙◌, Bool, true, false, ◌&&◌, Option, none, some, List, [],
  ◌∷◌, arith, ◌==◌, ==→eq, ==_refl, str_eq, eq_iff, eq_refl, any, any-Some, Some-any, Some,
  find_row, update, Bool-cases, Option-cases, ◌↔◌, inl, inr, if◌then◌else◌,
}
use radar_system.Contracts.{AlertNormalizedPayload}
use radar_system.Database.Tables.{Incident, Alert, AuditLog, Db}
use radar_system.Watcher.Rules.{CorrelationRules, SuppressionRule, suppression_for}
use radar_system.Watcher.Correlation.{is_follow_on, suppressed_by}

-- An alert of the same service and name that belongs to the incident.
abbrev pub IsSameAlert : AlertNormalizedPayload → Incident → Alert → Type 0
IsSameAlert payload previous a =
    (a.service_name ≡ payload.service_name)
    × (a.alert_name ≡ payload.alert_name)
    × (a.incident_id ≡ some previous.id)

-- Another incident, opened before this one and at most the cooldown before it (the boundary
-- included), that has an alert of the same service and name.
abbrev pub IsEarlier : Db → Incident → AlertNormalizedPayload → ℕ → Incident → Type 0
IsEarlier db i payload cooldown previous =
    (previous.id ≡ i.id → ⊥)
    × (i.opened_at ≤ previous.opened_at + cooldown * 60 * 1_000_000)
    × (previous.opened_at ≤ i.opened_at)
    × Some (IsSameAlert payload previous) db.alerts

abbrev pub IsCooling : Option SuppressionRule → Db → Incident → AlertNormalizedPayload → Type 0
IsCooling none db i payload = ⊥
IsCooling (some rule) db i payload =
    Some (IsEarlier db i payload rule.suppress_follow_on_minutes) db.incidents

-- The rule of the alert is the first that names it.
abbrev pub IsSuppressed : CorrelationRules → Incident → AlertNormalizedPayload → Db → Type 0
IsSuppressed rules i payload db =
    IsCooling (find_row (λ r. str_eq r.alert_name payload.alert_name) rules.suppression) db i
      payload

abbrev pub cooled : Option ℕ → Bool
cooled none = false
cooled (some cooldown) = true

owned : (o : Option ℕ) (k : ℕ) → (elim o [ some j ↦ j == k | none ↦ false ]) ≡ true → o ≡ some k
owned none k h = cc
owned (some j) k h = ap some (==→eq j k h)

same_alert :
    (payload : AlertNormalizedPayload) (previous : Incident) (a : Alert)
    → (str_eq a.service_name payload.service_name
        && str_eq a.alert_name payload.alert_name
        && (elim a.incident_id [ some k ↦ k == previous.id | none ↦ false ]))
      ≡ true
    → IsSameAlert payload previous a
same_alert payload previous a h = (
  ground (arith, eq_iff a.service_name payload.service_name),
  ground (arith, eq_iff a.alert_name payload.alert_name),
  owned a.incident_id previous.id (ground arith),
)

is_same_alert :
    (payload : AlertNormalizedPayload) (previous : Incident) (a : Alert)
    → IsSameAlert payload previous a
    → (str_eq a.service_name payload.service_name
        && str_eq a.alert_name payload.alert_name
        && (elim a.incident_id [ some k ↦ k == previous.id | none ↦ false ]))
      ≡ true
is_same_alert payload previous a (service, name, of) =
    rw
      (
        service,
        name,
        of,
        eq_refl payload.service_name,
        eq_refl payload.alert_name,
        ==_refl previous.id,
      )
      refl

eq_num : (a b : ℕ) → a ≡ b → (a == b) ≡ true
eq_num a b e = rw e (==_refl b)

earlier :
    (db : Db) (i : Incident) (payload : AlertNormalizedPayload) (cooldown : ℕ) (previous : Incident)
    → is_follow_on db i payload cooldown previous ≡ true
    → IsEarlier db i payload cooldown previous
earlier db i payload cooldown previous h =
    let test = λ (a : Alert).
      str_eq a.service_name payload.service_name
      && str_eq a.alert_name payload.alert_name
      && (elim a.incident_id [ some k ↦ k == previous.id | none ↦ false ]) in
    let there : any test db.alerts ≡ true = ground arith in
    (
      (λ e. ground (arith, (eq_num previous.id i.id e))),
      ground arith,
      ground arith,
      any-Some test (IsSameAlert payload previous) (same_alert payload previous) db.alerts there,
    )

follows :
    (db : Db) (i : Incident) (payload : AlertNormalizedPayload) (cooldown : ℕ) (previous : Incident)
    → IsEarlier db i payload cooldown previous
    → is_follow_on db i payload cooldown previous ≡ true
follows db i payload cooldown previous (other, inside, before, same) =
    let test = λ (a : Alert).
      str_eq a.service_name payload.service_name
      && str_eq a.alert_name payload.alert_name
      && (elim a.incident_id [ some k ↦ k == previous.id | none ↦ false ]) in
    let there : any test db.alerts ≡ true =
      Some-any test (IsSameAlert payload previous) (is_same_alert payload previous) db.alerts
        same in
    let distinct : (previous.id == i.id) ≡ false = elim (Bool-cases (previous.id == i.id)) [
      | inl e ↦ absurd (other (==→eq previous.id i.id e))
      | inr e ↦ e
    ] in
    rw (distinct, there) (ground arith)

decided_by :
    (rule : Option SuppressionRule) (db : Db) (i : Incident) (payload : AlertNormalizedPayload)
    → (o : Option ℕ)
    → o ≡ (elim rule [
      | none ↦ none
      | some r ↦
          if any (is_follow_on db i payload r.suppress_follow_on_minutes) db.incidents
          then some r.suppress_follow_on_minutes
          else none
    ])
    → (cooled o ≡ true) ↔ IsCooling rule db i payload
decided_by none db i payload o e = (λ h. cc (ap cooled (sym e) ∙ h), λ h. absurd h)
decided_by (some r) db i payload o e =
    let test = is_follow_on db i payload r.suppress_follow_on_minutes in
    let answer : Bool → Option ℕ = λ b. if b then some r.suppress_follow_on_minutes else none in
    let spec = IsEarlier db i payload r.suppress_follow_on_minutes in
    (
      (λ h.
          any-Some test spec (earlier db i payload r.suppress_follow_on_minutes) db.incidents
            (elim (Bool-cases (any test db.incidents)) [
              | inl t ↦ t
              | inr t ↦ cc (sym h ∙ ap cooled e ∙ ap (λ b. cooled (answer b)) t)
            ])),
      (λ h.
          ap cooled e
          ∙ ap (λ b. cooled (answer b))
              (Some-any test spec (follows db i payload r.suppress_follow_on_minutes) db.incidents
                h)),
    )

-- The code's test is the specification.
pub suppressed_by-IsSuppressed :
    (rules : CorrelationRules) (i : Incident) (payload : AlertNormalizedPayload) (db : Db)
    → (cooled (suppressed_by rules i payload db) ≡ true) ↔ IsSuppressed rules i payload db
unfolding suppressed_by suppression_for
suppressed_by-IsSuppressed rules i payload db =
    decided_by (find_row (λ r. str_eq r.alert_name payload.alert_name) rules.suppression) db i
      payload (suppressed_by rules i payload db) refl

-- A write to the row of the incident at hand, which keeps its id and its opening, is no earlier
-- incident.
module _ (i worse : Incident) (payload : AlertNormalizedPayload) (db : Db) (audits : List AuditLog)
    (same : worse.id ≡ i.id) (opened : worse.opened_at ≡ i.opened_at) where
  abbrev rewritten : Db
  rewritten = record db {
    incidents = update (λ r. r.id == i.id) (λ _. worse) db.incidents;
    audit_log = audits;
  }

  follow_on_kept :
      (cooldown : ℕ) (rows : List Incident)
      → any
          (is_follow_on rewritten worse payload cooldown)
          (update (λ r. r.id == i.id) (λ _. worse) rows)
        ≡ any (is_follow_on db i payload cooldown) rows
  follow_on_kept cooldown [] = refl
  follow_on_kept cooldown (r ∷ rows) = elim (Bool-cases (r.id == i.id)) [
    | inl e ↦ rw (e, eq_num worse.id worse.id refl) (follow_on_kept cooldown rows)
    | inr e ↦ rw (e, same, opened) (ground (arith, follow_on_kept cooldown rows))
  ]

  pub suppressed_by_kept :
      (rules : CorrelationRules)
      → suppressed_by rules worse payload rewritten ≡ suppressed_by rules i payload db
  unfolding suppressed_by
  suppressed_by_kept rules = elim (Option-cases (suppression_for rules payload.alert_name)) [
    | inl q ↦ rw (suppressed_by, q) refl
    | inr (rule, q) ↦
        rw (suppressed_by, q, follow_on_kept rule.suppress_follow_on_minutes db.incidents) refl
  ]
