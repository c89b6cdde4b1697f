-- ===== src/Watcher/Ratchet.antt =====
-- Escalation only ever raises a severity, and to the most severe of the rules that fired.
use radar_system.Prelude.{
  ℕ, ◌+◌, ◌*◌, ◌++◌, ◌&&◌, count_where, update, ◌==◌, leb, leb→le, Some, ◌≤◌, ◌<◌, ◌≡◌, refl, sym,
  ap, subst, false, Option, none, some, List, [], ◌∷◌, arith, if◌then◌else◌, Bool-cases, inl, inr,
  ◌⊎◌, All, All-mono,
}
use radar_system.Contracts.{
  UuidNumber, Severity, value, text, minutes, of_value, rank, is_more_severe, is_more_severe→lt,
  AlertNormalizedPayload,
}
use radar_system.Database.Tables.{Incident, Alert, Db}
use radar_system.Database.Tx.{ok, ok_state, ok_value, ◌>>=◌}
use radar_system.Watcher.Rules.{EscalationRule}
use radar_system.Watcher.Correlation.{
  Fresh, audit, alerts_received_since, fired, most_severe, write_escalation, escalate_to, escalate,
}

not_more_severe→le : (a b : Severity) → is_more_severe a b ≡ false → rank b ≤ rank a
unfolding is_more_severe
not_more_severe→le a b h = ground arith

-- At most as severe in rank as the first and as the others.
abbrev IsMinimum : Severity → List Severity → Severity → Type 0
IsMinimum s ts m = (rank m ≤ rank s) × All (λ t. rank m ≤ rank t) ts

most_severe-IsMinimum : (s : Severity) (ts : List Severity) → IsMinimum s ts (most_severe s ts)
most_severe-IsMinimum s [] = (omega arith, tt)
most_severe-IsMinimum s (t ∷ ts) = elim (Bool-cases (is_more_severe t s)) [
  | inl m ↦
      let lt = is_more_severe→lt t s m in
      let (first, rest) = most_severe-IsMinimum t ts in
      subst (IsMinimum s (t ∷ ts)) (ap (λ b. most_severe (if b then t else s) ts) (sym m))
        (omega arith, (first, rest))
  | inr m ↦
      let le = not_more_severe→le t s m in
      let (first, rest) = most_severe-IsMinimum s ts in
      subst (IsMinimum s (t ∷ ts)) (ap (λ b. most_severe (if b then t else s) ts) (sym m))
        (first, (omega arith, rest))
]

-- it is one of them
most_severe-Some : (s : Severity) (ts : List Severity) → Some (λ t. t ≡ most_severe s ts) (s ∷ ts)
most_severe-Some s [] = inl refl
most_severe-Some s (t ∷ ts) = elim (Bool-cases (is_more_severe t s)) [
  | inl m ↦
      subst (λ x. Some (λ y. y ≡ x) (s ∷ t ∷ ts))
        (ap (λ b. most_severe (if b then t else s) ts) (sym m)) (inr (most_severe-Some t ts))
  | inr m ↦
      subst (λ x. Some (λ y. y ≡ x) (s ∷ t ∷ ts))
        (ap (λ b. most_severe (if b then t else s) ts) (sym m))
        (elim (most_severe-Some s ts) [ inl h ↦ inl h | inr h ↦ inr (inr h) ])
]

module _ (fresh : Fresh) (rules : List EscalationRule) (i : Incident) (correlation_id : UuidNumber)
    (payload : AlertNormalizedPayload) (db : Db) where
  abbrev pub hits : List Severity
  hits = fired i.id payload.received_at db rules

  -- The incident at a severity, and its table and the audit log after the write.
  abbrev pub raised_to : Severity → Incident
  raised_to target = record i { severity = value target; updated_at = fresh.utcnow }

  abbrev pub with_raised : Severity → Severity → Db
  with_raised current target = record db {
    incidents = update (λ r. r.id == i.id) (λ _. raised_to target) db.incidents;
    audit_log =
        db.audit_log
        ++ audit "watcher.incident_escalated" (raised_to target) correlation_id payload
            (("escalated_from", text (value current)) ∷ ("escalated_to", text (value target)) ∷ [])
          ∷ [];
  }

  -- Within the rule's minutes before the alert, as many alerts of the incident as the rule asks
  -- for.
  abbrev pub IsBurst : EscalationRule → Type 0
  IsBurst rule =
      rule.alert_count_threshold
      ≤ count_where
          (λ (a : Alert).
            (elim a.incident_id [ some k ↦ k == i.id | none ↦ false ])
            && leb payload.received_at (a.received_at + rule.within_minutes * 60 * 1_000_000))
          db.alerts

  -- What an escalation may come to, for the incident's present severity.
  abbrev pub IsRatchet : Severity → Incident × Option Severity → Db → Type 0
  IsRatchet current out db' =
      ((out ≡ (i, none))
        × (db' ≡ db)
        × All (λ r. IsBurst r → rank current ≤ rank r.escalate_to) rules)
      ⊎ ((target : Severity) × (out ≡ (raised_to target, some target))
          × (db' ≡ with_raised current target)
          × (rank target < rank current)
          × Some (λ r. IsBurst r × (r.escalate_to ≡ target)) rules
          × All (λ r. IsBurst r → rank target ≤ rank r.escalate_to) rules)

  not_burst :
      (r : EscalationRule)
      → leb r.alert_count_threshold
          (alerts_received_since i.id payload.received_at (minutes r.within_minutes) db)
        ≡ false
      → IsBurst r
      → ⊥
  unfolding alerts_received_since
  not_burst r t met = ground arith

  -- what holds of every target that fired holds of every rule that has its burst
  fired-All :
      (m : ℕ) (rs : List EscalationRule)
      → All (λ t. m ≤ rank t) (fired i.id payload.received_at db rs)
      → All (λ r. IsBurst r → m ≤ rank r.escalate_to) rs
  unfolding fired alerts_received_since
  fired-All m [] h = tt
  fired-All m (r ∷ rs) h =
      elim (Bool-cases (
        leb r.alert_count_threshold
          (alerts_received_since i.id payload.received_at (minutes r.within_minutes) db))) [
            | inl t ↦
                let k : All (λ t. m ≤ rank t)
                    (r.escalate_to ∷ fired i.id payload.received_at db rs) =
                  rw t at h in
                ((λ _. k.0), fired-All m rs k.1)
            | inr t ↦ ((λ met. absurd (not_burst r t met)), fired-All m rs (rw t at h))
          ]

  fired-Some :
      (target : Severity) (rs : List EscalationRule)
      → Some (λ t. t ≡ target) (fired i.id payload.received_at db rs)
      → Some (λ r. IsBurst r × (r.escalate_to ≡ target)) rs
  unfolding fired alerts_received_since
  fired-Some target [] h = absurd h
  fired-Some target (r ∷ rs) h =
      elim (Bool-cases (
        leb r.alert_count_threshold
          (alerts_received_since i.id payload.received_at (minutes r.within_minutes) db))) [
            | inl t ↦
                let k : Some (λ t. t ≡ target)
                    (r.escalate_to ∷ fired i.id payload.received_at db rs) =
                  rw t at h in
                elim k [
                  | inl e ↦ inl (leb→le r.alert_count_threshold _ t, e)
                  | inr e ↦ inr (fired-Some target rs e)
                ]
            | inr t ↦ inr (fired-Some target rs (rw t at h))
          ]

  escalated_to_ratchet :
      (current : Severity) (targets : List Severity) {out : Incident × Option Severity} {db' : Db}
      → targets ≡ hits
      → escalate_to fresh i correlation_id payload current targets db ≡ ok (out, db')
      → IsRatchet current out db'
  unfolding write_escalation
  escalated_to_ratchet current [] e h = inl (
    sym (ok_value h),
    sym (ok_state h),
    fired-All (rank current) rules (subst (All (λ t. rank current ≤ rank t)) e tt),
  )
  escalated_to_ratchet current (s ∷ ss) e h =
      let target = most_severe s ss in
      let (first, rest) = most_severe-IsMinimum s ss in
      elim (Bool-cases (is_more_severe target current)) [
        | inl worse ↦ inr (
          target,
          sym (ok_value (rw (worse, ◌>>=◌) at h)),
          sym (ok_state (rw (worse, ◌>>=◌) at h)),
          is_more_severe→lt target current worse,
          fired-Some target rules (subst (Some (λ t. t ≡ target)) e (most_severe-Some s ss)),
          fired-All (rank target) rules (subst (All (λ t. rank target ≤ rank t)) e (first, rest)),
        )
        | inr milder ↦
            let le = not_more_severe→le target current milder in
            inl (
              sym (ok_value (rw milder at h)),
              sym (ok_state (rw milder at h)),
              fired-All (rank current) rules (
                  subst (All (λ t. rank current ≤ rank t)) e (
                    omega arith,
                    All-mono {P = λ t. rank target ≤ rank t} {Q = λ t. rank current ≤ rank t}
                        (λ t k. omega arith) ss rest,
                  )),
            )
      ]

-- Where an escalation succeeds for an incident of a known severity, either nothing changes, and
-- every rule whose burst of alerts is there asks for no more than the present severity; or the
-- severity becomes a strictly worse one, the target of such a rule and the most severe of theirs,
-- the incident's row has it, one audit record says so, and the tables are otherwise as they were.
pub escalate_ratchets :
    (fresh : Fresh) (rules : List EscalationRule) (i : Incident) (correlation_id : UuidNumber)
    (payload : AlertNormalizedPayload) (db : Db) (current : Severity)
    (out : Incident × Option Severity) (db' : Db)
    → of_value i.severity ≡ some current
    → escalate fresh rules i correlation_id payload db ≡ ok (out, db')
    → IsRatchet fresh rules i correlation_id payload db current out db'
unfolding escalate fired
escalate_ratchets fresh [] i correlation_id payload db current out db' known h =
    inl (sym (ok_value h), sym (ok_state h), tt)
escalate_ratchets fresh (rule ∷ rules) i correlation_id payload db current out db' known h =
    escalated_to_ratchet fresh (rule ∷ rules) i correlation_id payload db current
      (fired i.id payload.received_at db (rule ∷ rules)) refl (rw (known, ◌>>=◌) at h)
