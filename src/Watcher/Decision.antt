-- ===== src/Watcher/Decision.antt =====
-- When an alert asks for a plan, and what the outbox gains.
use radar_system.Prelude.{
  ℕ, ◌≡◌, refl, sym, ap, subst, ◌∙◌, Bool, true, false, not, ◌||◌, Option, none, some, List, [],
  ◌∷◌, ◌++◌, if◌then◌else◌, Bool-cases, inl, inr, ◌==◌, ◌↔◌, any, append-nil,
}
use radar_system.Contracts.{
  UuidNumber, Severity, of_value, is_more_severe, AlertNormalizedPayload, plan_requested,
}
use radar_system.Database.Tables.{Incident, Db, OutboxEvent}
use radar_system.Database.Tx.{
  Tx, gets, Result, ok, add_audit, ok_state, ok_value, raise-ne-ok, >>=-ok, value_error,
  integrity_error, ◌>>=◌, ◌>>◌, pure,
}
use radar_system.Database.Outbox.{fresh_row, write_outbox_event}
use radar_system.Database.Repository.{incident_by_id}
use radar_system.Watcher.Rules.{CorrelationRules, EscalationRule}
use radar_system.Watcher.Suppression.{
  IsSuppressed, cooled, suppressed_by-IsSuppressed, suppressed_by_kept,
}
use radar_system.Watcher.Correlation.{
  Fresh, CorrelationOutcome, audit, most_severe, write_escalation, escalate_to, with_current, fired,
  escalate, escalated, suppressed_by, request_plan, decide_new, decide, correlate,
}

-- The event that starts an investigation of the incident.
abbrev pub plan_row : Fresh → UuidNumber → AlertNormalizedPayload → Incident → OutboxEvent
plan_row fresh correlation_id payload i =
    fresh_row fresh.outbox_id fresh.event_id "incident.plan_requested" "planner-agent"
      (plan_requested (record {
        incident_id = i.id;
        service_name = i.service_name;
        alert_name = payload.alert_name;
      }))
      correlation_id fresh.now

-- What the alert of an incident comes to: the outcome's flags, and the outbox afterwards.
abbrev pub IsDecided :
    Fresh
    → CorrelationRules
    → UuidNumber
    → AlertNormalizedPayload
    → Incident
    → CorrelationOutcome
    → Db
    → Db
    → Type 0
IsDecided fresh rules correlation_id payload i o db db' =
    (o.incident_id ≡ i.id)
    × ((o.suppressed ≡ true) ↔ ((payload.deduplicated ≡ false) × IsSuppressed rules i payload db))
    × (o.plan_requested ≡ not (payload.deduplicated || o.suppressed))
    × (db'.outbox_events
        ≡ db.outbox_events
          ++ (if o.plan_requested then plan_row fresh correlation_id payload i ∷ [] else []))

-- The same, with the code's own test of the suppression.
abbrev IsFlagged :
    Fresh
    → UuidNumber
    → AlertNormalizedPayload
    → Incident
    → Option ℕ
    → CorrelationOutcome
    → Db
    → Db
    → Type 0
IsFlagged fresh correlation_id payload i by o db db' =
    (o.incident_id ≡ i.id)
    × (o.suppressed ≡ (if payload.deduplicated then false else cooled by))
    × (o.plan_requested ≡ not (payload.deduplicated || o.suppressed))
    × (db'.outbox_events
        ≡ db.outbox_events
          ++ (if o.plan_requested then plan_row fresh correlation_id payload i ∷ [] else []))

flag_iff :
    {S : Type 0} (b again : Bool) (o : Option ℕ)
    → b ≡ (if again then false else cooled o)
    → (cooled o ≡ true) ↔ S
    → (b ≡ true) ↔ ((again ≡ false) × S)
flag_iff b true o e s = (λ h. cc (sym e ∙ h), λ (f, x). cc f)
flag_iff b false o e s = (λ h. (refl, s.0 (sym e ∙ h)), λ (f, x). e ∙ s.1 x)

-- What an escalation leaves alone.
abbrev IsKept : AlertNormalizedPayload → Incident → Db → Incident × Option Severity → Db → Type 0
IsKept payload i db out db' =
    (out.0.id ≡ i.id)
    × (out.0.service_name ≡ i.service_name)
    × (db'.outbox_events ≡ db.outbox_events)
    × ((rules : CorrelationRules)
        → suppressed_by rules out.0 payload db' ≡ suppressed_by rules i payload db)

module _ (fresh : Fresh) (i : Incident) (correlation_id : UuidNumber)
    (payload : AlertNormalizedPayload) (db : Db) {out : Incident × Option Severity} {db' : Db} where
  unchanged :
      ◌≡◌ {A = Result ((Incident × Option Severity) × Db)} (ok ((i, none), db)) (ok (out, db'))
      → IsKept payload i db out db'
  unchanged h =
      subst (λ o. IsKept payload i db o db') (ok_value h)
        (subst (IsKept payload i db (i, none)) (ok_state h) (refl, refl, refl, λ rules. refl))

  write-IsKept :
      (current target : Severity)
      → write_escalation fresh i correlation_id payload current target db ≡ ok (out, db')
      → IsKept payload i db out db'
  unfolding write_escalation
  write-IsKept current target h =
      let worse = escalated target fresh.utcnow i in
      subst (λ o. IsKept payload i db o db') (ok_value h)
        (subst (IsKept payload i db (worse, some target)) (ok_state h)
          (refl, refl, refl, λ rules. suppressed_by_kept i worse payload db _ refl refl rules))

  escalate_to-IsKept :
      (current : Severity) (targets : List Severity)
      → escalate_to fresh i correlation_id payload current targets db ≡ ok (out, db')
      → IsKept payload i db out db'
  escalate_to-IsKept current [] h = unchanged h
  escalate_to-IsKept current (s ∷ ss) h =
      elim (Bool-cases (is_more_severe (most_severe s ss) current)) [
        | inl worse ↦ write-IsKept current (most_severe s ss) (rw worse at h)
        | inr milder ↦ unchanged (rw milder at h)
      ]

  with_current-IsKept :
      (rules : List EscalationRule) (current : Option Severity)
      → with_current fresh rules i correlation_id payload current db ≡ ok (out, db')
      → IsKept payload i db out db'
  with_current-IsKept rules none h = absurd (raise-ne-ok {x = value_error} h)
  with_current-IsKept rules (some current) h =
      escalate_to-IsKept current (fired i.id payload.received_at db rules) h

  escalate-IsKept :
      (rules : List EscalationRule)
      → escalate fresh rules i correlation_id payload db ≡ ok (out, db')
      → IsKept payload i db out db'
  unfolding escalate
  escalate-IsKept [] h = unchanged h
  escalate-IsKept (rule ∷ rules) h = with_current-IsKept (rule ∷ rules) (of_value i.severity) h

module _ (fresh : Fresh) (correlation_id : UuidNumber) (payload : AlertNormalizedPayload) where
  requested :
      (i : Incident) (db : Db) {row : OutboxEvent} {db' : Db}
      → request_plan fresh i correlation_id payload db ≡ ok (row, db')
      → db'.outbox_events ≡ db.outbox_events ++ plan_row fresh correlation_id payload i ∷ []
  unfolding request_plan write_outbox_event
  requested i db h =
      elim (Bool-cases (
        any (λ (e : OutboxEvent). e.event_id == fresh.event_id || e.id == fresh.outbox_id)
          db.outbox_events)) [
            | inl taken ↦ absurd (raise-ne-ok {x = integrity_error} (rw taken at h))
            | inr free ↦ ap (λ (t : Db). t.outbox_events) (sym (ok_state (rw free at h)))
          ]

  decide_new-IsFlagged :
      (i : Incident) (raised : Option Severity) (by : Option ℕ) (db : Db) {o : CorrelationOutcome}
      {db' : Db}
      → payload.deduplicated ≡ false
      → decide_new fresh i correlation_id payload raised by db ≡ ok (o, db')
      → IsFlagged fresh correlation_id payload i by o db db'
  unfolding decide_new
  decide_new-IsFlagged i raised (some cooldown) db {o} {db'} first h =
      subst (λ x. IsFlagged fresh correlation_id payload i (some cooldown) x db db') (ok_value h)
        (subst
          (IsFlagged fresh correlation_id payload i (some cooldown)
            (record {
              incident_id = i.id;
              plan_requested = false;
              suppressed = true;
              escalated_to = raised;
            })
            db)
          (ok_state h) (refl, rw first refl, rw first refl, sym (append-nil db.outbox_events)))
  decide_new-IsFlagged i raised none db {o} {db'} first h =
      let (row, t, wrote, later) =
        >>=-ok (request_plan fresh i correlation_id payload) (λ _. decided) db h in
      subst (λ x. IsFlagged fresh correlation_id payload i none x db db') (ok_value later)
        (
          refl,
          rw first refl,
          rw first refl,
          ap (λ (t : Db). t.outbox_events) (sym (ok_state later)) ∙ requested i db wrote,
        )
    where
      outcome : CorrelationOutcome
      outcome = record {
        incident_id = i.id;
        plan_requested = true;
        suppressed = false;
        escalated_to = raised;
      }

      decided : Tx CorrelationOutcome
      decided =
          add_audit (audit "watcher.plan_requested" i correlation_id payload []) >> pure outcome

  decide-IsFlagged :
      (rules : CorrelationRules) (i : Incident) (raised : Option Severity) (db : Db)
      {o : CorrelationOutcome} {db' : Db}
      → decide fresh rules correlation_id payload (i, raised) db ≡ ok (o, db')
      → IsFlagged fresh correlation_id payload i (suppressed_by rules i payload db) o db db'
  unfolding decide
  decide-IsFlagged rules i raised db {o} {db'} h = elim (Bool-cases payload.deduplicated) [
    | inl again ↦
        let k = rw again at h in
        subst
          (λ x.
            IsFlagged fresh correlation_id payload i (suppressed_by rules i payload db) x db db')
          (ok_value k)
          (
            refl,
            rw again refl,
            rw again refl,
            ap (λ (t : Db). t.outbox_events) (sym (ok_state k)) ∙ sym (append-nil db.outbox_events),
          )
    | inr first ↦ decide_new-IsFlagged i raised (suppressed_by rules i payload db) db first (
        sym (
          ap
            (λ b.
              (if b
                  then attached
                  else (gets (suppressed_by rules i payload)
                      >>= decide_new fresh i correlation_id payload raised))
                db)
            first)
        ∙ h)
  ]
    where
      attached : Tx CorrelationOutcome
      attached =
          add_audit (audit "watcher.alert_attached" i correlation_id payload [])
          >> pure (record {
            incident_id = i.id;
            plan_requested = false;
            suppressed = false;
            escalated_to = raised;
          })

  -- the outbox, when a request for one incident row is a request for another
  same_request :
      (j i : Incident) (asked : Bool) (s t : List OutboxEvent)
      → j.id ≡ i.id
      → j.service_name ≡ i.service_name
      → s ≡ t
      → s ++ (if asked then plan_row fresh correlation_id payload j ∷ [] else [])
        ≡ t ++ (if asked then plan_row fresh correlation_id payload i ∷ [] else [])
  same_request j i true s t a b c = rw (a, b, c) refl
  same_request j i false s t a b c = rw c refl

  -- Where `correlate` succeeds for an incident that exists, the outcome says suppressed exactly
  -- when the alert is not a duplicate and another incident with an alert of the same service and
  -- name was opened before, inside the cooldown of the rule for the alert. It asks for a plan
  -- exactly when the alert is neither a duplicate nor suppressed; the outbox then gains that one
  -- request, and is unchanged in every other case.
  pub correlate_decides :
      (rules : CorrelationRules) (i : Incident) (db : Db) (o : CorrelationOutcome) (db' : Db)
      → incident_by_id payload.incident_id db ≡ some i
      → correlate fresh rules correlation_id payload db ≡ ok (o, db')
      → IsDecided fresh rules correlation_id payload i o db db'
  unfolding correlate
  correlate_decides rules i db o db' found h =
      let k = rw (found, ◌>>=◌) at h in
      let (raised, t, rose, later) =
        >>=-ok (escalate fresh rules.escalation i correlation_id payload)
          (decide fresh rules correlation_id payload) db k in
      let (same_id, same_service, same_outbox, same_test) =
        escalate-IsKept fresh i correlation_id payload db rules.escalation rose in
      let (d0, d1, d2, d3) = decide-IsFlagged rules raised.0 raised.1 t later in
      (
        d0 ∙ same_id,
        flag_iff o.suppressed payload.deduplicated (suppressed_by rules i payload db)
            (d1 ∙ ap (λ by. if payload.deduplicated then false else cooled by) (same_test rules))
            (suppressed_by-IsSuppressed rules i payload db),
        d2,
        d3
            ∙ same_request raised.0 i o.plan_requested t.outbox_events db.outbox_events same_id
                same_service same_outbox,
      )
