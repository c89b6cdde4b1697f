-- ===== src/Planner/Single.antt =====
-- One plan for an incident, whatever the reads saw.
use radar_system.Prelude.{
  ◌≡◌, refl, ap, subst, ◌∙◌, false, ◌||◌, Option, none, some, [], ◌∷◌, ◌++◌, Bool-cases, inl, inr,
  ◌==◌, any, any-or_left, str_eq, HasUniqueKeys, snoc-HasUniqueKeys,
}
use radar_system.Contracts.{UuidNumber, reasoning_requested, EventEnvelope, PlanRequestedPayload}
use radar_system.Database.Tables.{Incident, InvestigationPlan, Db}
use radar_system.Database.Tx.{
  Tx, Result, ok, err, ok_state, raise-ne-ok, >>=-ok, not_found, invalid_state_transition,
  incident_not_found, integrity_error, key_error, value_error, runtime_error, notification_failed,
  plan_not_found, pure, add_audit, ◌>>=◌,
}
use radar_system.Database.Repository.{incident_by_id, is_already_processed, mark_processed}
use radar_system.Database.Outbox.Written.{write_ok_state}
use radar_system.Database.Repository.Marker.{mark_ok_state}
use radar_system.Planner.Templates.{PlanTemplates, TemplateMatch, match_template}
use radar_system.Planner.Planning.{
  is_orphan, Fresh, PlanningOutcome, existing_plan, add_plan, new_plan, or_key_error,
  request_reasoning, created_audit, finish_plan, create_plan, plan_after, or_gone, plan_incident,
  duplicate_audit,
}
use radar_system.Planner.Routes.{
  service_name, parse_payload, recover, recovered, absorb_duplicate, plan_and_mark, planned,
  handle_parsed, marked_ignored, receive_event,
}

abbrev pub incident_of : InvestigationPlan → UuidNumber
incident_of p = p.incident_id

-- No incident has two plans.
abbrev pub IsSingle : Db → Type 0
IsSingle db = HasUniqueKeys incident_of db.investigation_plans

same_plans-IsSingle :
    (s t : Db) → s.investigation_plans ≡ t.investigation_plans → IsSingle s → IsSingle t
same_plans-IsSingle s t e h = subst (HasUniqueKeys incident_of) e h

add_plan-IsSingle :
    (plan : InvestigationPlan) (db : Db) {u : Unit} {db' : Db}
    → add_plan plan db ≡ ok (u, db')
    → IsSingle db
    → IsSingle db'
unfolding add_plan
add_plan-IsSingle plan db h s =
    elim (Bool-cases (
      any (λ (p : InvestigationPlan). p.incident_id == plan.incident_id || p.id == plan.id)
        db.investigation_plans)) [
          | inl taken ↦ absurd (raise-ne-ok {x = integrity_error} (rw taken at h))
          | inr free ↦ elim (Bool-cases (is_orphan plan db)) [
            | inl gone ↦ absurd (raise-ne-ok {x = integrity_error} (rw (free, gone) at h))
            | inr there ↦ subst IsSingle (ok_state (rw (free, there) at h)) (
                snoc-HasUniqueKeys incident_of db.investigation_plans plan
                  (any-or_left (λ (p : InvestigationPlan). p.incident_id == plan.incident_id)
                    (λ (p : InvestigationPlan). p.id == plan.id) db.investigation_plans free)
                  s)
          ]
        ]

module _ (fresh : Fresh) (templates : PlanTemplates) (c : UuidNumber)
    (payload : PlanRequestedPayload) where
  create-IsSingle :
      (found : TemplateMatch) (db : Db) {out : PlanningOutcome} {db' : Db}
      → create_plan fresh c payload found db ≡ ok (out, db')
      → IsSingle db
      → IsSingle db'
  create-IsSingle found db {db' = db'} h s =
      let (_, t, added, later) =
        >>=-ok (add_plan (new_plan fresh c payload found)) (λ _. finish_plan fresh c payload found)
          db h in
      let (_, t', wrote, last) =
        >>=-ok (request_reasoning fresh c payload)
          (λ _. add_audit (created_audit fresh c payload found) >>= λ _. pure (outcome found)) t
          later in
      same_plans-IsSingle t db'
        (ap (λ (t : Db). t.investigation_plans)
            (write_ok_state fresh.outbox_id fresh.event_id "incident.reasoning_requested"
              "reasoner-agent"
              (reasoning_requested
                (record { incident_id = payload.incident_id; plan_id = fresh.plan_id }))
              c fresh.now t wrote)
          ∙ ap (λ (t : Db). t.investigation_plans) (ok_state last))
        (add_plan-IsSingle (new_plan fresh c payload found) db added s)
    where
      outcome : TemplateMatch → PlanningOutcome
      outcome found = record {
        incident_id = payload.incident_id;
        plan_id = fresh.plan_id;
        template_key = found.key;
        is_default = found.is_default;
        duplicate = false;
      }

  matched-IsSingle :
      (o : Option TemplateMatch) (db : Db) {out : PlanningOutcome} {db' : Db}
      → (or_key_error o >>= create_plan fresh c payload) db ≡ ok (out, db')
      → IsSingle db
      → IsSingle db'
  matched-IsSingle none db h s = absurd (raise-ne-ok {x = key_error} h)
  matched-IsSingle (some found) db h s = create-IsSingle found db h s

  plan_after-IsSingle :
      (existing : Option InvestigationPlan) (db : Db) {out : PlanningOutcome} {db' : Db}
      → plan_after fresh templates c payload existing db ≡ ok (out, db')
      → IsSingle db
      → IsSingle db'
  plan_after-IsSingle (some existing) db {db' = db'} h s =
      same_plans-IsSingle db db' (ap (λ (t : Db). t.investigation_plans) (ok_state h)) s
  plan_after-IsSingle none db h s =
      matched-IsSingle (match_template templates payload.service_name payload.alert_name) db h s

  plan_incident-IsSingle :
      (seen db : Db) {out : PlanningOutcome} {db' : Db}
      → plan_incident fresh templates c payload seen db ≡ ok (out, db')
      → IsSingle db
      → IsSingle db'
  unfolding plan_incident
  plan_incident-IsSingle seen db {db' = db'} h s =
      by_incident (incident_by_id payload.incident_id seen) h
    where
      rest : Tx PlanningOutcome
      rest = plan_after fresh templates c payload (existing_plan payload.incident_id seen)

      by_incident :
          {out : PlanningOutcome} (o : Option Incident)
          → (or_gone payload.incident_id o >>= λ _. rest) db ≡ ok (out, db')
          → IsSingle db'
      by_incident none k = absurd (raise-ne-ok {x = incident_not_found payload.incident_id} k)
      by_incident (some i) k = plan_after-IsSingle (existing_plan payload.incident_id seen) db k s

recover-IsSingle :
    (envelope : EventEnvelope) (payload : PlanRequestedPayload) (db : Db)
    (r : Result {0} (Unit × Db))
    → recover envelope payload db ≡ r
    → IsSingle db
    → IsSingle (recovered db r).1
recover-IsSingle envelope payload db (err x) e s = s
recover-IsSingle envelope payload db (ok (u, db')) e s =
    same_plans-IsSingle db db'
      (ap (λ (t : Db). t.investigation_plans)
        (mark_ok_state envelope.event_id service_name
          (record db {
            audit_log = db.audit_log ++ duplicate_audit envelope.correlation_id payload ∷ [];
          })
          e))
      s

absorb-IsSingle :
    (envelope : EventEnvelope) (payload : PlanRequestedPayload) (db : Db)
    → IsSingle db
    → IsSingle (absorb_duplicate envelope payload db).1
unfolding absorb_duplicate
absorb-IsSingle envelope payload db s =
    elim (Bool-cases (is_already_processed envelope.event_id service_name db)) [
      | inl known ↦ rw known s
      | inr new ↦ rw new (recover-IsSingle envelope payload db (recover envelope payload db) refl s)
    ]

planned-IsSingle :
    (envelope : EventEnvelope) (payload : PlanRequestedPayload) (db : Db)
    (r : Result (PlanningOutcome × Db))
    → ((o : PlanningOutcome) (db' : Db) → r ≡ ok (o, db') → IsSingle db')
    → IsSingle db
    → IsSingle (planned envelope payload db r).1
planned-IsSingle envelope payload db (ok (o, db')) h s = h o db' refl
planned-IsSingle envelope payload db (err (incident_not_found id)) h s = s
planned-IsSingle envelope payload db (err integrity_error) h s =
    absorb-IsSingle envelope payload db s
planned-IsSingle envelope payload db (err (not_found id)) h s = s
planned-IsSingle envelope payload db (err (invalid_state_transition a b id)) h s = s
planned-IsSingle envelope payload db (err key_error) h s = s
planned-IsSingle envelope payload db (err value_error) h s = s
planned-IsSingle envelope payload db (err runtime_error) h s = s
planned-IsSingle envelope payload db (err (plan_not_found id)) h s = s
planned-IsSingle envelope payload db (err notification_failed) h s = s

module _ (fresh : Fresh) (templates : PlanTemplates) (envelope : EventEnvelope) (seen db : Db) where
  plan_and_mark-IsSingle :
      (payload : PlanRequestedPayload) (o : PlanningOutcome) (db' : Db)
      → plan_and_mark fresh templates envelope payload seen db ≡ ok (o, db')
      → IsSingle db
      → IsSingle db'
  plan_and_mark-IsSingle payload o db' h s =
      let (o', t, made, later) =
        >>=-ok (plan_incident fresh templates envelope.correlation_id payload seen)
          (λ o. mark_processed envelope.event_id service_name >>= λ _. pure o) db h in
      let (u, t', marked, last) =
        >>=-ok (mark_processed envelope.event_id service_name) (λ _. pure o') t later in
      same_plans-IsSingle t db'
        (ap (λ (t : Db). t.investigation_plans)
            (mark_ok_state envelope.event_id service_name t marked)
          ∙ ap (λ (t : Db). t.investigation_plans) (ok_state last))
        (plan_incident-IsSingle fresh templates envelope.correlation_id payload seen db made s)

  parsed-IsSingle :
      (o : Option PlanRequestedPayload)
      → IsSingle db
      → IsSingle (handle_parsed fresh templates envelope o seen db).1
  parsed-IsSingle none s = s
  parsed-IsSingle (some payload) s =
      planned-IsSingle envelope payload db (plan_and_mark fresh templates envelope payload seen db)
        (λ o db' h. plan_and_mark-IsSingle payload o db' h s) s

  ignored-IsSingle :
      (r : Result {0} (Unit × Db))
      → mark_processed envelope.event_id service_name db ≡ r
      → IsSingle db
      → IsSingle (marked_ignored db r).1
  ignored-IsSingle (err x) e s = s
  ignored-IsSingle (ok (u, db')) e s =
      same_plans-IsSingle db db'
        (ap (λ (t : Db). t.investigation_plans) (mark_ok_state envelope.event_id service_name db e))
        s

  -- Whatever the reads of a delivery saw, and whatever was committed since, the delivery leaves no
  -- incident with two plans, where none had two before.
  pub receive_event-IsSingle :
      IsSingle db → IsSingle (receive_event fresh (some templates) envelope seen db).1
  unfolding receive_event
  receive_event-IsSingle s =
      elim (Bool-cases (is_already_processed envelope.event_id service_name seen)) [
        | inl known ↦ rw known s
        | inr new ↦ elim (Bool-cases (str_eq envelope.event_type "incident.plan_requested")) [
          | inl e ↦ rw (new, e) (parsed-IsSingle (parse_payload envelope.payload) s)
          | inr e ↦
              rw (new, e)
                (ignored-IsSingle (mark_processed envelope.event_id service_name db) refl s)
        ]
      ]
