-- ===== src/Planner/Race.antt =====
-- The lost race: another delivery plans the incident between the pre-check and the insert.
use radar_system.Prelude.{
  ◌≡◌, refl, ap, ◌∙◌, Bool, true, false, none, some, [], ◌∷◌, ◌++◌, if◌then◌else◌, ◌==◌, any,
  any-or_true, eq_iff,
}
use radar_system.Contracts.{EventEnvelope, PlanRequestedPayload, plan_requested}
use radar_system.Database.Tables.{Incident, InvestigationPlan, Db}
use radar_system.Database.Tx.{Result, ok, err, integrity_error, pure, ◌>>=◌, >>=-err}
use radar_system.Database.Repository.{incident_by_id, is_already_processed, mark_processed}
use radar_system.Database.Repository.Marker.{mark_once, with_marker}
use radar_system.Planner.Templates.{PlanTemplates, TemplateMatch, match_template}
use radar_system.Planner.Planning.{
  Fresh, existing_plan, add_plan, new_plan, create_plan, finish_plan, plan_incident,
  duplicate_audit,
}
use radar_system.Planner.Routes.{
  service_name, already_planned, parse_payload, recover, recovered, absorb_duplicate, plan_and_mark,
  planned, handle_parsed, receive_event,
}

module _ (fresh : Fresh) (templates : PlanTemplates) (envelope : EventEnvelope)
    (payload : PlanRequestedPayload) (seen db : Db) where
  -- the tables after the recovery transaction
  abbrev pub race_recorded : Db
  race_recorded = with_marker envelope.event_id service_name (record db {
    audit_log = db.audit_log ++ duplicate_audit envelope.correlation_id payload ∷ [];
  })

  insert_refused :
      (found : TemplateMatch)
      → any (λ (p : InvestigationPlan). p.incident_id == payload.incident_id) db.investigation_plans
        ≡ true
      → create_plan fresh envelope.correlation_id payload found db ≡ err integrity_error
  unfolding add_plan
  insert_refused found taken =
      >>=-err (add_plan (new_plan fresh envelope.correlation_id payload found))
        (λ _. finish_plan fresh envelope.correlation_id payload found) db
        (rw
          (any-or_true (λ (p : InvestigationPlan). p.incident_id == payload.incident_id)
            (λ (p : InvestigationPlan). p.id == fresh.plan_id) db.investigation_plans taken)
          refl)

  absorbed :
      is_already_processed envelope.event_id service_name db ≡ false
      → absorb_duplicate envelope payload db ≡ (already_planned, race_recorded)
  unfolding absorb_duplicate is_already_processed
  absorbed new =
      let wrote : recover envelope payload db ≡ ok (tt, race_recorded) =
        mark_once envelope.event_id service_name (record db {
          audit_log = db.audit_log ++ duplicate_audit envelope.correlation_id payload ∷ [];
        })
        ∙ ap {A = Bool} {B = Result {0} (Unit × Db)}
            (λ b. if b then err integrity_error else ok (tt, race_recorded)) new in
      rw new (ap (recovered db) wrote)

  plan_refused :
      (i : Incident) (found : TemplateMatch)
      → incident_by_id payload.incident_id seen ≡ some i
      → existing_plan payload.incident_id seen ≡ none
      → match_template templates payload.service_name payload.alert_name ≡ some found
      → any (λ (p : InvestigationPlan). p.incident_id == payload.incident_id) db.investigation_plans
        ≡ true
      → plan_and_mark fresh templates envelope payload seen db ≡ err integrity_error
  unfolding plan_incident
  plan_refused i found known unplanned matched taken =
      >>=-err (plan_incident fresh templates envelope.correlation_id payload seen)
        (λ o. mark_processed envelope.event_id service_name >>= λ _. pure o) db
        (rw (known, unplanned, matched, ◌>>=◌) (insert_refused found taken))

  -- A new request whose pre-check found no plan, while another delivery has committed one since, is
  -- absorbed: it is answered as already planned, its audit record and its marker are written in the
  -- recovery transaction, and neither a plan nor an event is.
  pub lost_race_absorbed :
      (i : Incident) (found : TemplateMatch)
      → envelope.event_type ≡ "incident.plan_requested"
      → envelope.payload ≡ plan_requested payload
      → is_already_processed envelope.event_id service_name seen ≡ false
      → is_already_processed envelope.event_id service_name db ≡ false
      → incident_by_id payload.incident_id seen ≡ some i
      → existing_plan payload.incident_id seen ≡ none
      → match_template templates payload.service_name payload.alert_name ≡ some found
      → any (λ (p : InvestigationPlan). p.incident_id == payload.incident_id) db.investigation_plans
        ≡ true
      → receive_event fresh (some templates) envelope seen db ≡ (already_planned, race_recorded)
  unfolding receive_event
  lost_race_absorbed i found kind body unseen new known unplanned matched taken =
      rw (unseen, (eq_iff envelope.event_type "incident.plan_requested").1 kind)
        (ap (λ b. handle_parsed fresh templates envelope (parse_payload b) seen db) body
          ∙ ap (planned envelope payload db) (plan_refused i found known unplanned matched taken)
          ∙ absorbed new)
