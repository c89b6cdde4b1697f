-- ===== src/Reasoner/Race.antt =====
-- What the recovery of a lost insert records, and what it cannot tell apart.
use radar_system.Prelude.{
  ◌≡◌, refl, ap, ◌∙◌, Bool, true, false, not, ◌||◌, none, some, [], ◌∷◌, ◌++◌, ◌==◌, any, eq_iff,
  if◌then◌else◌,
}
use radar_system.Contracts.{
  ContextBundle, EventEnvelope, ReasoningRequestedPayload, reasoning_requested,
}
use radar_system.Database.Tables.{Incident, InvestigationPlan, Recommendation, Db}
use radar_system.Database.Tx.{Result, ok, err, integrity_error, ◌>>=◌}
use radar_system.Database.Repository.{incident_by_id, is_already_processed}
use radar_system.Database.Repository.Marker.{mark_once, with_marker}
use radar_system.Reasoner.Fallback.{ReasoningOutcome}
use radar_system.Reasoner.Context.{available, plan_by_id, build_context_bundle}
use radar_system.Reasoner.Storage.{
  Fresh, existing_recommendation, race_audit, new_recommendation, add_recommendation,
  store_recommendation,
}
use radar_system.Reasoner.Routes.{
  Services, service_name, already_recommended, parse_payload, recover, recovered, absorb_race,
  store_and_mark, stored, store_outcome, reason_with, reason_over, handle_parsed, receive_event,
}

module _ (fresh : Fresh) (envelope : EventEnvelope) (payload : ReasoningRequestedPayload)
    (later db : Db) where
  -- the tables after the recovery transaction
  abbrev pub race_recorded : Db
  race_recorded = with_marker envelope.event_id service_name (record db {
    audit_log = db.audit_log ++ race_audit payload.incident_id envelope.correlation_id ∷ [];
  })

  absorbed :
      is_already_processed envelope.event_id service_name db ≡ false
      → absorb_race envelope payload db ≡ (already_recommended, race_recorded)
  unfolding absorb_race is_already_processed
  absorbed new =
      let wrote : recover envelope payload db ≡ ok (tt, race_recorded) =
        mark_once envelope.event_id service_name (record db {
          audit_log = db.audit_log ++ race_audit payload.incident_id envelope.correlation_id ∷ [];
        })
        ∙ ap {A = Bool} {B = Result {0} (Unit × Db)}
            (λ b. if b then err integrity_error else ok (tt, race_recorded)) new in
      rw new (ap (recovered db) wrote)

  store_refused :
      (outcome : ReasoningOutcome) (incident : Incident) (plan : InvestigationPlan)
      → incident_by_id payload.incident_id later ≡ some incident
      → plan_by_id payload.plan_id later ≡ some plan
      → existing_recommendation payload.incident_id later ≡ none
      → add_recommendation
          (new_recommendation fresh envelope.correlation_id payload.incident_id payload.plan_id
            outcome)
          db
        ≡ err integrity_error
      → store_and_mark fresh envelope payload outcome later db ≡ err integrity_error
  unfolding store_recommendation
  store_refused outcome incident plan known planned unmade refused =
      rw (known, planned, unmade, ◌>>=◌, refused) refl

  refused :
      (outcome : ReasoningOutcome)
      → (any
            (λ (r : Recommendation).
              r.incident_id == payload.incident_id || r.id == fresh.recommendation_id)
            db.recommendations
          || (not (any (λ (i : Incident). i.id == payload.incident_id) db.incidents)
              || not (
                  any (λ (p : InvestigationPlan). p.id == payload.plan_id) db.investigation_plans)))
        ≡ true
      → add_recommendation
          (new_recommendation fresh envelope.correlation_id payload.incident_id payload.plan_id
            outcome)
          db
        ≡ err integrity_error
  unfolding add_recommendation
  refused outcome h = rw h refl

module _ {J : Type 0} (services : Services J) (fresh : Fresh) (envelope : EventEnvelope)
    (payload : ReasoningRequestedPayload) (bundle : ContextBundle) (outcome : ReasoningOutcome)
    (incident : Incident) (plan : InvestigationPlan) (seen later db : Db) where
  -- A new request whose pre-check found the incident, the plan and no recommendation, and whose
  -- insert is refused by the commit, because a recommendation of the incident (or of the new id) is
  -- there by then or because the incident or the plan is not there any more, is answered as already
  -- recommended: its audit record and its marker are written, and neither a recommendation nor an
  -- event is.
  pub refused_insert_absorbed :
      envelope.event_type ≡ "incident.reasoning_requested"
      → envelope.payload ≡ reasoning_requested payload
      → is_already_processed envelope.event_id service_name seen ≡ false
      → is_already_processed envelope.event_id service_name db ≡ false
      → build_context_bundle services.lower payload.incident_id payload.plan_id seen
        ≡ available bundle
      → reason_with services bundle services.knowledge ≡ some outcome
      → incident_by_id payload.incident_id later ≡ some incident
      → plan_by_id payload.plan_id later ≡ some plan
      → existing_recommendation payload.incident_id later ≡ none
      → (any
            (λ (r : Recommendation).
              r.incident_id == payload.incident_id || r.id == fresh.recommendation_id)
            db.recommendations
          || (not (any (λ (i : Incident). i.id == payload.incident_id) db.incidents)
              || not (
                  any (λ (p : InvestigationPlan). p.id == payload.plan_id) db.investigation_plans)))
        ≡ true
      → receive_event (some services) fresh envelope seen later db
        ≡ (already_recommended, race_recorded fresh envelope payload later db)
  unfolding receive_event
  refused_insert_absorbed kind body unseen new context made known planned unmade conflict =
      rw (unseen, (eq_iff envelope.event_type "incident.reasoning_requested").1 kind)
        (ap (λ b. handle_parsed services fresh envelope (parse_payload b) seen later db) body
          ∙ ap (λ c. reason_over services fresh envelope payload c later db) context
          ∙ ap (λ o. store_outcome fresh envelope payload o later db) made
          ∙ ap (stored envelope payload db) (
              store_refused fresh envelope payload later db outcome incident plan known planned
                unmade (refused fresh envelope payload later db outcome conflict))
          ∙ absorbed fresh envelope payload later db new)
