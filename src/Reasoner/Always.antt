-- ===== src/Reasoner/Always.antt =====
-- An incident always ends with a recommendation: whatever the remote calls came to.
use radar_system.Prelude.{
  ◌≡◌, refl, ap, ◌∙◌, Bool, true, false, ◌||◌, Option, none, some, [], ◌∷◌, ◌++◌, ◌==◌, any, eq_iff,
  if◌then◌else◌,
}
use radar_system.Contracts.{
  confidence_value, ContextBundle, EventEnvelope, ReasoningRequestedPayload, reasoning_requested,
  recommendation_created,
}
use radar_system.Database.Tables.{Incident, InvestigationPlan, Recommendation, OutboxEvent, Db}
use radar_system.Database.Tx.{Result, ok, err, integrity_error, pure, add_audit, ◌>>=◌, >>=-step}
use radar_system.Database.Outbox.{write_outbox_event}
use radar_system.Database.Outbox.Written.{with_event, write_new}
use radar_system.Database.Repository.{incident_by_id, is_already_processed, mark_processed}
use radar_system.Database.Repository.Marker.{mark_once, with_marker}
use radar_system.Reasoner.Llm.{complete}
use radar_system.Reasoner.Knowledge.{
  RetrievalOutcome, grounded, empty, unavailable, retrieval_of, with_context,
}
use radar_system.Reasoner.Fallback.{ReasoningOutcome}
use radar_system.Reasoner.Context.{available, plan_by_id, build_context_bundle}
use radar_system.Reasoner.Storage.{
  Fresh, StorageOutcome, existing_recommendation, created_audit, add_recommendation, announce,
  store_recommendation,
}
use radar_system.Reasoner.Routes.{
  KnowledgeApi, Services, service_name, processed, parse_payload, store_and_mark, stored,
  store_outcome, fetch_from, reason_with, reason_over, handle_parsed, receive_event,
}
use radar_system.Reasoner.Outcome.{is_unusable, IsActionable, resolve-IsFrom}

module _ {J : Type 0} (services : Services J) where
  grounded_steps :
      (o : RetrievalOutcome) (f : KnowledgeApi) (bundle : ContextBundle)
      → any is_unusable bundle.investigation_steps ≡ false
      → any is_unusable (with_context o (fetch_from f bundle).chunks bundle).investigation_steps
        ≡ false
  grounded_steps grounded f bundle h = h
  grounded_steps empty f bundle h = h
  grounded_steps unavailable f bundle h = h

  reasons :
      (bundle : ContextBundle) (api : Option KnowledgeApi)
      → any is_unusable bundle.investigation_steps ≡ false
      → (outcome : ReasoningOutcome) × (reason_with services bundle api ≡ some outcome)
        × IsActionable outcome.recommended_actions
  reasons bundle none h =
      let (o, made, actionable, _) =
        resolve-IsFrom services.rca bundle none h
          (complete services.post services.decode services.budget services.elapsed bundle) in
      (o, made, actionable)
  reasons bundle (some api) h =
      let f = fetch_from api bundle in
      let shown = with_context f.outcome f.chunks bundle in
      let (o, made, actionable, _) =
        resolve-IsFrom services.rca shown (some (retrieval_of f))
          (grounded_steps f.outcome api bundle h)
          (complete services.post services.decode services.budget services.elapsed shown) in
      (o, made, actionable)

module _ (fresh : Fresh) (envelope : EventEnvelope) (payload : ReasoningRequestedPayload)
    (db : Db) where
  -- What the write transaction needs of the tables that it meets.
  abbrev pub IsFree : Type 0
  IsFree =
      (any
          (λ (r : Recommendation).
            r.incident_id == payload.incident_id || r.id == fresh.recommendation_id)
          db.recommendations
        ≡ false)
      × (any (λ (i : Incident). i.id == payload.incident_id) db.incidents ≡ true)
      × (any (λ (p : InvestigationPlan). p.id == payload.plan_id) db.investigation_plans ≡ true)
      × (any (λ (e : OutboxEvent). e.event_id == fresh.event_id || e.id == fresh.outbox_id)
            db.outbox_events
          ≡ false)
      × (is_already_processed envelope.event_id service_name db ≡ false)

module _ (fresh : Fresh) (envelope : EventEnvelope) (payload : ReasoningRequestedPayload)
    (incident : Incident) (outcome : ReasoningOutcome) (db : Db) where
  -- The row that is wanted, column by column.
  abbrev pub new : Recommendation
  new = record {
    id = fresh.recommendation_id;
    incident_id = payload.incident_id;
    plan_id = payload.plan_id;
    correlation_id = envelope.correlation_id;
    llm_provider = outcome.llm_provider;
    model_alias = outcome.model_alias;
    model_id = outcome.model_id;
    root_cause = outcome.root_cause;
    confidence = confidence_value outcome.confidence;
    recommended_actions = outcome.recommended_actions;
    context_bundle = outcome.context_bundle;
    raw_llm_response = outcome.raw_llm_response;
    is_fallback = outcome.is_fallback;
    prompt_tokens = outcome.prompt_tokens;
    completion_tokens = outcome.completion_tokens;
    latency_ms = outcome.latency_ms;
    slack_message_ts = none;
    created_at = fresh.now;
  }

  -- The tables with the recommendation, its event, its audit record and the marker.
  abbrev with_recommendation : Db
  with_recommendation = record db { recommendations = db.recommendations ++ new ∷ [] }

  abbrev announced : Db
  announced =
      with_event fresh.outbox_id fresh.event_id "recommendation.created" "feedback-service"
        (recommendation_created (record {
          incident_id = payload.incident_id;
          recommendation_id = fresh.recommendation_id;
        }))
        envelope.correlation_id fresh.now with_recommendation

  abbrev pub recommended : Db
  recommended = with_marker envelope.event_id service_name (record announced {
    audit_log =
        announced.audit_log
        ++ created_audit fresh payload.incident_id envelope.correlation_id outcome ∷ [];
  })

  abbrev told : StorageOutcome
  told = record {
    recommendation_id = fresh.recommendation_id;
    duplicate = false;
    incident_opened_at = some incident.opened_at;
    recommendation_created_at = some fresh.now;
  }

  added :
      IsFree fresh envelope payload db → add_recommendation new db ≡ ok (tt, with_recommendation)
  unfolding add_recommendation
  added (free, known, planned, _, _) = rw (free, known, planned) refl

  told_and_marked :
      IsFree fresh envelope payload db
      → (announce fresh envelope.correlation_id incident outcome payload.incident_id >>= λ o.
            mark_processed envelope.event_id service_name >>= λ _. pure o)
          with_recommendation
        ≡ ok (told, recommended)
  unfolding is_already_processed
  told_and_marked (_, _, _, free, unseen) =
      let audited = record announced {
        audit_log =
            announced.audit_log
            ++ created_audit fresh payload.incident_id envelope.correlation_id outcome ∷ [];
      } in
      let marked : mark_processed envelope.event_id service_name audited ≡ ok (tt, recommended) =
        mark_once envelope.event_id service_name audited
        ∙ ap {A = Bool} {B = Result {0} (Unit × Db)}
            (λ b. if b then err integrity_error else ok (tt, recommended)) unseen in
      let said : announce fresh envelope.correlation_id incident outcome payload.incident_id
            with_recommendation
          ≡ ok (told, audited) =
        >>=-step
          (write_outbox_event fresh.outbox_id fresh.event_id "recommendation.created"
            "feedback-service"
            (recommendation_created (record {
              incident_id = payload.incident_id;
              recommendation_id = fresh.recommendation_id;
            }))
            envelope.correlation_id fresh.now)
          (λ _.
            add_audit (created_audit fresh payload.incident_id envelope.correlation_id outcome)
            >>= λ _. pure told)
          with_recommendation
          (write_new fresh.outbox_id fresh.event_id "recommendation.created" "feedback-service"
            (recommendation_created (record {
              incident_id = payload.incident_id;
              recommendation_id = fresh.recommendation_id;
            }))
            envelope.correlation_id fresh.now with_recommendation free) in
      >>=-step (announce fresh envelope.correlation_id incident outcome payload.incident_id)
        (λ o. mark_processed envelope.event_id service_name >>= λ _. pure o) with_recommendation
        said
      ∙ >>=-step (mark_processed envelope.event_id service_name) (λ _. pure told) audited marked

  stores :
      (plan : InvestigationPlan) (later : Db)
      → IsFree fresh envelope payload db
      → incident_by_id payload.incident_id later ≡ some incident
      → plan_by_id payload.plan_id later ≡ some plan
      → existing_recommendation payload.incident_id later ≡ none
      → store_and_mark fresh envelope payload outcome later db ≡ ok (told, recommended)
  unfolding store_recommendation
  stores plan later free known planned unmade =
      rw (known, planned, unmade, ◌>>=◌, added free) (told_and_marked free)

module _ {J : Type 0} (services : Services J) (fresh : Fresh) (envelope : EventEnvelope)
    (payload : ReasoningRequestedPayload) (bundle : ContextBundle) (incident : Incident)
    (plan : InvestigationPlan) (seen later db : Db) where
  -- A new request, whose context is there, ends with a stored recommendation of at least one
  -- well-formed action, whatever the gateway and the knowledge service came to: the row has the
  -- cause, the actions and the other columns of one outcome, and is stored with its event, its
  -- audit record and the marker. The steps of the plan have positive orders and descriptions, the
  -- second transaction sees the incident, the plan and no recommendation, and its writes meet no
  -- conflict.
  pub always_recommended :
      envelope.event_type ≡ "incident.reasoning_requested"
      → envelope.payload ≡ reasoning_requested payload
      → is_already_processed envelope.event_id service_name seen ≡ false
      → build_context_bundle services.lower payload.incident_id payload.plan_id seen
        ≡ available bundle
      → any is_unusable bundle.investigation_steps ≡ false
      → incident_by_id payload.incident_id later ≡ some incident
      → plan_by_id payload.plan_id later ≡ some plan
      → existing_recommendation payload.incident_id later ≡ none
      → IsFree fresh envelope payload db
      → (outcome : ReasoningOutcome) × IsActionable
          (new fresh envelope payload incident outcome db).recommended_actions
        × (receive_event (some services) fresh envelope seen later db
            ≡ (processed, recommended fresh envelope payload incident outcome db))
  unfolding receive_event
  always_recommended kind body unseen context usable known planned unmade free =
      let (outcome, made, actionable) = reasons services bundle services.knowledge usable in
      (
        outcome,
        actionable,
        rw (unseen, (eq_iff envelope.event_type "incident.reasoning_requested").1 kind)
            (ap (λ b. handle_parsed services fresh envelope (parse_payload b) seen later db) body
              ∙ ap (λ c. reason_over services fresh envelope payload c later db) context
              ∙ ap (λ o. store_outcome fresh envelope payload o later db) made
              ∙ ap (stored envelope payload db) (
                  stores fresh envelope payload incident outcome db plan later free known planned
                    unmade)),
      )
