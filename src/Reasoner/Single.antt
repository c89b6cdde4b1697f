-- ===== src/Reasoner/Single.antt =====
-- One recommendation for an incident, whatever the reads saw.
use radar_system.Prelude.{
  ◌≡◌, refl, ap, subst, ◌∙◌, false, Option, none, some, [], ◌∷◌, ◌++◌, Bool-cases, inl, inr, ◌==◌,
  any, any-or_left, str_eq, HasUniqueKeys, snoc-HasUniqueKeys,
}
use radar_system.Contracts.{
  UuidNumber, recommendation_created, EventEnvelope, ReasoningRequestedPayload,
}
use radar_system.Database.Tables.{Incident, InvestigationPlan, Recommendation, Db}
use radar_system.Database.Tx.{
  Result, ok, err, ok_state, raise-ne-ok, >>=-ok, not_found, invalid_state_transition,
  incident_not_found, plan_not_found, integrity_error, key_error, value_error, runtime_error,
  notification_failed, pure, add_audit, ◌>>=◌,
}
use radar_system.Database.Outbox.{write_outbox_event}
use radar_system.Database.Outbox.Written.{write_ok_state}
use radar_system.Database.Repository.{incident_by_id, is_already_processed, mark_processed}
use radar_system.Database.Repository.Marker.{mark_ok_state}
use radar_system.Reasoner.Fallback.{ReasoningOutcome}
use radar_system.Reasoner.Context.{
  Context, available, not_available, invalid, plan_by_id, build_context_bundle,
}
use radar_system.Reasoner.Storage.{
  Fresh, StorageOutcome, existing_recommendation, race_audit, created_audit, new_recommendation,
  is_taken, is_dangling, add_recommendation, announce, store_after, or_gone, or_plan_gone,
  store_recommendation,
}
use radar_system.Reasoner.Routes.{
  Services, service_name, parse_payload, recover, recovered, absorb_race, store_and_mark, stored,
  store_outcome, reason_with, reason_over, handle_parsed, marked_ignored, receive_event,
}

abbrev pub incident_of : Recommendation → UuidNumber
incident_of r = r.incident_id

-- No incident has two recommendations.
abbrev pub IsSingle : Db → Type 0
IsSingle db = HasUniqueKeys incident_of db.recommendations

same-IsSingle : (s t : Db) → s.recommendations ≡ t.recommendations → IsSingle s → IsSingle t
same-IsSingle s t e h = subst (HasUniqueKeys incident_of) e h

marked-IsSingle :
    (id : UuidNumber) (s t : Db) {u : Unit}
    → mark_processed id service_name s ≡ ok (u, t)
    → IsSingle s
    → IsSingle t
marked-IsSingle id s t h =
    same-IsSingle s t (ap (λ (t : Db). t.recommendations) (mark_ok_state id service_name s h))

add_recommendation-IsSingle :
    (new : Recommendation) (db : Db) {u : Unit} {db' : Db}
    → add_recommendation new db ≡ ok (u, db')
    → IsSingle db
    → IsSingle db'
unfolding add_recommendation
add_recommendation-IsSingle new db h s = elim (Bool-cases (any (is_taken new) db.recommendations)) [
  | inl taken ↦ absurd (raise-ne-ok {x = integrity_error} (rw taken at h))
  | inr free ↦ elim (Bool-cases (is_dangling new db)) [
    | inl bad ↦ absurd (raise-ne-ok {x = integrity_error} (rw (free, bad) at h))
    | inr good ↦ subst IsSingle (ok_state (rw (free, good) at h)) (
        snoc-HasUniqueKeys incident_of db.recommendations new
          (any-or_left (λ (r : Recommendation). r.incident_id == new.incident_id)
            (λ (r : Recommendation). r.id == new.id) db.recommendations free)
          s)
  ]
]

module _ (fresh : Fresh) (c incident_id plan_id : UuidNumber) (outcome : ReasoningOutcome) where
  announce-IsSingle :
      (i : Incident) (db : Db) {out : StorageOutcome} {db' : Db}
      → announce fresh c i outcome incident_id db ≡ ok (out, db')
      → IsSingle db
      → IsSingle db'
  announce-IsSingle i db {db' = db'} h s =
      let (_, t, wrote, last) =
        >>=-ok
          (write_outbox_event fresh.outbox_id fresh.event_id "recommendation.created"
            "feedback-service"
            (recommendation_created
              (record { incident_id = incident_id; recommendation_id = fresh.recommendation_id }))
            c fresh.now)
          (λ _. add_audit (created_audit fresh incident_id c outcome) >>= λ _. pure told) db h in
      same-IsSingle db db'
        (ap (λ (t : Db). t.recommendations)
            (write_ok_state fresh.outbox_id fresh.event_id "recommendation.created"
              "feedback-service"
              (recommendation_created
                (record { incident_id = incident_id; recommendation_id = fresh.recommendation_id }))
              c fresh.now db wrote)
          ∙ ap (λ (t : Db). t.recommendations) (ok_state last))
        s
    where
      told : StorageOutcome
      told = record {
        recommendation_id = fresh.recommendation_id;
        duplicate = false;
        incident_opened_at = some i.opened_at;
        recommendation_created_at = some fresh.now;
      }

  store_after-IsSingle :
      (i : Incident) (existing : Option Recommendation) (db : Db) {out : StorageOutcome} {db' : Db}
      → store_after fresh c incident_id plan_id outcome i existing db ≡ ok (out, db')
      → IsSingle db
      → IsSingle db'
  store_after-IsSingle i (some existing) db {db' = db'} h s =
      same-IsSingle db db' (ap (λ (t : Db). t.recommendations) (ok_state h)) s
  store_after-IsSingle i none db h s =
      let (_, t, added, later) =
        >>=-ok (add_recommendation (new_recommendation fresh c incident_id plan_id outcome))
          (λ _. announce fresh c i outcome incident_id) db h in
      announce-IsSingle i t later (
        add_recommendation-IsSingle (new_recommendation fresh c incident_id plan_id outcome) db
          added s)

  store_recommendation-IsSingle :
      (seen db : Db) {out : StorageOutcome} {db' : Db}
      → store_recommendation fresh c incident_id plan_id outcome seen db ≡ ok (out, db')
      → IsSingle db
      → IsSingle db'
  unfolding store_recommendation
  store_recommendation-IsSingle seen db {out} {db'} h s =
      by_incident (incident_by_id incident_id seen) h
    where
      by_plan :
          (i : Incident) (o : Option InvestigationPlan)
          → (or_plan_gone plan_id o >>= λ _.
                store_after fresh c incident_id plan_id outcome i
                  (existing_recommendation incident_id seen))
              db
            ≡ ok (out, db')
          → IsSingle db'
      by_plan i none k = absurd (raise-ne-ok {x = plan_not_found plan_id} k)
      by_plan i (some p) k =
          store_after-IsSingle i (existing_recommendation incident_id seen) db k s

      by_incident :
          (o : Option Incident)
          → (or_gone incident_id o >>= λ i. or_plan_gone plan_id (plan_by_id plan_id seen) >>= λ _.
                store_after fresh c incident_id plan_id outcome i
                  (existing_recommendation incident_id seen))
              db
            ≡ ok (out, db')
          → IsSingle db'
      by_incident none k = absurd (raise-ne-ok {x = incident_not_found incident_id} k)
      by_incident (some i) k = by_plan i (plan_by_id plan_id seen) k

module _ (envelope : EventEnvelope) (payload : ReasoningRequestedPayload) (db : Db) where
  recover-IsSingle :
      (r : Result {0} (Unit × Db))
      → recover envelope payload db ≡ r
      → IsSingle db
      → IsSingle (recovered db r).1
  recover-IsSingle (err x) e s = s
  recover-IsSingle (ok (u, db')) e s =
      marked-IsSingle envelope.event_id
        (record db {
          audit_log = db.audit_log ++ race_audit payload.incident_id envelope.correlation_id ∷ [];
        })
        db' e s

  absorb-IsSingle : IsSingle db → IsSingle (absorb_race envelope payload db).1
  unfolding absorb_race
  absorb-IsSingle s = elim (Bool-cases (is_already_processed envelope.event_id service_name db)) [
    | inl known ↦ rw known s
    | inr new ↦ rw new (recover-IsSingle (recover envelope payload db) refl s)
  ]

  stored-IsSingle :
      (r : Result (StorageOutcome × Db))
      → ((o : StorageOutcome) (db' : Db) → r ≡ ok (o, db') → IsSingle db')
      → IsSingle db
      → IsSingle (stored envelope payload db r).1
  stored-IsSingle (ok (o, db')) h s = h o db' refl
  stored-IsSingle (err (incident_not_found id)) h s = s
  stored-IsSingle (err (plan_not_found id)) h s = s
  stored-IsSingle (err integrity_error) h s = absorb-IsSingle s
  stored-IsSingle (err (not_found id)) h s = s
  stored-IsSingle (err (invalid_state_transition a b id)) h s = s
  stored-IsSingle (err key_error) h s = s
  stored-IsSingle (err value_error) h s = s
  stored-IsSingle (err runtime_error) h s = s
  stored-IsSingle (err notification_failed) h s = s

module _ {J : Type 0} (services : Services J) (fresh : Fresh) (envelope : EventEnvelope)
    (seen later db : Db) where
  store_and_mark-IsSingle :
      (payload : ReasoningRequestedPayload) (outcome : ReasoningOutcome) {o : StorageOutcome}
      {db' : Db}
      → store_and_mark fresh envelope payload outcome later db ≡ ok (o, db')
      → IsSingle db
      → IsSingle db'
  store_and_mark-IsSingle payload outcome {db' = db'} h s =
      let (o', t, made, rest) =
        >>=-ok
          (store_recommendation fresh envelope.correlation_id payload.incident_id payload.plan_id
            outcome later)
          (λ o. mark_processed envelope.event_id service_name >>= λ _. pure o) db h in
      let (u, t', marked, last) =
        >>=-ok (mark_processed envelope.event_id service_name) (λ _. pure o') t rest in
      subst IsSingle (ok_state last) (
        marked-IsSingle envelope.event_id t t' marked (
          store_recommendation-IsSingle fresh envelope.correlation_id payload.incident_id
            payload.plan_id outcome later db made s))

  store_outcome-IsSingle :
      (payload : ReasoningRequestedPayload) (o : Option ReasoningOutcome)
      → IsSingle db
      → IsSingle (store_outcome fresh envelope payload o later db).1
  store_outcome-IsSingle payload none s = s
  store_outcome-IsSingle payload (some outcome) s =
      stored-IsSingle envelope payload db (store_and_mark fresh envelope payload outcome later db)
        (λ o db' e. store_and_mark-IsSingle payload outcome e s) s

  reason_over-IsSingle :
      (payload : ReasoningRequestedPayload) (context : Context)
      → IsSingle db
      → IsSingle (reason_over services fresh envelope payload context later db).1
  reason_over-IsSingle payload not_available s = s
  reason_over-IsSingle payload invalid s = s
  reason_over-IsSingle payload (available bundle) s =
      store_outcome-IsSingle payload (reason_with services bundle services.knowledge) s

  parsed-IsSingle :
      (o : Option ReasoningRequestedPayload)
      → IsSingle db
      → IsSingle (handle_parsed services fresh envelope o seen later db).1
  parsed-IsSingle none s = s
  parsed-IsSingle (some payload) s =
      reason_over-IsSingle payload
        (build_context_bundle services.lower payload.incident_id payload.plan_id seen) s

  ignored-IsSingle :
      (r : Result {0} (Unit × Db))
      → mark_processed envelope.event_id service_name db ≡ r
      → IsSingle db
      → IsSingle (marked_ignored db r).1
  ignored-IsSingle (err x) e s = s
  ignored-IsSingle (ok (u, db')) e s = marked-IsSingle envelope.event_id db db' e s

  -- Whatever the reads of a delivery saw, whatever was committed since and whatever the remote
  -- calls came to, the delivery leaves no incident with two recommendations, where none had two
  -- before.
  pub reasoned-IsSingle :
      IsSingle db → IsSingle (receive_event (some services) fresh envelope seen later db).1
  unfolding receive_event
  reasoned-IsSingle s =
      elim (Bool-cases (is_already_processed envelope.event_id service_name seen)) [
        | inl known ↦ rw known s
        | inr new ↦ elim (Bool-cases (str_eq envelope.event_type "incident.reasoning_requested")) [
          | inl e ↦ rw (new, e) (parsed-IsSingle (parse_payload envelope.payload) s)
          | inr e ↦
              rw (new, e)
                (ignored-IsSingle (mark_processed envelope.event_id service_name db) refl s)
        ]
      ]
