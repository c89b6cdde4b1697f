-- ===== src/Reasoner/Once.antt =====
-- At-least-once delivery to the reasoner, handled once.
use radar_system.Prelude.{
  ◌≡◌, refl, subst, true, Option, none, some, [], ◌∷◌, ◌++◌, str_eq, Bool-cases, inl, inr, ◌⊎◌,
}
use radar_system.Contracts.{EventEnvelope, ReasoningRequestedPayload}
use radar_system.Database.Tables.{Db}
use radar_system.Database.Tx.{
  Result, ok, err, not_found, invalid_state_transition, incident_not_found, integrity_error,
  key_error, value_error, runtime_error, notification_failed, plan_not_found, ok_state, >>=-ok,
  pure, ◌>>=◌,
}
use radar_system.Database.Repository.{is_already_processed, mark_processed}
use radar_system.Database.Repository.Marker.{mark_ok_known}
use radar_system.Reasoner.Fallback.{ReasoningOutcome}
use radar_system.Reasoner.Context.{Context, available, not_available, invalid, build_context_bundle}
use radar_system.Reasoner.Storage.{Fresh, StorageOutcome, store_recommendation, race_audit}
use radar_system.Reasoner.Routes.{
  service_name, Answer, already_processed, parse_payload, recover, recovered, absorb_race, Services,
  store_and_mark, stored, store_outcome, reason_with, reason_over, handle_parsed, marked_ignored,
  receive_event,
}

-- The event is known as handled by the reasoner.
abbrev pub IsHandled : EventEnvelope → Db → Type 0
IsHandled envelope db = is_already_processed envelope.event_id service_name db ≡ true

-- Either the event is now marked as handled, or the tables are as they were.
abbrev pub AllOrNothing : EventEnvelope → Db → Answer × Db → Type 0
AllOrNothing envelope db out = IsHandled envelope out.1 ⊎ (out.1 ≡ db)

module _ (envelope : EventEnvelope) (db : Db) where
  recovered-AllOrNothing :
      (payload : ReasoningRequestedPayload) (r : Result {0} (Unit × Db))
      → recover envelope payload db ≡ r
      → AllOrNothing envelope db (recovered db r)
  recovered-AllOrNothing payload (err e) h = inr refl
  recovered-AllOrNothing payload (ok (u, db')) h = inl (
      mark_ok_known envelope.event_id service_name
        (record db {
          audit_log = db.audit_log ++ race_audit payload.incident_id envelope.correlation_id ∷ [];
        })
        h)

  absorbed-AllOrNothing :
      (payload : ReasoningRequestedPayload)
      → AllOrNothing envelope db (absorb_race envelope payload db)
  unfolding absorb_race
  absorbed-AllOrNothing payload =
      elim (Bool-cases (is_already_processed envelope.event_id service_name db)) [
        | inl known ↦ rw known (inr refl)
        | inr new ↦ rw new (recovered-AllOrNothing payload (recover envelope payload db) refl)
      ]

  stored-AllOrNothing :
      (payload : ReasoningRequestedPayload) (r : Result (StorageOutcome × Db))
      → ((o : StorageOutcome) (db' : Db) → r ≡ ok (o, db') → IsHandled envelope db')
      → AllOrNothing envelope db (stored envelope payload db r)
  stored-AllOrNothing payload (ok (o, db')) h = inl (h o db' refl)
  stored-AllOrNothing payload (err integrity_error) h = absorbed-AllOrNothing payload
  stored-AllOrNothing payload (err (incident_not_found id)) h = inr refl
  stored-AllOrNothing payload (err (not_found id)) h = inr refl
  stored-AllOrNothing payload (err (invalid_state_transition a b id)) h = inr refl
  stored-AllOrNothing payload (err key_error) h = inr refl
  stored-AllOrNothing payload (err value_error) h = inr refl
  stored-AllOrNothing payload (err runtime_error) h = inr refl
  stored-AllOrNothing payload (err (plan_not_found id)) h = inr refl
  stored-AllOrNothing payload (err notification_failed) h = inr refl

  ignored-AllOrNothing :
      (r : Result {0} (Unit × Db))
      → mark_processed envelope.event_id service_name db ≡ r
      → AllOrNothing envelope db (marked_ignored db r)
  ignored-AllOrNothing (err e) h = inr refl
  ignored-AllOrNothing (ok (u, db')) h = inl (mark_ok_known envelope.event_id service_name db h)

  module _ {J : Type 0} (services : Services J) (fresh : Fresh) (seen later : Db) where
    marked-IsHandled :
        (payload : ReasoningRequestedPayload) (outcome : ReasoningOutcome) (o : StorageOutcome)
        (db' : Db)
        → store_and_mark fresh envelope payload outcome later db ≡ ok (o, db')
        → IsHandled envelope db'
    marked-IsHandled payload outcome o db' h =
        let (o', t, _, next) =
          >>=-ok
            (store_recommendation fresh envelope.correlation_id payload.incident_id payload.plan_id
              outcome later)
            (λ o. mark_processed envelope.event_id service_name >>= λ _. pure o) db h in
        let (u, v, marked, last) =
          >>=-ok (mark_processed envelope.event_id service_name) (λ _. pure o') t next in
        subst (IsHandled envelope) (ok_state last)
          (mark_ok_known envelope.event_id service_name t marked)

    outcome-AllOrNothing :
        (payload : ReasoningRequestedPayload) (o : Option ReasoningOutcome)
        → AllOrNothing envelope db (store_outcome fresh envelope payload o later db)
    outcome-AllOrNothing payload none = inr refl
    outcome-AllOrNothing payload (some outcome) =
        stored-AllOrNothing payload (store_and_mark fresh envelope payload outcome later db)
          (marked-IsHandled payload outcome)

    reasoned-AllOrNothing :
        (payload : ReasoningRequestedPayload) (c : Context)
        → AllOrNothing envelope db (reason_over services fresh envelope payload c later db)
    reasoned-AllOrNothing payload not_available = inr refl
    reasoned-AllOrNothing payload invalid = inr refl
    reasoned-AllOrNothing payload (available bundle) =
        outcome-AllOrNothing payload (reason_with services bundle services.knowledge)

    parsed-AllOrNothing :
        (o : Option ReasoningRequestedPayload)
        → AllOrNothing envelope db (handle_parsed services fresh envelope o seen later db)
    parsed-AllOrNothing none = inr refl
    parsed-AllOrNothing (some payload) =
        reasoned-AllOrNothing payload
          (build_context_bundle services.lower payload.incident_id payload.plan_id seen)

    receive_event-AllOrNothing :
        AllOrNothing envelope db (receive_event (some services) fresh envelope seen later db)
    unfolding receive_event
    receive_event-AllOrNothing =
        elim (Bool-cases (is_already_processed envelope.event_id service_name seen)) [
          | inl known ↦ rw known (inr refl)
          | inr new ↦
              elim (Bool-cases (str_eq envelope.event_type "incident.reasoning_requested")) [
                | inl e ↦ rw (new, e) (parsed-AllOrNothing (parse_payload envelope.payload))
                | inr e ↦
                    rw (new, e)
                      (ignored-AllOrNothing (mark_processed envelope.event_id service_name db) refl)
              ]
        ]

    gated :
        (again : Fresh) (after : Db)
        → IsHandled envelope after
        → receive_event (some services) again envelope after after after
          ≡ (already_processed, after)
    unfolding receive_event
    gated again after handled = rw handled refl

    -- Once a delivery has changed the tables, whatever its transactions saw and whatever the remote
    -- calls came to, the next delivery of the event that sees the change is answered as already
    -- processed, with no second analysis, and changes nothing.
    pub reasoned_once :
        (again : Fresh)
        → ((receive_event (some services) fresh envelope seen later db).1 ≡ db → ⊥)
        → receive_event
            (some services)
            again
            envelope
            (receive_event (some services) fresh envelope seen later db).1
            (receive_event (some services) fresh envelope seen later db).1
            (receive_event (some services) fresh envelope seen later db).1
          ≡ (already_processed, (receive_event (some services) fresh envelope seen later db).1)
    reasoned_once again changed = elim receive_event-AllOrNothing [
      | inl handled ↦
          gated again (receive_event (some services) fresh envelope seen later db).1 handled
      | inr same ↦ absurd (changed same)
    ]
