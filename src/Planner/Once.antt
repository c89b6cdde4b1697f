-- ===== src/Planner/Once.antt =====
-- At-least-once delivery to the planner, handled once.
use radar_system.Prelude.{
  ◌≡◌, refl, subst, true, Option, none, some, [], ◌∷◌, ◌++◌, str_eq, Bool-cases, inl, inr, ◌⊎◌,
}
use radar_system.Contracts.{EventEnvelope, PlanRequestedPayload}
use radar_system.Database.Tables.{Db}
use radar_system.Database.Tx.{
  Result, ok, err, not_found, invalid_state_transition, incident_not_found, integrity_error,
  key_error, value_error, runtime_error, notification_failed, plan_not_found, ok_state, >>=-ok,
  pure, ◌>>=◌,
}
use radar_system.Database.Repository.{is_already_processed, mark_processed}
use radar_system.Database.Repository.Marker.{mark_ok_known}
use radar_system.Planner.Templates.{PlanTemplates}
use radar_system.Planner.Planning.{Fresh, PlanningOutcome, plan_incident, duplicate_audit}
use radar_system.Planner.Routes.{
  service_name, Answer, already_processed, parse_payload, recover, recovered, absorb_duplicate,
  plan_and_mark, planned, handle_parsed, marked_ignored, receive_event,
}

-- The event is known as handled by the planner.
abbrev pub IsHandled : EventEnvelope → Db → Type 0
IsHandled envelope db = is_already_processed envelope.event_id service_name db ≡ true

-- Either the event is now marked as handled, or the tables are as they were.
abbrev pub AllOrNothing : EventEnvelope → Db → Answer × Db → Type 0
AllOrNothing envelope db out = IsHandled envelope out.1 ⊎ (out.1 ≡ db)

module _ (envelope : EventEnvelope) (db : Db) where
  recovered-AllOrNothing :
      (payload : PlanRequestedPayload) (r : Result {0} (Unit × Db))
      → recover envelope payload db ≡ r
      → AllOrNothing envelope db (recovered db r)
  recovered-AllOrNothing payload (err e) h = inr refl
  recovered-AllOrNothing payload (ok (u, db')) h = inl (
      mark_ok_known envelope.event_id service_name
        (record db {
          audit_log = db.audit_log ++ duplicate_audit envelope.correlation_id payload ∷ [];
        })
        h)

  absorbed-AllOrNothing :
      (payload : PlanRequestedPayload)
      → AllOrNothing envelope db (absorb_duplicate envelope payload db)
  unfolding absorb_duplicate
  absorbed-AllOrNothing payload =
      elim (Bool-cases (is_already_processed envelope.event_id service_name db)) [
        | inl known ↦ rw known (inr refl)
        | inr new ↦ rw new (recovered-AllOrNothing payload (recover envelope payload db) refl)
      ]

  planned-AllOrNothing :
      (payload : PlanRequestedPayload) (r : Result (PlanningOutcome × Db))
      → ((o : PlanningOutcome) (db' : Db) → r ≡ ok (o, db') → IsHandled envelope db')
      → AllOrNothing envelope db (planned envelope payload db r)
  planned-AllOrNothing payload (ok (o, db')) h = inl (h o db' refl)
  planned-AllOrNothing payload (err integrity_error) h = absorbed-AllOrNothing payload
  planned-AllOrNothing payload (err (incident_not_found id)) h = inr refl
  planned-AllOrNothing payload (err (not_found id)) h = inr refl
  planned-AllOrNothing payload (err (invalid_state_transition a b id)) h = inr refl
  planned-AllOrNothing payload (err key_error) h = inr refl
  planned-AllOrNothing payload (err value_error) h = inr refl
  planned-AllOrNothing payload (err runtime_error) h = inr refl
  planned-AllOrNothing payload (err (plan_not_found id)) h = inr refl
  planned-AllOrNothing payload (err notification_failed) h = inr refl

  ignored-AllOrNothing :
      (r : Result {0} (Unit × Db))
      → mark_processed envelope.event_id service_name db ≡ r
      → AllOrNothing envelope db (marked_ignored db r)
  ignored-AllOrNothing (err e) h = inr refl
  ignored-AllOrNothing (ok (u, db')) h = inl (mark_ok_known envelope.event_id service_name db h)

  module _ (fresh : Fresh) (templates : PlanTemplates) (seen : Db) where
    marked-IsHandled :
        (payload : PlanRequestedPayload) (o : PlanningOutcome) (db' : Db)
        → plan_and_mark fresh templates envelope payload seen db ≡ ok (o, db')
        → IsHandled envelope db'
    marked-IsHandled payload o db' h =
        let (o', t, _, later) =
          >>=-ok (plan_incident fresh templates envelope.correlation_id payload seen)
            (λ o. mark_processed envelope.event_id service_name >>= λ _. pure o) db h in
        let (u, v, marked, last) =
          >>=-ok (mark_processed envelope.event_id service_name) (λ _. pure o') t later in
        subst (IsHandled envelope) (ok_state last)
          (mark_ok_known envelope.event_id service_name t marked)

    parsed-AllOrNothing :
        (o : Option PlanRequestedPayload)
        → AllOrNothing envelope db (handle_parsed fresh templates envelope o seen db)
    parsed-AllOrNothing none = inr refl
    parsed-AllOrNothing (some payload) =
        planned-AllOrNothing payload (plan_and_mark fresh templates envelope payload seen db)
          (marked-IsHandled payload)

    receive_event-AllOrNothing :
        AllOrNothing envelope db (receive_event fresh (some templates) envelope seen db)
    unfolding receive_event
    receive_event-AllOrNothing =
        elim (Bool-cases (is_already_processed envelope.event_id service_name seen)) [
          | inl known ↦ rw known (inr refl)
          | inr new ↦ elim (Bool-cases (str_eq envelope.event_type "incident.plan_requested")) [
            | inl e ↦ rw (new, e) (parsed-AllOrNothing (parse_payload envelope.payload))
            | inr e ↦
                rw (new, e)
                  (ignored-AllOrNothing (mark_processed envelope.event_id service_name db) refl)
          ]
        ]

    gated :
        (again : Fresh) (after : Db)
        → IsHandled envelope after
        → receive_event again (some templates) envelope after after ≡ (already_processed, after)
    unfolding receive_event
    gated again after handled = rw handled refl

    -- Once a delivery has changed the tables, whatever its reads saw and whatever was committed
    -- since, the next delivery of the event that sees them is answered as already processed and
    -- changes nothing.
    pub redelivered_once :
        (again : Fresh)
        → ((receive_event fresh (some templates) envelope seen db).1 ≡ db → ⊥)
        → receive_event again
            (some templates)
            envelope
            (receive_event fresh (some templates) envelope seen db).1
            (receive_event fresh (some templates) envelope seen db).1
          ≡ (already_processed, (receive_event fresh (some templates) envelope seen db).1)
    redelivered_once again changed = elim receive_event-AllOrNothing [
      | inl handled ↦ gated again (receive_event fresh (some templates) envelope seen db).1 handled
      | inr same ↦ absurd (changed same)
    ]
