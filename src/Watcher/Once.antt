-- ===== src/Watcher/Once.antt =====
-- At-least-once delivery, handled once.
use radar_system.Prelude.{
  ◌≡◌, refl, ap, subst, ◌∙◌, true, Option, none, some, List, [], ◌∷◌, str_eq, Bool-cases, inl, inr,
  ◌⊎◌,
}
use radar_system.Contracts.{EventEnvelope, AlertNormalizedPayload}
use radar_system.Database.Tables.{Db}
use radar_system.Database.Tx.{
  Result, ok, err, not_found, invalid_state_transition, incident_not_found, integrity_error,
  key_error, value_error, runtime_error, notification_failed, plan_not_found, ok_state, >>=-ok,
  pure, ◌>>=◌,
}
use radar_system.Database.Repository.{is_already_processed, mark_processed}
use radar_system.Database.Repository.Marker.{mark_ok_known}
use radar_system.Watcher.Rules.{CorrelationRules}
use radar_system.Watcher.Correlation.{Fresh, CorrelationOutcome, correlate}
use radar_system.Watcher.Routes.{
  service_name, Answer, processed, already_processed, ignored, parse_payload, decide_and_mark,
  answer_of, handle_parsed, receive_event,
}

-- The event is known as handled by the watcher.
abbrev pub IsHandled : EventEnvelope → Db → Type 0
IsHandled envelope db = is_already_processed envelope.event_id service_name db ≡ true

mark-IsHandled :
    (envelope : EventEnvelope) (db : Db) {u : Unit} {db' : Db}
    → mark_processed envelope.event_id service_name db ≡ ok (u, db')
    → IsHandled envelope db'
mark-IsHandled envelope db h = mark_ok_known envelope.event_id service_name db h

decided-IsHandled :
    (fresh : Fresh) (rules : CorrelationRules) (envelope : EventEnvelope)
    (payload : AlertNormalizedPayload) (db : Db) {o : CorrelationOutcome} {db' : Db}
    → decide_and_mark fresh rules envelope payload db ≡ ok (o, db')
    → IsHandled envelope db'
decided-IsHandled fresh rules envelope payload db h =
    let (o, t, _, later) =
      >>=-ok (correlate fresh rules envelope.correlation_id payload)
        (λ o. mark_processed envelope.event_id service_name >>= λ _. pure o) db h in
    let (u, v, marked, last) =
      >>=-ok (mark_processed envelope.event_id service_name) (λ _. pure o) t later in
    subst (IsHandled envelope) (ok_state last) (mark-IsHandled envelope t marked)

-- Either the event is now marked as handled, or the database is as it was.
abbrev pub AllOrNothing : EventEnvelope → Db → Answer × Db → Type 0
AllOrNothing envelope db out = IsHandled envelope out.1 ⊎ (out.1 ≡ db)

answer-AllOrNothing :
    {A : Type 0} (envelope : EventEnvelope) (answer : Answer) (db : Db) (r : Result (A × Db))
    → ((a : A) (db' : Db) → r ≡ ok (a, db') → IsHandled envelope db')
    → AllOrNothing envelope db (answer_of answer db r)
answer-AllOrNothing envelope answer db (ok (a, db')) h = inl (h a db' refl)
answer-AllOrNothing envelope answer db (err (incident_not_found id)) h = inr refl
answer-AllOrNothing envelope answer db (err (not_found id)) h = inr refl
answer-AllOrNothing envelope answer db (err (invalid_state_transition s t id)) h = inr refl
answer-AllOrNothing envelope answer db (err integrity_error) h = inr refl
answer-AllOrNothing envelope answer db (err key_error) h = inr refl
answer-AllOrNothing envelope answer db (err value_error) h = inr refl
answer-AllOrNothing envelope answer db (err runtime_error) h = inr refl
answer-AllOrNothing envelope answer db (err (plan_not_found id)) h = inr refl
answer-AllOrNothing envelope answer db (err notification_failed) h = inr refl

parsed-AllOrNothing :
    (fresh : Fresh) (rules : CorrelationRules) (envelope : EventEnvelope)
    (o : Option AlertNormalizedPayload) (db : Db)
    → AllOrNothing envelope db (handle_parsed fresh rules envelope o db)
parsed-AllOrNothing fresh rules envelope none db = inr refl
parsed-AllOrNothing fresh rules envelope (some payload) db =
    answer-AllOrNothing envelope processed db (decide_and_mark fresh rules envelope payload db)
      (λ o db' h. decided-IsHandled fresh rules envelope payload db h)

-- A delivery leaves the event marked as handled, or leaves the database as it was.
pub receive_event-AllOrNothing :
    (fresh : Fresh) (rules : Option CorrelationRules) (envelope : EventEnvelope) (db : Db)
    → AllOrNothing envelope db (receive_event fresh rules envelope db)
unfolding receive_event
receive_event-AllOrNothing fresh none envelope db = inr refl
receive_event-AllOrNothing fresh (some rules) envelope db =
    elim (Bool-cases (is_already_processed envelope.event_id service_name db)) [
      | inl seen ↦ rw seen (inr refl)
      | inr new ↦ elim (Bool-cases (str_eq envelope.event_type "alert.normalized")) [
        | inl e ↦
            rw (new, e)
              (parsed-AllOrNothing fresh rules envelope (parse_payload envelope.payload) db)
        | inr e ↦
            rw (new, e)
              (answer-AllOrNothing envelope ignored db
                (mark_processed envelope.event_id service_name db)
                (λ u db' h. mark-IsHandled envelope db h))
      ]
    ]

handled_again :
    (fresh : Fresh) (rules : CorrelationRules) (envelope : EventEnvelope) (db : Db)
    → IsHandled envelope db
    → receive_event fresh (some rules) envelope db ≡ (already_processed, db)
unfolding receive_event
handled_again fresh rules envelope db h = rw h

-- The database after the event is delivered again, any number of times.
pub deliver_again : CorrelationRules → EventEnvelope → List Fresh → Db → Db
deliver_again rules envelope [] db = db
deliver_again rules envelope (fresh ∷ more) db =
    deliver_again rules envelope more (receive_event fresh (some rules) envelope db).1

handled_stays :
    (rules : CorrelationRules) (envelope : EventEnvelope) (more : List Fresh) (db : Db)
    → IsHandled envelope db
    → deliver_again rules envelope more db ≡ db
unfolding deliver_again
handled_stays rules envelope [] db h = refl
handled_stays rules envelope (fresh ∷ more) db h =
    ap (λ (out : Answer × Db). deliver_again rules envelope more out.1)
      (handled_again fresh rules envelope db h)
    ∙ handled_stays rules envelope more db h

-- Once a delivery has changed the database, no number of further deliveries changes it again.
pub redelivery_changes_nothing :
    (fresh : Fresh) (rules : CorrelationRules) (envelope : EventEnvelope) (more : List Fresh)
    (db : Db)
    → ((receive_event fresh (some rules) envelope db).1 ≡ db → ⊥)
    → deliver_again rules envelope more (receive_event fresh (some rules) envelope db).1
      ≡ (receive_event fresh (some rules) envelope db).1
redelivery_changes_nothing fresh rules envelope more db changed =
    elim (receive_event-AllOrNothing fresh (some rules) envelope db) [
      | inl handled ↦
          handled_stays rules envelope more (receive_event fresh (some rules) envelope db).1 handled
      | inr same ↦ absurd (changed same)
    ]
