-- ===== src/Feedback/Recorded.antt =====
-- What follows a successful post: the row that it changes, and how it can fail.
use radar_system.Prelude.{
  String, ◌≡◌, refl, sym, ap, ◌∙◌, subst, not, ◌&&◌, none, some, List, inl, inr, any, find_row,
  update, ◌==◌, Bool-cases,
}
use radar_system.Contracts.{UuidNumber, Time}
use radar_system.Database.Tables.{Incident, Recommendation, Db}
use radar_system.Database.Tx.{
  Result, Error, ok, err, ok_state, err_value, >>=-err_cases, raise-ne-ok, >>=-ok, not_found,
  invalid_state_transition, incident_not_found, plan_not_found, integrity_error, key_error,
  value_error, runtime_error, notification_failed, ◌>>=◌, pure, add_audit,
}
use radar_system.Database.Lifecycle.{status_investigating}
use radar_system.Database.Repository.{incident_by_id, is_already_processed, mark_processed}
use radar_system.Database.Repository.Marker.{mark_once, with_marker, mark_ok_state}
use radar_system.Database.Repository.Transition.{transition_outcome}
use radar_system.Database.Repository.Kept.{transition-keeps_recommendations}
use radar_system.Feedback.Delivery.{
  service_name, DeliveryOutcome, delivered, holds_ts, record_ts, delivery_audit, tolerated,
  investigating_payload, mark_investigating, record_delivery,
}

abbrev pub with_ts : UuidNumber → String → Db → List Recommendation
with_ts id ts db =
    update (λ (r : Recommendation). r.id == id)
      (λ (r : Recommendation). record r { slack_message_ts = some ts }) db.recommendations

record_ts_state :
    (id : UuidNumber) (ts : String) (db : Db) {u : Unit} {db' : Db}
    → record_ts id ts db ≡ ok (u, db')
    → record db { recommendations = with_ts id ts db } ≡ db'
unfolding record_ts
record_ts_state id ts db h =
    elim (Bool-cases (
      any (λ (r : Recommendation). holds_ts ts r.slack_message_ts && not (r.id == id))
        db.recommendations)) [
          | inl taken ↦ absurd (raise-ne-ok {x = integrity_error} (rw taken at h))
          | inr free ↦ ok_state (rw free at h)
        ]

tolerated_rows :
    (db : Db) (r : Result (Incident × Db)) {u : Unit} {db' : Db}
    → ((i : Incident) (t : Db) → r ≡ ok (i, t) → db.recommendations ≡ t.recommendations)
    → tolerated db r ≡ ok (u, db')
    → db.recommendations ≡ db'.recommendations
tolerated_rows db (ok (i, t)) k h = k i t refl ∙ ap (λ (d : Db). d.recommendations) (ok_state h)
tolerated_rows db (err (invalid_state_transition a b id)) k h =
    ap (λ (d : Db). d.recommendations) (ok_state h)
tolerated_rows db (err (not_found id)) k h = absurd (raise-ne-ok {x = not_found id} h)
tolerated_rows db (err (incident_not_found id)) k h =
    absurd (raise-ne-ok {x = incident_not_found id} h)
tolerated_rows db (err (plan_not_found id)) k h = absurd (raise-ne-ok {x = plan_not_found id} h)
tolerated_rows db (err integrity_error) k h = absurd (raise-ne-ok {x = integrity_error} h)
tolerated_rows db (err key_error) k h = absurd (raise-ne-ok {x = key_error} h)
tolerated_rows db (err value_error) k h = absurd (raise-ne-ok {x = value_error} h)
tolerated_rows db (err runtime_error) k h = absurd (raise-ne-ok {x = runtime_error} h)
tolerated_rows db (err notification_failed) k h = absurd (raise-ne-ok {x = notification_failed} h)

investigating_rows :
    (r : Recommendation) (i : Incident) (now : Time) (db : Db) {u : Unit} {db' : Db}
    → mark_investigating r i now db ≡ ok (u, db')
    → db.recommendations ≡ db'.recommendations
unfolding mark_investigating
investigating_rows r i now db h =
    tolerated_rows db _
      (λ i' t e.
        transition-keeps_recommendations i.id status_investigating service_name _ _ none now db e)
      h

pub delivery_rows :
    (r : Recommendation) (i : Incident) (ts channel : String) (event_id : UuidNumber) (now : Time)
    (db : Db) {o : DeliveryOutcome} {db' : Db}
    → record_delivery r i ts channel event_id now db ≡ ok (o, db')
    → with_ts r.id ts db ≡ db'.recommendations
unfolding record_delivery
delivery_rows r i ts channel event_id now db {db' = db'} h =
    let finish = λ (u : Unit {0}). pure {A = DeliveryOutcome} delivered in
    let move = λ (u : Unit {0}). mark_investigating r i now >>= finish in
    let mark = λ (u : Unit {0}). mark_processed event_id service_name >>= move in
    let log = λ (u : Unit {0}). add_audit (delivery_audit r i ts channel) >>= mark in
    let (_, s, flushed, h1) = >>=-ok (record_ts r.id ts) log db h in
    let (_, s', logged, h2) = >>=-ok (add_audit (delivery_audit r i ts channel)) mark s h1 in
    let (_, t, marked, h3) = >>=-ok (mark_processed event_id service_name) move s' h2 in
    let (_, t', moved, last) = >>=-ok (mark_investigating r i now) finish t h3 in
    ap (λ (d : Db). d.recommendations) (record_ts_state r.id ts db flushed)
    ∙ ap (λ (d : Db). d.recommendations) (ok_state logged)
    ∙ ap (λ (d : Db). d.recommendations) (mark_ok_state event_id service_name s' marked)
    ∙ investigating_rows r i now t moved
    ∙ ap (λ (d : Db). d.recommendations) (ok_state last)

record_ts_err :
    (id : UuidNumber) (ts : String) (db : Db) {x : Error}
    → record_ts id ts db ≡ err x
    → x ≡ integrity_error
unfolding record_ts
record_ts_err id ts db h =
    elim (Bool-cases (
      any (λ (r : Recommendation). holds_ts ts r.slack_message_ts && not (r.id == id))
        db.recommendations)) [
          | inl taken ↦ sym (err_value (rw taken at h))
          | inr free ↦ cc (rw free at h)
        ]

mark_err :
    (id : UuidNumber) (db : Db) {x : Error}
    → mark_processed id service_name db ≡ err x
    → x ≡ integrity_error
mark_err id db h = elim (Bool-cases (is_already_processed id service_name db)) [
  | inl seen ↦ sym (err_value (sym (mark_once id service_name db ∙ rw seen refl) ∙ h))
  | inr new ↦ absurd (
      raise-ne-ok {b = tt} {t = with_marker id service_name db}
        (sym h ∙ mark_once id service_name db ∙ rw new refl))
]

-- A status change that is not legal is tolerated, and no other can fail.
investigating_never_raises :
    (r : Recommendation) (i : Incident) (now : Time) (db : Db) {x : Error}
    → incident_by_id i.id db ≡ some i
    → mark_investigating r i now db ≡ err x
    → ⊥
unfolding mark_investigating
investigating_never_raises r i now db {x} found h =
    elim (transition_outcome i.id status_investigating service_name (some r.correlation_id)
      (some (investigating_payload r)) none now db i found) [
        | inl (edge, (t, e, moved)) ↦ absurd (raise-ne-ok {b = tt} {t = t} (sym (rw e at h)))
        | inr (no_edge, e) ↦ absurd (raise-ne-ok {b = tt} {t = db} (sym (rw e at h)))
      ]

-- After a post the only exception is that of the database.
pub record_delivery_err :
    (r : Recommendation) (i : Incident) (ts channel : String) (event_id : UuidNumber) (now : Time)
    (db : Db) {x : Error}
    → incident_by_id i.id db ≡ some i
    → record_delivery r i ts channel event_id now db ≡ err x
    → x ≡ integrity_error
unfolding record_delivery
record_delivery_err r i ts channel event_id now db found h =
    let finish = λ (u : Unit {0}). pure {A = DeliveryOutcome} delivered in
    let move = λ (u : Unit {0}). mark_investigating r i now >>= finish in
    let mark = λ (u : Unit {0}). mark_processed event_id service_name >>= move in
    let log = λ (u : Unit {0}). add_audit (delivery_audit r i ts channel) >>= mark in
    elim (>>=-err_cases (record_ts r.id ts) log db h) [
      | inl e ↦ record_ts_err r.id ts db e
      | inr (_, s, flushed, h1) ↦
          elim (>>=-err_cases (add_audit (delivery_audit r i ts channel)) mark s h1) [
            | inl e ↦ absurd (raise-ne-ok (sym e))
            | inr (_, s', logged, h2) ↦
                elim (>>=-err_cases (mark_processed event_id service_name) move s' h2) [
                  | inl e ↦ mark_err event_id s' e
                  | inr (_, t, marked, h3) ↦
                      let kept : db.incidents ≡ t.incidents =
                        ap (λ (d : Db). d.incidents) (record_ts_state r.id ts db flushed)
                        ∙ ap (λ (d : Db). d.incidents) (ok_state logged)
                        ∙ ap (λ (d : Db). d.incidents)
                            (mark_ok_state event_id service_name s' marked) in
                      let still : incident_by_id i.id t ≡ some i =
                        subst (λ rows. find_row (λ (j : Incident). j.id == i.id) rows ≡ some i) kept
                          found in
                      elim (>>=-err_cases (mark_investigating r i now) finish t h3) [
                        | inl e ↦ absurd (investigating_never_raises r i now t still e)
                        | inr (_, t', _, last) ↦ absurd (raise-ne-ok (sym last))
                      ]
                ]
          ]
    ]
