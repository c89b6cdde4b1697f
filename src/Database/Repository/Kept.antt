-- ===== src/Database/Repository/Kept.antt =====
-- What a status change leaves alone.
use radar_system.Prelude.{String, ◌≡◌, ap, Option, Option-cases, Bool-cases, inl, inr}
use radar_system.Contracts.{UuidNumber, Time, Document}
use radar_system.Database.Tables.{Incident, Db}
use radar_system.Database.Tx.{
  ok, ok_state, raise-ne-ok, not_found, invalid_state_transition, key_error,
}
use radar_system.Database.Lifecycle.{is_valid_transition, transition_audit_event_type}
use radar_system.Database.Repository.{incident_by_id, move, transition_status}

-- A status change touches the incidents and the audit log, and no recommendation.
pub transition-keeps_recommendations :
    (id : UuidNumber) (new actor : String) (c : Option UuidNumber) (p : Option Document)
    (at_time : Option Time) (now : Time) (db : Db) {i : Incident} {db' : Db}
    → transition_status id new actor c p at_time now db ≡ ok (i, db')
    → db.recommendations ≡ db'.recommendations
unfolding transition_status move
transition-keeps_recommendations id new actor c p at_time now db h =
    elim (Option-cases (incident_by_id id db)) [
      | inl e ↦ absurd (raise-ne-ok {x = not_found id} (rw e at h))
      | inr (i, e) ↦ elim (Bool-cases (is_valid_transition i.status new)) [
        | inr illegal ↦
            absurd
              (raise-ne-ok {x = invalid_state_transition i.status new i.id} (rw (e, illegal) at h))
        | inl legal ↦ elim (Option-cases (transition_audit_event_type new)) [
          | inl gone ↦ absurd (raise-ne-ok {x = key_error} (rw (e, legal, gone) at h))
          | inr (t, known) ↦
              ap (λ (d : Db). d.recommendations) (ok_state (rw (e, legal, known) at h))
        ]
      ]
    ]
