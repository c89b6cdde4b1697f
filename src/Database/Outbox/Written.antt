-- ===== src/Database/Outbox/Written.antt =====
-- `write_outbox_event` of packages/database/src/radar_database/outbox.py: what a write leaves.
use radar_system.Prelude.{
  String, ◌≡◌, refl, false, ◌||◌, inl, inr, [], ◌∷◌, ◌++◌, any, ◌==◌, Bool-cases,
}
use radar_system.Contracts.{UuidNumber, Time, Payload}
use radar_system.Database.Tables.{Db, OutboxEvent}
use radar_system.Database.Tx.{ok, integrity_error, ok_state, raise-ne-ok}
use radar_system.Database.Outbox.{fresh_row, write_outbox_event}

module _ (id event_id : UuidNumber) (event_type target : String) (body : Payload) (c : UuidNumber)
    (now : Time) (db : Db) where
  -- The tables with one more row of the outbox.
  abbrev pub with_event : Db
  with_event = record db {
    outbox_events = db.outbox_events ++ fresh_row id event_id event_type target body c now ∷ [];
  }

  pub write_ok_state :
      {e : OutboxEvent} {db' : Db}
      → write_outbox_event id event_id event_type target body c now db ≡ ok (e, db')
      → with_event ≡ db'
  unfolding write_outbox_event
  write_ok_state h =
      elim (Bool-cases
        (any (λ (e : OutboxEvent). e.event_id == event_id || e.id == id) db.outbox_events)) [
          | inl taken ↦ absurd (raise-ne-ok {x = integrity_error} (rw taken at h))
          | inr free ↦ ok_state (rw free at h)
        ]

  pub write_new :
      any (λ (e : OutboxEvent). e.event_id == event_id || e.id == id) db.outbox_events ≡ false
      → write_outbox_event id event_id event_type target body c now db
        ≡ ok (fresh_row id event_id event_type target body c now, with_event)
  unfolding write_outbox_event
  write_new free = rw free refl
