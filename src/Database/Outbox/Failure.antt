-- ===== src/Database/Outbox/Failure.antt =====
-- What a failed dispatch does to a row: it never raises, counts the attempt, and either schedules
-- the next one or dead-letters the row with one audit record.
use radar_system.Prelude.{
  ℕ, suc, zero, ◌+◌, ◌<◌, String, ◌≡◌, refl, Bool, false, some, [], ◌∷◌, ◌++◌, arith, if◌then◌else◌,
  leb, Bool-cases, inl, inr,
}
use radar_system.Contracts.{Time, seconds}
use radar_system.Database.Tables.{
  OutboxEvent, pending, dead_letter, ErrorText, AuditLog, dead_lettered, Db,
}
use radar_system.Database.Tx.{ok}
use radar_system.Database.Outbox.{
  max_attempts, retry_delay, dead_letter_actor, save, counted, mark_failed, dead_letter_now,
}

-- The seconds that the next attempt waits, as the code means the table: 5, 15, 60, 300.
abbrev pub backoff : ℕ → ℕ
backoff zero = 5
backoff (suc zero) = 15
backoff (suc (suc zero)) = 60
backoff (suc (suc (suc n))) = 300

-- The row after a failed attempt.
abbrev pub failed_row : Time → OutboxEvent → ErrorText → Bool → OutboxEvent
failed_row now event error immediate =
    let e = counted now error event in
    if leb max_attempts e.attempts then record e { status = dead_letter } else record e {
      status = pending;
      process_after = if immediate then now else now + seconds (backoff event.attempts);
    }

abbrev pub dead_letter_receipt : OutboxEvent → ErrorText → String → AuditLog
dead_letter_receipt e error trigger = record {
  event_type = "outbox.dead_letter";
  entity_type = "outbox_event";
  entity_id = e.id;
  correlation_id = e.correlation_id;
  actor = dead_letter_actor;
  payload = dead_lettered e.event_id e.event_type e.target_service (e.attempts + 1) error trigger;
}

delay_known : (n : ℕ) → n + 1 < 5 → retry_delay (n + 1 + 1) ≡ some (backoff n)
delay_known zero h = refl
delay_known (suc zero) h = refl
delay_known (suc (suc zero)) h = refl
delay_known (suc (suc (suc zero))) h = refl
delay_known (suc (suc (suc (suc n)))) h = absurd (omega arith)

below : (n : ℕ) → leb max_attempts n ≡ false → n < 5
below n h = ground arith

module _ (now : Time) (event : OutboxEvent) (error : ErrorText) (immediate : Bool) (db : Db) where
  abbrev pub last : Bool
  last = leb max_attempts (event.attempts + 1)

  abbrev pub failed_db : Db
  failed_db = record (save (failed_row now event error immediate) db) {
    audit_log =
        if last
        then db.audit_log ++ dead_letter_receipt event error "exhausted" ∷ []
        else db.audit_log;
  }

  -- A failed dispatch never raises, whatever the count: the row takes the count, the error and the
  -- clock; the fifth failure dead-letters it with one audit record, and an earlier one makes it
  -- pending again, at once for the reaper and after the table's backoff otherwise.
  pub mark_failed_outcome :
      mark_failed now event error immediate db
      ≡ ok ((failed_row now event error immediate, last), failed_db)
  unfolding mark_failed
  mark_failed_outcome = elim (Bool-cases last) [
    | inl done ↦ rw done
    | inr more ↦ elim (Bool-cases immediate) [
      | inl now_at_once ↦ rw (more, now_at_once)
      | inr later ↦ rw (more, later, delay_known event.attempts (below (event.attempts + 1) more))
    ]
  ]

module _ (now : Time) (event : OutboxEvent) (error : ErrorText) (db : Db) where
  abbrev pub permanent_row : OutboxEvent
  permanent_row = record (counted now error event) { status = dead_letter }

  -- A permanent failure dead-letters the row at once, with the same audit record but for its
  -- trigger.
  pub dead_letter_now_outcome :
      dead_letter_now now event error db
      ≡ ok (
        permanent_row,
        record (save permanent_row db) {
          audit_log = db.audit_log ++ dead_letter_receipt event error "permanent" ∷ [];
        },
      )
  unfolding dead_letter_now
  dead_letter_now_outcome = refl
