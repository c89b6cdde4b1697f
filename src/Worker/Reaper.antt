-- ===== src/Worker/Reaper.antt =====
-- apps/outbox-worker/src/radar_outbox_worker/dead_letter.py: one sweep of the reaper, and the
-- admin operations on dead letters.
use radar_system.Prelude.{
  ℕ, suc, Bool, true, ◌&&◌, Option, none, some, List, [], ◌∷◌, if◌then◌else◌, ◌==◌, find_row,
}
use radar_system.Contracts.{UuidNumber, Time}
use radar_system.Database.Tables.{OutboxEvent, AuditLog, pending, reaped, requeued, is_dead_letter}
use radar_system.Database.Tx.{Tx, ◌>>=◌, ◌>>◌, pure, gets, modify, add_audit}
use radar_system.Database.Outbox.{claim_stuck_processing, mark_failed, save}

abbrev pub default_reaper_interval_seconds : ℕ
default_reaper_interval_seconds = 60

-- the loop of `_sweep`: every stuck row goes through `mark_failed`, at once and counted; the result
-- is how many were dead-lettered
unfoldable pub reap : Time → List OutboxEvent → Tx ℕ
reap now [] = pure 0
reap now (event ∷ rest) = do
  out ← mark_failed now event reaped true
  n ← reap now rest
  pure (if out.1 then suc n else n)

-- `Reaper._sweep`
unfoldable pub sweep : (UuidNumber → Bool) → Time → ℕ → ℕ → Tx ℕ
unfolding reap
sweep locked now interval batch_size = do
  stuck ← gets (claim_stuck_processing locked now interval batch_size)
  reap now stuck

abbrev pub is_dead_with : UuidNumber → OutboxEvent → Bool
is_dead_with event_id e = e.event_id == event_id && is_dead_letter e.status

abbrev pub revived : Time → OutboxEvent → OutboxEvent
revived now e = record e { status = pending; attempts = 0; process_after = now; updated_at = now }

abbrev pub requeue_receipt : OutboxEvent → AuditLog
requeue_receipt event = record {
  event_type = "outbox.requeued";
  entity_type = "outbox_event";
  entity_id = event.id;
  correlation_id = event.correlation_id;
  actor = "admin";
  payload = requeued event.event_id event.attempts event.last_error;
}

abbrev pub requeue_found : Time → Option OutboxEvent → Tx (Option OutboxEvent)
requeue_found now none = pure none
requeue_found now (some event) = do
  add_audit (requeue_receipt event)
  modify (save (revived now event))
  pure (some (revived now event))

-- `requeue_dead_letter`
unfoldable pub requeue_dead_letter : Time → UuidNumber → Tx (Option OutboxEvent)
requeue_dead_letter now event_id = do
  found ← gets (λ db. find_row (is_dead_with event_id) db.outbox_events)
  requeue_found now found
