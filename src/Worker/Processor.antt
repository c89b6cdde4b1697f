-- ===== src/Worker/Processor.antt =====
-- apps/outbox-worker/src/radar_outbox_worker/retry.py: recording what a dispatch did, in a
-- transaction of its own, and the counters that it moves.
pub mod Kept
use radar_system.Prelude.{ℕ, ◌+◌, Bool, false, Option, none, some, if◌then◌else◌}
use radar_system.Contracts.{Time}
use radar_system.Database.Tables.{OutboxEvent}
use radar_system.Database.Tx.{Tx, ◌>>=◌, ◌>>◌, pure, gets}
use radar_system.Database.Outbox.{event_by_id, mark_dispatched, mark_failed, dead_letter_now}
use radar_system.Worker.Dispatcher.{DispatchResult, DispatchStatus, delivered, retryable, permanent}

-- What was recorded; `dead_lettered` and `retry_scheduled` each move a counter.
pub data Recorded : Type 0 where
  row_missing removed dead_lettered retry_scheduled : Recorded

pub record OutboxCounters : Type 0 where
  pub dead_letter_total : ℕ
  pub retry_total : ℕ

-- `_count_dead_letter` and `_count_retry`
unfoldable pub tick : Recorded → OutboxCounters → OutboxCounters
tick row_missing c = c
tick removed c = c
tick dead_lettered c = record c { dead_letter_total = c.dead_letter_total + 1 }
tick retry_scheduled c = record c { retry_total = c.retry_total + 1 }

abbrev pub of_failure : OutboxEvent × Bool → Recorded
of_failure (row, dead) = if dead then dead_lettered else retry_scheduled

-- the branches on the class of the result, for the row as it now is
unfoldable pub record_row : Time → DispatchStatus → DispatchResult → OutboxEvent → Tx Recorded
record_row now delivered result row = do mark_dispatched row; pure removed
record_row now permanent result row = do dead_letter_now now row result.detail; pure dead_lettered
record_row now retryable result row = do
  out ← mark_failed now row result.detail false
  pure (of_failure out)

abbrev pub record_found : Time → DispatchResult → Option OutboxEvent → Tx Recorded
record_found now result none = pure row_missing
record_found now result (some row) = record_row now result.status result row

-- `DispatchProcessor.__call__` after the dispatch: the row is fetched again by its id.
unfoldable pub record_outcome : Time → OutboxEvent → DispatchResult → Tx Recorded
unfolding record_row
record_outcome now event result = do
  found ← gets (event_by_id event.id)
  record_found now result found
