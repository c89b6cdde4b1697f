-- ===== src/Worker/Life.antt =====
-- The life of an outbox row: every operation of the worker and of the writers as a step, and what
-- holds of the tables after any sequence of steps.
pub mod Sound
pub mod Claimed
pub mod Always
pub mod Crash
use radar_system.Prelude.{ℕ, String, Bool, Option, some, ◌≡◌}
use radar_system.Contracts.{UuidNumber, Time, Payload}
use radar_system.Database.Tables.{OutboxEvent, Db}
use radar_system.Database.Tx.{ok}
use radar_system.Database.Outbox.{write_outbox_event, claim_outbox_batch}
use radar_system.Worker.Dispatcher.{DispatchResult}
use radar_system.Worker.Processor.{Recorded, record_outcome}
use radar_system.Worker.Reaper.{sweep, requeue_dead_letter}

-- One committed transaction over the outbox, by whichever service.
pub data Step (db : Db) : Db → Type 0 where
  write :
      {db' : Db} {e : OutboxEvent} (id event_id : UuidNumber) (event_type target : String)
      (payload : Payload) (correlation_id : UuidNumber) (now : Time)
      → write_outbox_event id event_id event_type target payload correlation_id now db ≡ ok (e, db')
      → Step db db'
  claim :
      (locked : UuidNumber → Bool) (now : Time) (limit : ℕ)
      → Step db (claim_outbox_batch locked now limit db).1
  record_result :
      {db' : Db} {r : Recorded} (now : Time) (event : OutboxEvent) (result : DispatchResult)
      → record_outcome now event result db ≡ ok (r, db')
      → Step db db'
  reap_stuck :
      {db' : Db} {n : ℕ} (locked : UuidNumber → Bool) (now : Time) (interval limit : ℕ)
      → sweep locked now interval limit db ≡ ok (n, db')
      → Step db db'
  requeue :
      {db' : Db} {o : Option OutboxEvent} (now : Time) (event_id : UuidNumber)
      → requeue_dead_letter now event_id db ≡ ok (o, db')
      → Step db db'

pub data Reach (start : Db) : Db → Type 0 where
  here : Reach start start
  next : {db db' : Db} → Reach start db → Step db db' → Reach start db'
