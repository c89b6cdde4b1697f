-- ===== src/Worker/Poller.antt =====
-- apps/outbox-worker/src/radar_outbox_worker/poller.py: one round of the poll loop. The handler is
-- a parameter, as it is in the source; where it raises, its transaction leaves no trace.
pub mod Drain
use radar_system.Prelude.{ℕ, suc, Bool, List, [], ◌∷◌, if◌then◌else◌}
use radar_system.Contracts.{UuidNumber, Time}
use radar_system.Database.Tables.{OutboxEvent, Db}
use radar_system.Database.Tx.{Tx, committed}
use radar_system.Database.Outbox.{claim_outbox_batch}

module _ (handle_event : OutboxEvent → Tx Unit) (stopped : ℕ → Bool) where
  -- `_handle_batch`: `stopped n` says whether the stop signal is seen before the n-th event
  pub handle_batch : ℕ → List OutboxEvent → Db → Db
  handle_batch index [] db = db
  handle_batch index (event ∷ rest) db =
      let after = handle_batch (suc index) rest (committed (handle_event event) db) in
      if stopped index then db else after

  -- one round of `run`: the claim commits before the first event is handled
  pub poll_once : (UuidNumber → Bool) → Time → ℕ → Db → Db
  unfolding handle_batch
  poll_once locked now batch_size db =
      let (batch, db') = claim_outbox_batch locked now batch_size db in handle_batch 0 batch db'
