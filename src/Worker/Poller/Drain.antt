-- ===== src/Worker/Poller/Drain.antt =====
-- A stop signal in the middle of a batch.
use radar_system.Prelude.{
  ℕ, suc, ◌+◌, ◌<◌, ◌≡◌, refl, subst, Bool, true, false, List, [], ◌∷◌, ◌++◌, arith, length,
}
use radar_system.Database.Tables.{OutboxEvent, Db}
use radar_system.Database.Tx.{Tx, committed}
use radar_system.Worker.Poller.{handle_batch}

module _ (handle_event : OutboxEvent → Tx Unit) (stopped : ℕ → Bool) where
  -- Every event handled in a transaction of its own, one after another.
  pub handle_all : List OutboxEvent → Db → Db
  handle_all [] db = db
  handle_all (event ∷ rest) db = handle_all rest (committed (handle_event event) db)

  stops_here :
      (index : ℕ) (rest : List OutboxEvent) (db : Db)
      → stopped index ≡ true
      → handle_batch handle_event stopped index rest db ≡ db
  unfolding handle_batch
  stops_here index [] db h = refl
  stops_here index (event ∷ rest) db h = rw h refl

  -- A batch that is interrupted handles the events before the signal, a raising one included, and
  -- starts none of those after it.
  pub interrupted_batch :
      (done rest : List OutboxEvent) (index : ℕ) (db : Db)
      → ((k : ℕ) → k < length done → stopped (index + k) ≡ false)
      → stopped (index + length done) ≡ true
      → handle_batch handle_event stopped index (done ++ rest) db ≡ handle_all done db
  unfolding handle_batch handle_all
  interrupted_batch [] rest index db before now =
      stops_here index rest db (subst (λ n. stopped n ≡ true) (omega arith) now)
  interrupted_batch (event ∷ done) rest index db before now =
      let running : stopped index ≡ false =
        subst (λ n. stopped n ≡ false) (omega arith) (before 0 (omega arith)) in
      rw running (
        interrupted_batch done rest (suc index) (committed (handle_event event) db)
          (λ k h. subst (λ n. stopped n ≡ false) (omega arith) (before (suc k) (omega arith)))
          (subst (λ n. stopped n ≡ true) (omega arith) now))
