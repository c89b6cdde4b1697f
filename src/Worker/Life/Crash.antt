-- ===== src/Worker/Life/Crash.antt =====
-- A poison event: the worker dies after every claim of it, and only the reaper sees it again.
use radar_system.Prelude.{
  ℕ, zero, suc, take, ◌+◌, ◌≤◌, ◌<◌, ◌≡◌, refl, ap, ◌∙◌, Bool, true, false, List, [], ◌∷◌, length,
  arith, if◌then◌else◌, leb, ltb, update, ==_refl,
}
use radar_system.Contracts.{UuidNumber, Time, seconds}
use radar_system.Database.Tables.{Db, OutboxEvent, pending, processing, dead_letter, reaped}
use radar_system.Database.Tx.{Result, ok, err, ◌>>=◌}
use radar_system.Database.Outbox.{by_id, due, claimed, claim_outbox_batch, claim_stuck_processing}
use radar_system.Database.Outbox.Failure.{failed_row, failed_db, mark_failed_outcome}
use radar_system.Worker.Reaper.{reap, sweep}

abbrev unlocked : UuidNumber → Bool
unlocked id = false

abbrev swept : Db → Result (ℕ × Db) → Db
swept db (ok (n, db')) = db'
swept db (err e) = db

-- One claim, after which the worker dies, and one sweep of the reaper.
pub record Crash : Type 0 where
  pub claim_at : Time
  pub sweep_at : Time

take_nil : (n : ℕ) → take {A = OutboxEvent} n [] ≡ []
take_nil zero = refl
take_nil (suc n) = refl

module _ (limit interval batch : ℕ) where
  unfoldable pub crash_once : Crash → Db → Db
  crash_once c db =
      let (_, left) = claim_outbox_batch unlocked c.claim_at (suc limit) db in
      swept left (sweep unlocked c.sweep_at interval (suc batch) left)

  unfoldable pub crashes : List Crash → Db → Db
  crashes [] db = db
  crashes (c ∷ rest) db = crashes rest (crash_once c db)

  -- Every claim is made when the row is due, and every sweep when its claim is older than the
  -- interval.
  abbrev pub IsSpaced : Time → List Crash → Type 0
  IsSpaced after [] = Unit
  IsSpaced after (c ∷ rest) =
      (after ≤ c.claim_at) × (c.claim_at + seconds interval < c.sweep_at) × IsSpaced c.sweep_at rest

  -- the tables with one row in the outbox
  abbrev pub alone : OutboxEvent → Db → Db
  alone e db = record db { outbox_events = e ∷ [] }

  claim-alone :
      (now : Time) (e : OutboxEvent) (db : Db)
      → e.status ≡ pending
      → e.process_after ≤ now
      → (claim_outbox_batch unlocked now (suc limit) (alone e db)).1 ≡ alone (claimed now e) db
  unfolding claim_outbox_batch due
  claim-alone now e db is_pending ready =
      let passed : leb e.process_after now ≡ true = ground arith in
      rw (is_pending, passed, ==_refl e.id) refl

  sweep-alone :
      (now : Time) (e : OutboxEvent) (db : Db)
      → e.status ≡ processing
      → e.updated_at + seconds interval < now
      → swept (alone e db) (sweep unlocked now interval (suc batch) (alone e db))
        ≡ failed_db now e reaped true (alone e db)
  unfolding sweep reap claim_stuck_processing
  sweep-alone now e db is_processing old =
      let passed : ltb (e.updated_at + seconds interval) now ≡ true = ground arith in
      let stuck : claim_stuck_processing unlocked now interval (suc batch) (alone e db) ≡ e ∷ [] =
        rw (is_processing, passed)
          (ap (λ xs. record e { status = processing } ∷ xs) (take_nil batch)) in
      let reaped_one : swept (alone e db) (reap now (e ∷ []) (alone e db))
          ≡ failed_db now e reaped true (alone e db) =
        rw (◌>>=◌, mark_failed_outcome now e reaped true (alone e db)) refl in
      ap (λ xs. swept (alone e db) (reap now xs (alone e db))) stuck ∙ reaped_one

  abbrev after : Crash → OutboxEvent → OutboxEvent
  after c e = failed_row c.sweep_at (claimed c.claim_at e) reaped true

  after_attempts : (c : Crash) (e : OutboxEvent) → (after c e).attempts ≡ e.attempts + 1
  after_attempts c e = ground arith

  after_status :
      (c : Crash) (e : OutboxEvent)
      → (after c e).status ≡ (if leb 5 (e.attempts + 1) then dead_letter else pending)
  after_status c e = ground arith

  after_due :
      (c : Crash) (e : OutboxEvent) → e.attempts + 1 < 5 → (after c e).process_after ≡ c.sweep_at
  after_due c e few = ground arith

  after_id : (c : Crash) (e : OutboxEvent) → (after c e).id ≡ e.id
  after_id c e = ground arith

  crash_once-alone :
      (c : Crash) (e : OutboxEvent) (db : Db)
      → e.status ≡ pending
      → e.process_after ≤ c.claim_at
      → c.claim_at + seconds interval < c.sweep_at
      → (db' : Db) × (crash_once c (alone e db) ≡ alone (after c e) db')
  unfolding crash_once
  crash_once-alone c e db is_pending ready old =
      let left = claim-alone c.claim_at e db is_pending ready in
      let saved : update (by_id (after c e).id) (λ _. after c e) (claimed c.claim_at e ∷ [])
          ≡ after c e ∷ [] =
        rw (after_id c e, ==_refl e.id) refl in
      (
        failed_db c.sweep_at (claimed c.claim_at e) reaped true (alone (claimed c.claim_at e) db),
        ap (λ d. swept d (sweep unlocked c.sweep_at interval (suc batch) d)) left
            ∙ sweep-alone c.sweep_at (claimed c.claim_at e) db refl old
            ∙ ap
                (λ rows.
                  record (failed_db c.sweep_at (claimed c.claim_at e) reaped true
                    (alone (claimed c.claim_at e) db)) { outbox_events = rows })
                saved,
      )

  -- An event that is alone in the outbox, and whose worker dies after every claim of it, is
  -- claimed, swept and counted at every crash: after fewer than five it is pending, and after the
  -- fifth dead-lettered. Every claim is made when the event is due, and every sweep when the claim
  -- is older than the interval.
  pub poison_dead_letters :
      (e : OutboxEvent) (db : Db) (cs : List Crash)
      → e.status ≡ pending
      → e.attempts < 5
      → e.attempts + length cs ≤ 5
      → IsSpaced e.process_after cs
      → (r : OutboxEvent) × (db' : Db) × (crashes cs (alone e db) ≡ alone r db')
        × (r.id ≡ e.id)
        × (r.attempts ≡ e.attempts + length cs)
        × (r.status ≡ (if leb 5 (e.attempts + length cs) then dead_letter else pending))
  unfolding crashes
  poison_dead_letters e db [] waiting few bound spaced =
      (e, db, refl, refl, omega arith, waiting ∙ ground arith)
  poison_dead_letters e db (c ∷ []) waiting few bound (ready, old, _) =
      let (db', once) = crash_once-alone c e db waiting ready old in
      (after c e, db', once, after_id c e, after_attempts c e, after_status c e)
  poison_dead_letters e db (c ∷ d ∷ rest) waiting few bound (ready, old, spaced) =
      let (db1, once) = crash_once-alone c e db waiting ready old in
      let (r, db', run, same, counted, status) =
        poison_dead_letters (after c e) db1 (d ∷ rest) (after_status c e ∙ ground arith)
          (omega (arith, after_attempts c e)) (omega (arith, after_attempts c e))
          (rw (after_due c e (omega arith)) spaced) in
      (
        r,
        db',
        ap (crashes (d ∷ rest)) once ∙ run,
        same ∙ after_id c e,
        omega (arith, counted, after_attempts c e),
        status
            ∙ ap (λ n. if leb 5 n then dead_letter else pending)
                (omega (arith, after_attempts c e)),
      )
