-- ===== src/Worker/Processor/Kept.antt =====
-- A row leaves the outbox only by its delivery.
use radar_system.Prelude.{
  ◌≡◌, ◌≢◌, refl, sym, subst, ◌∙◌, true, false, Option, none, some, List, [], ◌∷◌, arith, any,
  update,
}
use radar_system.Contracts.{UuidNumber, Time}
use radar_system.Database.Tables.{OutboxEvent, Db}
use radar_system.Database.Tx.{ok, ok_state, >>=-ok, pure}
use radar_system.Database.Outbox.{by_id, event_by_id, save, mark_failed, dead_letter_now}
use radar_system.Database.Outbox.Failure.{
  failed_row, permanent_row, mark_failed_outcome, dead_letter_now_outcome,
}
use radar_system.Worker.Dispatcher.{DispatchResult, DispatchStatus, delivered, retryable, permanent}
use radar_system.Worker.Processor.{
  Recorded, record_row, record_found, record_outcome, dead_lettered, of_failure,
}

-- The outbox has a row of the id.
abbrev pub HasRow : UuidNumber → Db → Type 0
HasRow id db = any (by_id id) db.outbox_events ≡ true

any-saved :
    (id : UuidNumber) (e : OutboxEvent) (rows : List OutboxEvent)
    → any (by_id id) (update (by_id e.id) (λ _. e) rows) ≡ any (by_id id) rows
any-saved id e [] = refl
any-saved id e (r ∷ rows) = ground (arith, any-saved id e rows)

saved-HasRow : (id : UuidNumber) (e : OutboxEvent) (db : Db) → HasRow id db → HasRow id (save e db)
saved-HasRow id e db h = any-saved id e db.outbox_events ∙ h

retry-HasRow :
    (now : Time) (result : DispatchResult) (row : OutboxEvent) (id : UuidNumber) (db : Db)
    {r : Recorded} {db' : Db}
    → record_row now retryable result row db ≡ ok (r, db')
    → HasRow id db
    → HasRow id db'
unfolding record_row
retry-HasRow now result row id db h has =
    let (out, t, failed, last) =
      >>=-ok (mark_failed now row result.detail false) (λ out. pure (of_failure out)) db h in
    let wrote = ok_state (sym (mark_failed_outcome now row result.detail false db) ∙ failed) in
    subst (HasRow id) (wrote ∙ ok_state last)
      (saved-HasRow id (failed_row now row result.detail false) db has)

dead-HasRow :
    (now : Time) (result : DispatchResult) (row : OutboxEvent) (id : UuidNumber) (db : Db)
    {r : Recorded} {db' : Db}
    → record_row now permanent result row db ≡ ok (r, db')
    → HasRow id db
    → HasRow id db'
unfolding record_row
dead-HasRow now result row id db h has =
    let (out, t, dead, last) =
      >>=-ok (dead_letter_now now row result.detail) (λ out. pure dead_lettered) db h in
    let wrote = ok_state (sym (dead_letter_now_outcome now row result.detail db) ∙ dead) in
    subst (HasRow id) (wrote ∙ ok_state last)
      (saved-HasRow id (permanent_row now row result.detail db) db has)

found-HasRow :
    (now : Time) (result : DispatchResult) (s : DispatchStatus) (row : OutboxEvent)
    (id : UuidNumber) (db : Db) {r : Recorded} {db' : Db}
    → s ≢ delivered
    → record_row now s result row db ≡ ok (r, db')
    → HasRow id db
    → HasRow id db'
found-HasRow now result delivered row id db ne h has = absurd (ne refl)
found-HasRow now result retryable row id db ne h has = retry-HasRow now result row id db h has
found-HasRow now result permanent row id db ne h has = dead-HasRow now result row id db h has

-- Recording a dispatch that was not delivered removes no row from the outbox.
pub undelivered-HasRow :
    (now : Time) (event : OutboxEvent) (result : DispatchResult) (id : UuidNumber) (db : Db)
    (r : Recorded) (db' : Db)
    → result.status ≢ delivered
    → record_outcome now event result db ≡ ok (r, db')
    → HasRow id db
    → HasRow id db'
unfolding record_outcome
undelivered-HasRow now event result id db r db' ne h has = by_row (event_by_id event.id db) h
  where
    by_row : (o : Option OutboxEvent) → record_found now result o db ≡ ok (r, db') → HasRow id db'
    by_row none k = subst (HasRow id) (ok_state k) has
    by_row (some row) k = found-HasRow now result result.status row id db ne k has
