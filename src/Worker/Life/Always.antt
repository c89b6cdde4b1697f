-- ===== src/Worker/Life/Always.antt =====
-- Every step keeps the outbox sound, and so does any sequence of steps.
use radar_system.Prelude.{
  ℕ, suc, String, ◌≡◌, refl, subst, Bool, true, false, ◌||◌, Option, none, some, List, [], ◌∷◌,
  ◌++◌, arith, if◌then◌else◌, ◌==◌, Bool-cases, inl, inr, any, find_row, All-mono, All-append,
}
use radar_system.Contracts.{Payload, UuidNumber, Time}
use radar_system.Database.Tables.{OutboxEvent, ErrorText, Db, empty_db}
use radar_system.Database.Tx.{ok, ok_state}
use radar_system.Database.Outbox.Keys.{snoc-HasUniqueIds}
use radar_system.Database.Outbox.{
  by_id, event_by_id, fresh_row, claim_stuck_processing, write_outbox_event, mark_dispatched,
  mark_failed, dead_letter_now,
}
use radar_system.Database.Tx.{>>=-ok, pure, ◌>>=◌, raise-ne-ok}
use radar_system.Worker.Dispatcher.{DispatchStatus, DispatchResult, delivered, retryable, permanent}
use radar_system.Worker.Processor.{Recorded, of_failure, record_row, record_found, record_outcome}
use radar_system.Worker.Reaper.{
  reap, sweep, is_dead_with, revived, requeue_receipt, requeue_found, requeue_dead_letter,
}
use radar_system.Worker.Life.{
  Step, write, claim, record_result, reap_stuck, requeue, Reach, here, next,
}
use radar_system.Worker.Life.Sound.{
  IsRowSound, IsSound, sound_longer, saved-IsSound, mark_failed-IsSound, dead_letter_now-IsSound,
  mark_dispatched-IsSound,
}
use radar_system.Worker.Life.Claimed.{claim-IsSound}

no_or : (a b : Bool) → (a || b) ≡ false → b ≡ false
no_or a b h = ground arith

any-or_right :
    (p q : OutboxEvent → Bool) (es : List OutboxEvent)
    → any (λ e. p e || q e) es ≡ false
    → any q es ≡ false
any-or_right p q [] h = refl
any-or_right p q (e ∷ es) h = ground (arith, any-or_right p q es)

write-IsSound :
    (id event_id : UuidNumber) (event_type target : String) (payload : Payload)
    (correlation_id : UuidNumber) (now : Time) (db : Db) {e : OutboxEvent} {db' : Db}
    → write_outbox_event id event_id event_type target payload correlation_id now db ≡ ok (e, db')
    → IsSound db
    → IsSound db'
unfolding write_outbox_event
write-IsSound id event_id event_type target payload correlation_id now db h s =
    elim (Bool-cases (any (λ e. e.event_id == event_id || e.id == id) db.outbox_events)) [
      | inl taken ↦ absurd (raise-ne-ok (rw taken at h))
      | inr free ↦
          let new : OutboxEvent =
            fresh_row id event_id event_type target payload correlation_id now in
          subst IsSound (ok_state (rw free at h)) (record {
            rows =
                All-append (IsRowSound db.audit_log) db.outbox_events (new ∷ []) s.rows
                  (record { attempts_left = λ _. omega arith; receipted = λ d. cc }, tt);
            keys =
                snoc-HasUniqueIds db.outbox_events new
                  (any-or_right (λ e. e.event_id == event_id) (by_id id) db.outbox_events free)
                  s.keys;
          })
    ]

record_row-IsSound :
    (now : Time) (status : DispatchStatus) (result : DispatchResult) (row : OutboxEvent) (db : Db)
    {r : Recorded} {db' : Db}
    → record_row now status result row db ≡ ok (r, db')
    → IsSound db
    → IsSound db'
unfolding record_row
record_row-IsSound now delivered result row db h s =
    let (u, t, first, last) = >>=-ok (mark_dispatched row) (λ _. pure Recorded.removed) db h in
    subst IsSound (ok_state last) (mark_dispatched-IsSound row db first s)
record_row-IsSound now permanent result row db h s =
    let (e, t, first, last) =
      >>=-ok (dead_letter_now now row result.detail) (λ _. pure Recorded.dead_lettered) db h in
    subst IsSound (ok_state last) (dead_letter_now-IsSound now row result.detail db first s)
record_row-IsSound now retryable result row db h s =
    let (out, t, first, last) =
      >>=-ok (mark_failed now row result.detail false) (λ out. pure (of_failure out)) db h in
    subst IsSound (ok_state last) (mark_failed-IsSound now row result.detail false db first s)

record_found-IsSound :
    (now : Time) (result : DispatchResult) (found : Option OutboxEvent) (db : Db) {r : Recorded}
    {db' : Db}
    → record_found now result found db ≡ ok (r, db')
    → IsSound db
    → IsSound db'
record_found-IsSound now result none db h s = subst IsSound (ok_state h) s
record_found-IsSound now result (some row) db h s =
    record_row-IsSound now result.status result row db h s

reap-IsSound :
    (now : Time) (stuck : List OutboxEvent) (db : Db) {n : ℕ} {db' : Db}
    → reap now stuck db ≡ ok (n, db')
    → IsSound db
    → IsSound db'
unfolding reap
reap-IsSound now [] db h s = subst IsSound (ok_state h) s
reap-IsSound now (e ∷ rest) db h s =
    let (out, t, first, later) =
      >>=-ok (mark_failed now e ErrorText.reaped true)
        (λ out. reap now rest >>= λ n. pure (if out.1 then suc n else n)) db h in
    let (n, u, second, last) =
      >>=-ok (reap now rest) (λ n. pure (if out.1 then suc n else n)) t later in
    subst IsSound (ok_state last)
      (reap-IsSound now rest t second (mark_failed-IsSound now e ErrorText.reaped true db first s))

requeue_found-IsSound :
    (now : Time) (found : Option OutboxEvent) (db : Db) {o : Option OutboxEvent} {db' : Db}
    → requeue_found now found db ≡ ok (o, db')
    → IsSound db
    → IsSound db'
requeue_found-IsSound now none db h s = subst IsSound (ok_state h) s
requeue_found-IsSound now (some e) db h s = subst IsSound (ok_state h) (
    saved-IsSound (revived now e) (record db { audit_log = db.audit_log ++ requeue_receipt e ∷ [] })
      refl (omega arith)
      (record {
        rows =
            All-mono {P = IsRowSound db.audit_log}
              {Q = IsRowSound (db.audit_log ++ requeue_receipt e ∷ [])}
              (sound_longer db.audit_log (requeue_receipt e ∷ [])) db.outbox_events s.rows;
        keys = s.keys;
      }))

-- Every committed transaction over the outbox keeps it sound: keys stay unique, a row that is not
-- dead-lettered has attempts left, and every dead-lettered row has its audit record.
pub Step-IsSound : {db db' : Db} → Step db db' → IsSound db → IsSound db'
unfolding record_outcome sweep requeue_dead_letter
Step-IsSound {db} (write id event_id event_type target payload correlation_id now h) s =
    write-IsSound id event_id event_type target payload correlation_id now db h s
Step-IsSound {db} (claim locked now limit) s = claim-IsSound locked now limit db s
Step-IsSound {db} (record_result now event result h) s =
    record_found-IsSound now result (event_by_id event.id db) db h s
Step-IsSound {db} (reap_stuck locked now interval limit h) s =
    reap-IsSound now (claim_stuck_processing locked now interval limit db) db h s
Step-IsSound {db} (requeue now event_id h) s =
    requeue_found-IsSound now (find_row (is_dead_with event_id) db.outbox_events) db h s

-- After any sequence of writes, claims, recorded dispatches, reaper sweeps and requeues from an
-- empty database, a row that is not dead-lettered has attempts left, every dead-lettered row has
-- its audit record, and row ids are unique.
pub Reach-IsSound : {db : Db} → Reach empty_db db → IsSound db
Reach-IsSound here = record { rows = tt; keys = tt }
Reach-IsSound (next before step) = Step-IsSound step (Reach-IsSound before)
