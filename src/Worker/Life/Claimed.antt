-- ===== src/Worker/Life/Claimed.antt =====
-- A claim keeps the outbox sound: what it takes is live, since keys are unique.
use radar_system.Prelude.{
  ℕ, ◌≡◌, refl, sym, ap, subst, Bool, true, false, ◌&&◌, some, List, leb, ◌==◌, find_row, All,
  All-mono, All-update, ◌∙◌, ==→eq, not, any_sound, All-both, All-select, select, select-All,
  All-take, All-order_by, order_by,
}
use mathlib.Core.Option.{some-injective}
use radar_system.Contracts.{UuidNumber, Time}
use radar_system.Database.Tables.{
  OutboxEvent, OutboxStatus, pending, processing, dead_letter, Db, is_dead_letter, is_pending,
}
use radar_system.Database.Outbox.Keys.{HasUniqueIds, self_found, update-HasUniqueIds}
use radar_system.Database.Outbox.{by_id, is_due, claimed, holds_id, due, claim_outbox_batch}
use radar_system.Worker.Life.Sound.{IsRowSound, IsSound}

abbrev IsLive : OutboxEvent → Type 0
IsLive e = is_dead_letter e.status ≡ false

due_live :
    (o : OutboxStatus) (l : Bool) (n d : ℕ)
    → (is_pending o && leb n d && not l) ≡ true
    → is_dead_letter o ≡ false
due_live pending l n d h = refl
due_live processing l n d h = refl
due_live dead_letter l n d h = cc

live_of_same :
    (table : List OutboxEvent) (a b : OutboxEvent)
    → find_row (by_id a.id) table ≡ some a
    → find_row (by_id b.id) table ≡ some b
    → (b.id == a.id) ≡ true
    → IsLive b
    → IsLive a
live_of_same table a b fa fb same live =
    let same_id = ==→eq b.id a.id same in
    let same_row : some a ≡ some b =
      sym fa ∙ ap (λ (k : UuidNumber). find_row (by_id k) table) (sym same_id) ∙ fb in
    subst IsLive (some-injective b a (sym same_row)) live

-- What a claim takes is found under its key and is live.
batch_live :
    (locked : UuidNumber → Bool) (now : Time) (limit : ℕ) (db : Db)
    → HasUniqueIds db.outbox_events
    → All
        (λ e. (find_row (by_id e.id) db.outbox_events ≡ some e) × IsLive e)
        (due locked now limit db)
unfolding due
batch_live locked now limit db u =
    let table = db.outbox_events in
    let good = λ (e : OutboxEvent). (find_row (by_id e.id) table ≡ some e) × IsLive e in
    let candidates = select (is_due locked now) table in
    let all_good : All good candidates =
      All-mono
        {P = λ (e : OutboxEvent).
          (find_row (by_id e.id) table ≡ some e) × (is_due locked now e ≡ true)}
        {Q = good} (λ e k. (k.0, due_live e.status (locked e.id) e.process_after now k.1))
        candidates
        (All-both (λ (e : OutboxEvent). find_row (by_id e.id) table ≡ some e)
          (λ e. is_due locked now e ≡ true) candidates
          (All-select (λ (e : OutboxEvent). find_row (by_id e.id) table ≡ some e)
            (is_due locked now) table (self_found table u))
          (select-All (is_due locked now) table)) in
    All-take good limit (order_by (λ e. e.created_at) candidates)
      (All-order_by good (λ e. e.created_at) candidates all_good)

pub claim-IsSound :
    (locked : UuidNumber → Bool) (now : Time) (limit : ℕ) (db : Db)
    → IsSound db
    → IsSound (claim_outbox_batch locked now limit db).1
unfolding claim_outbox_batch
claim-IsSound locked now limit db s =
    let table = db.outbox_events in
    let batch = due locked now limit db in
    let found = λ (e : OutboxEvent). find_row (by_id e.id) table ≡ some e in
    let sound = IsRowSound db.audit_log in
    record {
      rows =
          All-update (λ e. sound e × found e) sound (λ e. holds_id batch e.id) (claimed now) table
            (λ a k t.
              let (b, (found_b, live), same) =
                any_sound (λ e. found e × IsLive e) (by_id a.id) batch
                  (batch_live locked now limit db s.keys) t in
              record {
                attempts_left =
                    λ _. k.0.attempts_left (live_of_same table a b k.1 found_b same live);
                receipted = λ d. cc;
              })
            (λ a k _. k.0) (All-both sound found table s.rows (self_found table s.keys));
      keys =
          update-HasUniqueIds (λ e. holds_id batch e.id) (claimed now) table (λ _ _. refl) s.keys;
    }
