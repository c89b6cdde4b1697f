-- ===== src/Worker/Tests.antt =====
-- Runs of the worker on concrete rows, and the laws at those inputs.
use radar_system.Prelude.{
  List, ℕ, ◌+◌, ◌<◌, ◌==◌, String, ◌≡◌, ◌≢◌, refl, Bool, true, false, none, some, [], ◌∷◌, delete,
  arith,
}
use radar_system.Contracts.{UuidNumber, Time, EventEnvelope, other}
use radar_system.Database.Tables.{OutboxEvent, dead_letter, no_text, Db, empty_db}
use radar_system.Database.Outbox.{
  mark_failed, fresh_row, due, claim_outbox_batch, write_outbox_event, mark_dispatched,
}
use radar_system.Database.Tx.{Tx, ok, modify, committed}
use radar_system.Worker.Processor.Kept.{HasRow, undelivered-HasRow}
use radar_system.Worker.Dispatcher.{
  DispatchResult, Reply, response, Routing, dispatch, DispatchStatus, delivered, retryable,
  permanent,
}
use radar_system.Worker.Dispatcher.Safety.{IsExplained, dispatch-IsExplained}
use radar_system.Worker.Processor.{removed, retry_scheduled, record_outcome, record_row}
use radar_system.Worker.Life.{Reach, write, claim, record_result, here, next}
use radar_system.Worker.Life.Sound.{IsSound}
use radar_system.Worker.Life.Always.{Reach-IsSound}
use radar_system.Worker.Life.Crash.{Crash, crashes, poison_dead_letters}

abbrev row : OutboxEvent
row = fresh_row 1 11 "alert.normalized" "watcher-agent" (other []) 7 100

abbrev routing : Routing
routing = record {
  url_template = "http://{target}:8000/events";
  url_overrides = [];
  timeout_default = 10_000_000;
  timeout_overrides = [];
  tokens = ("watcher-agent", "secret") ∷ [];
}

abbrev format_all : String → String → String
format_all template target = "http://watcher-agent:8000/events"

abbrev accepting : String → EventEnvelope → String → Time → Reply
accepting url envelope token budget = response 200

dispatch-IsExplained_example :
    IsExplained format_all accepting routing row (dispatch format_all accepting routing row).status
dispatch-IsExplained_example = dispatch-IsExplained format_all accepting routing row

abbrev crash_at : ℕ → Crash
crash_at n = record { claim_at = n; sweep_at = n + 90_000_000 }

abbrev five_crashes : List Crash
five_crashes =
    crash_at 100_000_000
    ∷ crash_at 200_000_000
    ∷ crash_at 300_000_000
    ∷ crash_at 400_000_000
    ∷ crash_at 500_000_000
    ∷ []

poison_dead_letters_example :
    (r : OutboxEvent) × (db' : Db) × (crashes 9 60 9 five_crashes
        (record empty_db { outbox_events = row ∷ [] })
      ≡ record db' { outbox_events = r ∷ [] })
    × (r.id ≡ 1)
    × (r.attempts ≡ 5)
    × (r.status ≡ dead_letter)
poison_dead_letters_example =
    poison_dead_letters 9 60 9 row empty_db five_crashes refl (omega arith) (omega arith) (
      omega arith,
      omega arith,
      (
        omega arith,
        omega arith,
        (omega arith, omega arith, (omega arith, omega arith, (omega arith, omega arith, tt))),
      ),
    )

abbrev no_locks : UuidNumber → Bool
no_locks id = false

abbrev accepted : DispatchResult
accepted = record { status = delivered; reason = "ok"; status_code = some 200; detail = no_text }

abbrev delivered_db : Db
delivered_db = record empty_db { outbox_events = [] }

-- a row's life: written, claimed, delivered
lived : Reach empty_db delivered_db
unfolding write_outbox_event claim_outbox_batch due record_outcome record_row mark_dispatched
lived =
    next
      (next
        (next here (write {e = row} 1 11 "alert.normalized" "watcher-agent" (other []) 7 100 refl))
        (claim no_locks 200 10))
      (record_result {r = removed} 300 row accepted refl)

Reach-IsSound_example : IsSound delivered_db
Reach-IsSound_example = Reach-IsSound lived

-- two events, and the stop signal before the second
abbrev second_row : OutboxEvent
second_row = fresh_row 2 12 "alert.normalized" "watcher-agent" (other []) 7 100

abbrev stopping : ℕ → Bool
stopping n = n == 1

abbrev delivering : OutboxEvent → Tx Unit
delivering event =
    modify (λ db. record db { outbox_events = delete (λ e. e.id == event.id) db.outbox_events })

abbrev two_rows : Db
two_rows = record empty_db { outbox_events = row ∷ second_row ∷ [] }

running_first : (k : ℕ) → k < 1 → stopping (0 + k) ≡ false
running_first k h = ground arith

abbrev timed_out : DispatchResult
timed_out = record { status = retryable; reason = "timeout"; status_code = none; detail = no_text }

abbrev is_delivered : DispatchStatus → Bool
is_delivered delivered = true
is_delivered retryable = false
is_delivered permanent = false

retryable-ne-delivered : retryable ≢ delivered
retryable-ne-delivered e = cc

retried_db : Db
unfolding record_outcome
retried_db = committed (record_outcome 300 row timed_out) two_rows

retried : record_outcome 300 row timed_out two_rows ≡ ok (retry_scheduled, retried_db)
unfolding record_outcome retried_db record_row mark_failed
retried = refl

undelivered-HasRow_example : HasRow 1 retried_db
undelivered-HasRow_example =
    undelivered-HasRow 300 row timed_out 1 two_rows retry_scheduled retried_db
      retryable-ne-delivered retried refl
