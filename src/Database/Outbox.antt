-- ===== src/Database/Outbox.antt =====
-- packages/database/src/radar_database/outbox.py: writing, claiming, rescheduling and
-- dead-lettering outbox rows. `now` is the database's clock, NOW(), one value in a transaction.
-- A row that another transaction has locked is passed over (SKIP LOCKED): `locked` says which.
pub mod Keys
pub mod Claim
pub mod Failure
pub mod Written
use radar_system.Prelude.{
  ℕ, zero, suc, ◌+◌, ◌-◌, ◌≤◌, String, Bool, true, false, not, ◌&&◌, ◌||◌, Option, none, some, List,
  [], ◌∷◌, ◌++◌, leb, ltb, ◌==◌, if◌then◌else◌, find_row, update, select, delete, any, take,
  order_by, map,
}
use radar_system.Contracts.{UuidNumber, Time, seconds, Payload}
use radar_system.Database.Tables.{
  OutboxEvent, OutboxStatus, pending, processing, dead_letter, ErrorText, AuditLog, dead_lettered,
  Db, is_pending, is_processing,
}
use radar_system.Database.Tx.{
  Tx, ◌>>=◌, ◌>>◌, pure, raise, gets, modify, add_audit, integrity_error, key_error,
}

abbrev pub default_batch_size : ℕ
default_batch_size = 10

abbrev pub max_attempts : ℕ
max_attempts = 5

-- `RETRY_DELAYS_SECONDS[attempt]`; `none` is its KeyError
abbrev pub retry_delay : ℕ → Option ℕ
retry_delay attempt =
    if attempt == 2
    then some 5
    else if attempt == 3
    then some 15
    else if attempt == 4
    then some 60
    else if attempt == 5
    then some 300
    else none

abbrev pub dead_letter_actor : String
dead_letter_actor = "outbox-worker"

abbrev pub by_id : UuidNumber → OutboxEvent → Bool
by_id id e = e.id == id

abbrev pub event_by_id : UuidNumber → Db → Option OutboxEvent
event_by_id id db = find_row (by_id id) db.outbox_events

-- the flush of a changed row
abbrev pub save : OutboxEvent → Db → Db
save e db = record db { outbox_events = update (by_id e.id) (λ _. e) db.outbox_events }

abbrev pub fresh_row :
    UuidNumber → UuidNumber → String → String → Payload → UuidNumber → Time → OutboxEvent
fresh_row id event_id event_type target_service payload correlation_id now = record {
  id = id;
  event_id = event_id;
  event_type = event_type;
  target_service = target_service;
  payload = payload;
  correlation_id = correlation_id;
  status = pending;
  attempts = 0;
  last_error = none;
  process_after = now;
  created_at = now;
  updated_at = now;
}

-- `write_outbox_event`: `event_id` is unique. `id` is the row key that the database generates.
unfoldable pub write_outbox_event :
    UuidNumber → UuidNumber → String → String → Payload → UuidNumber → Time → Tx OutboxEvent
write_outbox_event id event_id event_type target_service payload correlation_id now db =
    let event = fresh_row id event_id event_type target_service payload correlation_id now in
    if any (λ e. e.event_id == event_id || e.id == id) db.outbox_events
    then raise integrity_error db
    else (do modify (λ t. record t { outbox_events = t.outbox_events ++ event ∷ [] }); pure event)
        db

-- the subquery of the claim, before ORDER BY and LIMIT
abbrev pub is_due : (UuidNumber → Bool) → Time → OutboxEvent → Bool
is_due locked now e = is_pending e.status && leb e.process_after now && not (locked e.id)

unfoldable pub due : (UuidNumber → Bool) → Time → ℕ → Db → List OutboxEvent
due locked now limit db =
    take limit (order_by (λ e. e.created_at) (select (is_due locked now) db.outbox_events))

abbrev pub holds_id : List OutboxEvent → UuidNumber → Bool
holds_id batch id = any (by_id id) batch

abbrev pub claimed : Time → OutboxEvent → OutboxEvent
claimed now e = record e { status = processing; updated_at = now }

-- `claim_outbox_batch`: UPDATE … WHERE id IN (due) RETURNING
unfoldable pub claim_outbox_batch : (UuidNumber → Bool) → Time → ℕ → Db → List OutboxEvent × Db
unfolding due
claim_outbox_batch locked now limit db =
    let batch = due locked now limit db in
    (
      map (claimed now) (select (λ e. holds_id batch e.id) db.outbox_events),
      record db {
        outbox_events = update (λ e. holds_id batch e.id) (claimed now) db.outbox_events;
      },
    )

-- `claim_stuck_processing`: `updated_at < now - age`, written without a truncated subtraction
abbrev pub is_stuck : (UuidNumber → Bool) → Time → ℕ → OutboxEvent → Bool
is_stuck locked now age e =
    is_processing e.status && ltb (e.updated_at + seconds age) now && not (locked e.id)

unfoldable pub claim_stuck_processing : (UuidNumber → Bool) → Time → ℕ → ℕ → Db → List OutboxEvent
claim_stuck_processing locked now age limit db =
    take limit (order_by (λ e. e.updated_at) (select (is_stuck locked now age) db.outbox_events))

unfoldable pub mark_dispatched : OutboxEvent → Tx Unit
mark_dispatched event =
    modify λ db. record db { outbox_events = delete (by_id event.id) db.outbox_events }

-- `_promote_to_dead_letter`: the row takes the status, and one audit row is added
unfoldable pub promote_to_dead_letter : OutboxEvent → ErrorText → String → Tx OutboxEvent
promote_to_dead_letter event error trigger = do
  let dead = record event { status = dead_letter }
  modify (save dead)
  add_audit (record {
    event_type = "outbox.dead_letter";
    entity_type = "outbox_event";
    entity_id = event.id;
    correlation_id = event.correlation_id;
    actor = dead_letter_actor;
    payload =
        dead_lettered event.event_id event.event_type event.target_service event.attempts error
          trigger;
  })
  pure dead

-- the count, the error and the clock that every failed dispatch leaves on the row
abbrev pub counted : Time → ErrorText → OutboxEvent → OutboxEvent
counted now error event = record event {
  attempts = event.attempts + 1;
  last_error = some error;
  updated_at = now;
}

abbrev or_key_error : Option ℕ → Tx ℕ
or_key_error (some delay) = pure delay
or_key_error none = raise key_error

-- `mark_failed`: the new row, and whether it was dead-lettered. The looked-up delay is read in the
-- branch that needs it only.
unfoldable pub mark_failed : Time → OutboxEvent → ErrorText → Bool → Tx (OutboxEvent × Bool)
unfolding promote_to_dead_letter
mark_failed now event error immediate =
    let e = counted now error event in
    if leb max_attempts e.attempts
    then (do dead ← promote_to_dead_letter e error "exhausted"; pure (dead, true))
    else if immediate
    then (do
      let again = record e { status = pending; process_after = now }
      modify (save again)
      pure (again, false))
    else (do
      delay ← or_key_error (retry_delay (e.attempts + 1))
      let again = record e { status = pending; process_after = now + seconds delay }
      modify (save again)
      pure (again, false))

unfoldable pub dead_letter_now : Time → OutboxEvent → ErrorText → Tx OutboxEvent
unfolding promote_to_dead_letter
dead_letter_now now event error = promote_to_dead_letter (counted now error event) error "permanent"
