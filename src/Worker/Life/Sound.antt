-- ===== src/Worker/Life/Sound.antt =====
-- Attempts stay below the ceiling while a row is live, and every dead letter has its audit record.
use radar_system.Prelude.{
  ◌+◌, ◌<◌, String, ◌≡◌, refl, sym, subst, Bool, true, false, ◌&&◌, List, [], ◌∷◌, ◌++◌, arith,
  if◌then◌else◌, leb, ◌==◌, ==_refl, str_eq, Bool-cases, inl, inr, any, update, All, All-mono,
  All-update, All-delete, ◌∙◌, ==→eq, leb-false→lt,
}
use radar_system.Contracts.{UuidNumber, Time, seconds}
use radar_system.Database.Tables.{
  OutboxEvent, pending, dead_letter, ErrorText, AuditLog, Db, is_dead_letter,
}
use radar_system.Database.Tx.{ok, ok_state}
use radar_system.Database.Outbox.Keys.{HasUniqueIds, update-HasUniqueIds, delete-HasUniqueIds}
use radar_system.Database.Outbox.{
  max_attempts, by_id, save, counted, mark_dispatched, mark_failed, dead_letter_now,
}
use radar_system.Database.Outbox.Failure.{
  backoff, dead_letter_receipt, failed_db, mark_failed_outcome, permanent_row,
  dead_letter_now_outcome,
}

-- the audit record of a row's dead-lettering
abbrev pub is_receipt : UuidNumber → AuditLog → Bool
is_receipt id a = str_eq a.event_type "outbox.dead_letter" && a.entity_id == id

pub record IsRowSound (log : List AuditLog) (e : OutboxEvent) : Type 0 where
  pub attempts_left : is_dead_letter e.status ≡ false → e.attempts < max_attempts
  pub receipted : is_dead_letter e.status ≡ true → any (is_receipt e.id) log ≡ true

pub record IsSound (db : Db) : Type 0 where
  pub rows : All (IsRowSound db.audit_log) db.outbox_events
  pub keys : HasUniqueIds db.outbox_events

any-append_left :
    {A : Type 0} (p : A → Bool) (xs ys : List A) → any p xs ≡ true → any p (xs ++ ys) ≡ true
any-append_left p [] ys h = cc
any-append_left p (x ∷ xs) ys h = ground (arith, any-append_left p xs ys)

any-append_right :
    {A : Type 0} (p : A → Bool) (xs ys : List A) → any p ys ≡ true → any p (xs ++ ys) ≡ true
any-append_right p [] ys h = h
any-append_right p (x ∷ xs) ys h = ground (arith, any-append_right p xs ys)

-- A longer audit log keeps every row sound.
pub sound_longer :
    (log more : List AuditLog) (e : OutboxEvent) → IsRowSound log e → IsRowSound (log ++ more) e
sound_longer log more e h = record {
  attempts_left = h.attempts_left;
  receipted = λ d. any-append_left (is_receipt e.id) log more (h.receipted d);
}

sound_save :
    (log : List AuditLog) (e : OutboxEvent) (es : List OutboxEvent)
    → IsRowSound log e
    → All (IsRowSound log) es
    → All (IsRowSound log) (update (by_id e.id) (λ _. e) es)
sound_save log e es row h =
    All-update (IsRowSound log) (IsRowSound log) (by_id e.id) (λ _. e) es (λ _ _ _. row)
      (λ _ k _. k) h

receipt_found :
    (log : List AuditLog) (e : OutboxEvent) (error : ErrorText) (trigger : String)
    → any (is_receipt e.id) (log ++ dead_letter_receipt e error trigger ∷ []) ≡ true
receipt_found log e error trigger =
    any-append_right (is_receipt e.id) log (dead_letter_receipt e error trigger ∷ [])
      (rw (==_refl e.id))

-- The keys after a row is saved.
save-HasUniqueIds :
    (e : OutboxEvent) (es : List OutboxEvent)
    → HasUniqueIds es
    → HasUniqueIds (update (by_id e.id) (λ _. e) es)
save-HasUniqueIds e es u =
    update-HasUniqueIds (by_id e.id) (λ _. e) es (λ x t. sym (==→eq x.id e.id t)) u

-- A dead row whose receipt was just written leaves the tables sound.
promoted-IsSound :
    (e dead : OutboxEvent) (error : ErrorText) (trigger : String) (db : Db)
    → dead.id ≡ e.id
    → is_dead_letter dead.status ≡ true
    → IsSound db
    → IsSound (record (save dead db) {
      audit_log = db.audit_log ++ dead_letter_receipt e error trigger ∷ [];
    })
promoted-IsSound e dead error trigger db same is_dead s =
    let log = db.audit_log ++ dead_letter_receipt e error trigger ∷ [] in
    record {
      rows =
          sound_save log dead db.outbox_events
            (record {
              attempts_left = λ live. cc;
              receipted = λ _. rw same (receipt_found db.audit_log e error trigger);
            })
            (All-mono {P = IsRowSound db.audit_log} {Q = IsRowSound log}
              (sound_longer db.audit_log (dead_letter_receipt e error trigger ∷ []))
              db.outbox_events s.rows);
      keys = save-HasUniqueIds dead db.outbox_events s.keys;
    }

-- A live row saved under the ceiling leaves them sound too.
pub saved-IsSound :
    (e : OutboxEvent) (db : Db)
    → is_dead_letter e.status ≡ false
    → e.attempts < max_attempts
    → IsSound db
    → IsSound (save e db)
saved-IsSound e db live under s = record {
  rows =
      sound_save db.audit_log e db.outbox_events
        (record { attempts_left = λ _. under; receipted = λ d. cc }) s.rows;
  keys = save-HasUniqueIds e db.outbox_events s.keys;
}

failed_db-IsSound :
    (now : Time) (e : OutboxEvent) (error : ErrorText) (immediate : Bool) (db : Db)
    → IsSound db
    → IsSound (failed_db now e error immediate db)
failed_db-IsSound now e error immediate db s =
    elim (Bool-cases (leb max_attempts (e.attempts + 1))) [
      | inl done ↦ rw done (
          promoted-IsSound e (record (counted now error e) { status = dead_letter }) error
            "exhausted" db refl refl s)
      | inr more ↦ rw more (
          saved-IsSound
            (record (counted now error e) {
              status = pending;
              process_after = if immediate then now else now + seconds (backoff e.attempts);
            })
            db refl (leb-false→lt max_attempts (e.attempts + 1) more) s)
    ]

-- A failed dispatch keeps the tables sound, whatever row it is given.
pub mark_failed-IsSound :
    (now : Time) (e : OutboxEvent) (error : ErrorText) (immediate : Bool) (db : Db)
    {out : OutboxEvent × Bool} {db' : Db}
    → mark_failed now e error immediate db ≡ ok (out, db')
    → IsSound db
    → IsSound db'
mark_failed-IsSound now e error immediate db h s =
    subst IsSound (ok_state (sym (mark_failed_outcome now e error immediate db) ∙ h))
      (failed_db-IsSound now e error immediate db s)

pub dead_letter_now-IsSound :
    (now : Time) (e : OutboxEvent) (error : ErrorText) (db : Db) {out : OutboxEvent} {db' : Db}
    → dead_letter_now now e error db ≡ ok (out, db')
    → IsSound db
    → IsSound db'
dead_letter_now-IsSound now e error db h s =
    subst IsSound (ok_state (sym (dead_letter_now_outcome now e error db) ∙ h))
      (promoted-IsSound e (permanent_row now e error db) error "permanent" db refl refl s)

-- A delivered row leaves the outbox, and the others stay as they are.
pub mark_dispatched-IsSound :
    (e : OutboxEvent) (db : Db) {u : Unit} {db' : Db}
    → mark_dispatched e db ≡ ok (u, db')
    → IsSound db
    → IsSound db'
unfolding mark_dispatched
mark_dispatched-IsSound e db h s = subst IsSound (ok_state h) (record {
  rows = All-delete (IsRowSound db.audit_log) (by_id e.id) db.outbox_events s.rows;
  keys = delete-HasUniqueIds (by_id e.id) db.outbox_events s.keys;
})
