-- ===== src/Database/Repository/Marker.antt =====
-- The idempotency markers: one for each event and service, written once.
use radar_system.Prelude.{
  inl, inr, sym, refl, subst, ◌∙◌, Bool-cases, String, ◌≡◌, true, false, ◌&&◌, ◌∷◌, arith,
  if◌then◌else◌, str_eq, eq_refl, ◌==◌, ==_refl,
}
use radar_system.Contracts.{UuidNumber}
use radar_system.Database.Tables.{Db}
use radar_system.Database.Tx.{ok, err, integrity_error, ok_state, raise-ne-ok}
use radar_system.Database.Repository.{is_already_processed, mark_processed}

-- The database with one more marker.
abbrev pub with_marker : UuidNumber → String → Db → Db
with_marker event_id service db = record db {
  processed_events = record { event_id = event_id; processed_by = service } ∷ db.processed_events;
}

pub mark_once :
    (id : UuidNumber) (service : String) (db : Db)
    → mark_processed id service db ≡ (
        if is_already_processed id service db
        then err integrity_error
        else ok (tt, with_marker id service db))
unfolding mark_processed
mark_once id service db = ground arith

-- After a marker is written, exactly that event of that service is newly known as processed.
pub marked_after :
    (id other : UuidNumber) (service reader : String) (db : Db)
    → is_already_processed other reader (with_marker id service db) ≡ (
        if id == other && str_eq service reader then true else is_already_processed other reader db)
unfolding is_already_processed
marked_after id other service reader db = ground arith

-- An event without a marker gets one, is known from then on, and the second write of its marker
-- is the primary key's IntegrityError.
pub mark-mark :
    (id : UuidNumber) (service : String) (db : Db)
    → is_already_processed id service db ≡ false
    → (mark_processed id service db ≡ ok (tt, with_marker id service db))
      × (is_already_processed id service (with_marker id service db) ≡ true)
      × (mark_processed id service (with_marker id service db) ≡ err integrity_error)
mark-mark id service db h =
    let again : is_already_processed id service (with_marker id service db) ≡ true =
      rw marked_after (rw (==_refl id, eq_refl service)) in
    (rw (mark_once, h), again, rw (mark_once, again))

-- What a marker that was written leaves.
pub mark_ok_state :
    (id : UuidNumber) (service : String) (db : Db) {u : Unit} {db' : Db}
    → mark_processed id service db ≡ ok (u, db')
    → with_marker id service db ≡ db'
mark_ok_state id service db {u} {db'} h = elim (Bool-cases (is_already_processed id service db)) [
  | inl seen ↦
      absurd (raise-ne-ok {x = integrity_error} (sym (mark_once id service db ∙ rw seen refl) ∙ h))
  | inr new ↦ ok_state {a = tt} {b = u} (sym (mark_once id service db ∙ rw new refl) ∙ h)
]

-- A marker that was written is known.
pub mark_ok_known :
    (id : UuidNumber) (service : String) (db : Db) {u : Unit} {db' : Db}
    → mark_processed id service db ≡ ok (u, db')
    → is_already_processed id service db' ≡ true
mark_ok_known id service db h =
    subst (λ d. is_already_processed id service d ≡ true) (mark_ok_state id service db h)
      (marked_after id id service service db ∙ rw (==_refl id, eq_refl service) refl)
