-- ===== src/Database/Outbox/Claim.antt =====
-- What a claim promises: due rows only, at most `limit`, the oldest first, and no row that another
-- worker holds or has claimed.
use radar_system.Prelude.{
  ℕ, ◌+◌, ◌≤◌, ◌≡◌, refl, Bool, true, false, not, ◌&&◌, List, [], ◌∷◌, arith, leb, ◌==◌, ==→eq,
  Bool-cases, inl, inr, any, any_sound, select, count_where, length, length-take-le, length-select,
  length-map, take, drop, order_by, All, All-mono, All-map, All-both, All-intro, All-update,
  All-select, select-All, All-order_by, All-take, order_by-IsSorted, take-le-drop,
}
use radar_system.Contracts.{UuidNumber, Time}
use radar_system.Database.Tables.{OutboxEvent, Db, processing, is_pending}
use radar_system.Database.Outbox.Keys.{HasUniqueIds}
use radar_system.Database.Outbox.{by_id, is_due, due, holds_id, claimed, claim_outbox_batch}

abbrev count_id : UuidNumber → List OutboxEvent → ℕ
count_id id = count_where (by_id id)

count-zero :
    (id : UuidNumber) (es : List OutboxEvent) → any (by_id id) es ≡ false → count_id id es ≡ 0
count-zero id [] h = refl
count-zero id (e ∷ es) h = ground (arith, count-zero id es)

count-le-one : (id : UuidNumber) (es : List OutboxEvent) → HasUniqueIds es → count_id id es ≤ 1
count-le-one id [] h = omega arith
count-le-one id (e ∷ es) h = elim (Bool-cases (e.id == id)) [
  | inl t ↦
      let none_left : any (by_id id) es ≡ false = rw (← ==→eq e.id id t) h.0 in
      rw t (omega (arith, count-zero id es none_left))
  | inr t ↦ rw t (omega (arith, count-le-one id es h.1))
]

==_comm : (a b : ℕ) → (a == b) ≡ (b == a)
==_comm a b = ground arith

count-holds_cons :
    (b : OutboxEvent) (bs es : List OutboxEvent)
    → count_where (λ e. holds_id (b ∷ bs) e.id) es
      ≤ count_id b.id es + count_where (λ e. holds_id bs e.id) es
count-holds_cons b bs [] = omega arith
count-holds_cons b bs (e ∷ es) = elim (Bool-cases (b.id == e.id)) [
  | inl t ↦ rw (t, ==_comm e.id b.id, t) (omega (arith, count-holds_cons b bs es))
  | inr t ↦ rw (t, ==_comm e.id b.id, t) (omega (arith, count-holds_cons b bs es))
]

count-holds-le :
    (bs es : List OutboxEvent)
    → HasUniqueIds es
    → count_where (λ e. holds_id bs e.id) es ≤ length bs
count-holds-le [] [] h = omega arith
count-holds-le [] (e ∷ es) h = omega (arith, count-holds-le [] es h.1)
count-holds-le (b ∷ bs) es h =
    omega (arith, count-holds_cons b bs es, count-le-one b.id es h, count-holds-le bs es h)

module _ (locked : UuidNumber → Bool) (now : Time) (limit : ℕ) (db : Db) where
  batch_due : All (λ e. is_due locked now e ≡ true) (due locked now limit db)
  unfolding due
  batch_due =
      All-take (λ e. is_due locked now e ≡ true) limit
        (order_by (λ e. e.created_at) (select (is_due locked now) db.outbox_events))
        (All-order_by (λ e. is_due locked now e ≡ true) (λ e. e.created_at)
          (select (is_due locked now) db.outbox_events)
          (select-All (is_due locked now) db.outbox_events))

  -- On a table with unique ids, a claim returns at most `limit` rows, each of them now
  -- `processing`.
  pub claim_bounded :
      HasUniqueIds db.outbox_events
      → (length (claim_outbox_batch locked now limit db).0 ≤ limit)
        × All (λ e. e.status ≡ processing) (claim_outbox_batch locked now limit db).0
  unfolding claim_outbox_batch
  claim_bounded u =
      let batch = due locked now limit db in
      (
        omega (
          arith,
          length-map (claimed now) (select (λ e. holds_id batch e.id) db.outbox_events),
          length-select (λ (e : OutboxEvent). holds_id batch e.id) db.outbox_events,
          count-holds-le batch db.outbox_events u,
          length-take-le limit (
              order_by (λ (e : OutboxEvent). e.created_at)
                (select (is_due locked now) db.outbox_events)),
        ),
        All-map (λ e. e.status ≡ processing) (claimed now)
            (select (λ e. holds_id batch e.id) db.outbox_events)
            (All-intro (λ _. processing ≡ processing) (λ _. refl)
              (select (λ e. holds_id batch e.id) db.outbox_events)),
      )

  -- The rows left for later are no older than the rows claimed.
  pub claim_oldest_first :
      let waiting =
        order_by
          (λ (e : OutboxEvent). e.created_at)
          (select (is_due locked now) db.outbox_events) in
      All
        (λ e. All (λ left. e.created_at ≤ left.created_at) (drop limit waiting))
        (due locked now limit db)
  unfolding due
  claim_oldest_first =
      take-le-drop (λ e. e.created_at) limit
        (order_by (λ e. e.created_at) (select (is_due locked now) db.outbox_events))
        (order_by-IsSorted (λ e. e.created_at) (select (is_due locked now) db.outbox_events))

  -- After the claim, a row that is still pending is none of the batch.
  left_pending :
      All
        (λ e. is_pending e.status ≡ true → holds_id (due locked now limit db) e.id ≡ false)
        (claim_outbox_batch locked now limit db).1.outbox_events
  unfolding claim_outbox_batch
  left_pending =
      let batch = due locked now limit db in
      All-update (λ _. Unit {0}) (λ e. is_pending e.status ≡ true → holds_id batch e.id ≡ false)
        (λ e. holds_id batch e.id) (claimed now) db.outbox_events (λ e _ t p. cc) (λ e _ t p. t)
        (All-intro (λ _. Unit {0}) (λ _. tt) db.outbox_events)

module _ (locked : UuidNumber → Bool) (now : Time) (limit : ℕ) (db : Db)
    (held : UuidNumber → Bool) where
  -- A claim takes none of what is held, if everything that it could take is free.
  free_batch :
      All (λ e. is_due locked now e ≡ true → held e.id ≡ false) db.outbox_events
      → All (λ e. held e.id ≡ false) (claim_outbox_batch locked now limit db).0
  unfolding claim_outbox_batch due
  free_batch h =
      let free = λ (e : OutboxEvent). is_due locked now e ≡ true → held e.id ≡ false in
      let candidates = select (is_due locked now) db.outbox_events in
      let all_free : All (λ e. held e.id ≡ false) candidates =
        All-mono {P = λ (e : OutboxEvent). free e × (is_due locked now e ≡ true)}
          {Q = λ (e : OutboxEvent). held e.id ≡ false} (λ e k. k.0 k.1) candidates
          (All-both free (λ e. is_due locked now e ≡ true) candidates
            (All-select free (is_due locked now) db.outbox_events h)
            (select-All (is_due locked now) db.outbox_events)) in
      let batch = take limit (order_by (λ (e : OutboxEvent). e.created_at) candidates) in
      let batch_free : All (λ e. held e.id ≡ false) batch =
        All-take (λ e. held e.id ≡ false) limit (order_by (λ e. e.created_at) candidates)
          (All-order_by (λ e. held e.id ≡ false) (λ e. e.created_at) candidates all_free) in
      let rows = select (λ (e : OutboxEvent). holds_id batch e.id) db.outbox_events in
      All-map (λ e. held e.id ≡ false) (claimed now) rows
        (All-mono {P = λ (e : OutboxEvent). holds_id batch e.id ≡ true}
          {Q = λ (e : OutboxEvent). held e.id ≡ false}
          (λ e k.
            let (b, free_b, same) =
              any_sound (λ e. held e.id ≡ false) (by_id e.id) batch batch_free k in
            rw (← ==→eq b.id e.id same) free_b)
          rows (select-All (λ e. holds_id batch e.id) db.outbox_events))

not_locked : (p l : Bool) (n d : ℕ) → (is_true : (p && leb n d && not l) ≡ true) → l ≡ false
not_locked p l n d h = ground arith

pending_of_due : (p l : Bool) (n d : ℕ) → (is_true : (p && leb n d && not l) ≡ true) → p ≡ true
pending_of_due p l n d h = ground arith

module _ (locked₁ locked₂ : UuidNumber → Bool) (now₁ now₂ : Time) (limit₁ limit₂ : ℕ)
    (db : Db) where
  abbrev first_batch : List OutboxEvent
  first_batch = due locked₁ now₁ limit₁ db

  -- A worker that claims after another's claim has committed claims none of the other's rows.
  pub claims_disjoint :
      All
        (λ e. holds_id first_batch e.id ≡ false)
        (claim_outbox_batch locked₂ now₂ limit₂ (claim_outbox_batch locked₁ now₁ limit₁ db).1).0
  claims_disjoint =
      let after = (claim_outbox_batch locked₁ now₁ limit₁ db).1 in
      free_batch locked₂ now₂ limit₂ after (holds_id first_batch) (
        All-mono {P = λ e. is_pending e.status ≡ true → holds_id first_batch e.id ≡ false}
          {Q = λ e. is_due locked₂ now₂ e ≡ true → holds_id first_batch e.id ≡ false}
          (λ e k d. k (pending_of_due (is_pending e.status) (locked₂ e.id) e.process_after now₂ d))
          after.outbox_events (left_pending locked₁ now₁ limit₁ db))

  -- A worker that claims on the same tables, while another still holds the row locks of its claim,
  -- claims none of the other's rows.
  claims_disjoint_locked :
      ((id : UuidNumber) → holds_id first_batch id ≡ true → locked₂ id ≡ true)
      → All (λ e. holds_id first_batch e.id ≡ false) (claim_outbox_batch locked₂ now₂ limit₂ db).0
  claims_disjoint_locked locks = free_batch locked₂ now₂ limit₂ db (holds_id first_batch) (
      All-intro (λ e. is_due locked₂ now₂ e ≡ true → holds_id first_batch e.id ≡ false)
        (λ e d.
          let free = not_locked (is_pending e.status) (locked₂ e.id) e.process_after now₂ d in
          elim (Bool-cases (holds_id first_batch e.id)) [ inl t ↦ cc (locks e.id t) | inr t ↦ t ])
        db.outbox_events)
