-- ===== src/Database/Repository/Transition.antt =====
-- What `transition_status` promises: it follows exactly the legal edges, writes one audit row, and
-- keeps the lifecycle timestamps.
use radar_system.Prelude.{
  ℕ, ◌≤◌, ◌<◌, String, ◌≡◌, refl, sym, Bool, true, false, Option, none, some, List, [], ◌∷◌, ◌++◌,
  ◌⊎◌, inl, inr, arith, if◌then◌else◌, str_eq, eq_iff, ◌==◌, ==→eq, find_row_sound,
  find_row-update_self, find_row-update_ne, Bool-cases, Option-cases, All, All-update, update,
  length, subst, any,
}
use radar_system.Contracts.{UuidNumber, Time, Document}
use radar_system.Database.Tables.{Incident, AuditLog, Db}
use radar_system.Database.Tx.{ok, err, ok_state, invalid_state_transition}
use radar_system.Database.Lifecycle.{
  status_open, status_investigating, status_resolved, status_closed, is_valid_transition,
  transition_audit_event_type,
}
use radar_system.Database.Repository.{
  incident_by_id, stamped, transition_audit, move, transition_status,
}

-- The four edges of the lifecycle.
pub data IsEdge (current new : String) : Type 0 where
  notify : current ≡ status_open → new ≡ status_investigating → IsEdge current new
  clear_early : current ≡ status_open → new ≡ status_resolved → IsEdge current new
  clear : current ≡ status_investigating → new ≡ status_resolved → IsEdge current new
  close : current ≡ status_resolved → new ≡ status_closed → IsEdge current new

in_one : (new a : String) → any (λ s. str_eq new s) (a ∷ []) ≡ true → new ≡ a
in_one new a h = ground (arith, eq_iff new a)

in_two : (new a b : String) → any (λ s. str_eq new s) (a ∷ b ∷ []) ≡ true → (new ≡ a) ⊎ (new ≡ b)
in_two new a b h = ground (arith, eq_iff new a, eq_iff new b)

-- A legal transition is one of the four edges.
pub is_valid_transition-IsEdge :
    (current new : String) → is_valid_transition current new ≡ true → IsEdge current new
unfolding is_valid_transition
is_valid_transition-IsEdge current new h = elim (Bool-cases (str_eq current status_open)) [
  | inl o ↦ elim (in_two new status_investigating status_resolved (rw o at h)) [
    | inl e ↦ notify ((eq_iff current status_open).0 o) e
    | inr e ↦ clear_early ((eq_iff current status_open).0 o) e
  ]
  | inr o ↦ elim (Bool-cases (str_eq current status_investigating)) [
    | inl i ↦
        clear ((eq_iff current status_investigating).0 i)
          (in_one new status_resolved (rw (o, i) at h))
    | inr i ↦ elim (Bool-cases (str_eq current status_resolved)) [
      | inl r ↦
          close ((eq_iff current status_resolved).0 r)
            (in_one new status_closed (rw (o, i, r) at h))
      | inr r ↦ cc (rw (o, i, r) at h)
    ]
  ]
]

-- The converse: each edge is legal.
pub IsEdge-is_valid_transition :
    (current new : String) → IsEdge current new → is_valid_transition current new ≡ true
unfolding is_valid_transition
IsEdge-is_valid_transition current new (notify c n) = rw (c, n)
IsEdge-is_valid_transition current new (clear_early c n) = rw (c, n)
IsEdge-is_valid_transition current new (clear c n) = rw (c, n)
IsEdge-is_valid_transition current new (close c n) = rw (c, n)

-- A destination of an edge has an audit event, so the KeyError cannot happen.
IsEdge-has_audit_event :
    (current new : String)
    → IsEdge current new
    → (t : String) × (transition_audit_event_type new ≡ some t)
unfolding transition_audit_event_type
IsEdge-has_audit_event current new (notify c n) = ("incident.investigating", rw n)
IsEdge-has_audit_event current new (clear_early c n) = ("incident.resolved", rw n)
IsEdge-has_audit_event current new (clear c n) = ("incident.resolved", rw n)
IsEdge-has_audit_event current new (close c n) = ("incident.closed", rw n)

-- How many more transitions a status can make.
abbrev pub depth : String → ℕ
depth s =
    if str_eq s status_open
    then 3
    else if str_eq s status_investigating
    then 2
    else if str_eq s status_resolved
    then 1
    else 0

depth-falls : (current new : String) → IsEdge current new → depth new < depth current
depth-falls current new (notify c n) = rw (c, n) (omega arith)
depth-falls current new (clear_early c n) = rw (c, n) (omega arith)
depth-falls current new (clear c n) = rw (c, n) (omega arith)
depth-falls current new (close c n) = rw (c, n) (omega arith)

depth-falls_of_valid :
    (current new : String) → is_valid_transition current new ≡ true → depth new < depth current
depth-falls_of_valid current new h =
    depth-falls current new (is_valid_transition-IsEdge current new h)

-- The statuses that an incident passes through, one legal edge after another.
abbrev pub IsPath : String → List String → Type 0
IsPath current [] = Unit
IsPath current (new ∷ rest) = (is_valid_transition current new ≡ true) × IsPath new rest

path-le-depth :
    (current : String) (path : List String) → IsPath current path → length path ≤ depth current
path-le-depth current [] h = omega arith
path-le-depth current (new ∷ rest) h =
    omega (arith, depth-falls_of_valid current new h.0, path-le-depth new rest h.1)

depth-le : (s : String) → depth s ≤ 3
depth-le s = ground arith

-- Whatever the status, an incident makes at most three status changes.
pub path_bounded : (current : String) (path : List String) → IsPath current path → length path ≤ 3
path_bounded current path h = omega (arith, depth-le current, path-le-depth current path h)

-- What a status change by `actor` leaves in the tables.
pub record Moved (i : Incident) (new actor : String) (when : Time) (db db' : Db) : Type 0 where
  pub incidents : db'.incidents ≡ update (λ r. r.id == i.id) (stamped new when) db.incidents
  pub row : incident_by_id i.id db' ≡ some (stamped new when i)
  pub others :
      (id : UuidNumber) → (id == i.id) ≡ false → incident_by_id id db' ≡ incident_by_id id db
  pub receipt : AuditLog
  pub audited : db'.audit_log ≡ db.audit_log ++ receipt ∷ []
  pub names : receipt.entity_id ≡ i.id
  pub acted : receipt.actor ≡ actor
  pub kind : transition_audit_event_type new ≡ some receipt.event_type
  pub alerts : db'.alerts ≡ db.alerts
  pub outbox : db'.outbox_events ≡ db.outbox_events
  pub markers : db'.processed_events ≡ db.processed_events

abbrev pub or_now : Option Time → Time → Time
or_now occurred_at now = elim occurred_at [ some t ↦ t | none ↦ now ]

==_ne : (id a b : ℕ) → (id == a) ≡ false → (b == id) ≡ true → (b == a) ≡ false
==_ne id a b h k = ground arith

==_other : (id a b : ℕ) → (id == a) ≡ false → (b == a) ≡ true → (b == id) ≡ false
==_other id a b h k = ground arith

not_both : {b : Bool} → b ≡ true → b ≡ false → ⊥
not_both h k = cc

module _ (id : UuidNumber) (new actor : String) (correlation_id : Option UuidNumber)
    (audit_payload : Option Document) (occurred_at : Option Time) (now : Time) (db : Db)
    (i : Incident) (found : incident_by_id id db ≡ some i) where
  id_eq : i.id ≡ id
  id_eq = ==→eq i.id id (find_row_sound (λ (r : Incident). r.id == id) db.incidents i found)

  found_self : incident_by_id i.id db ≡ some i
  found_self = subst (λ (k : ℕ). incident_by_id k db ≡ some i) (sym id_eq) found

  -- Along an edge the status moves, one audit row names the move, and all else stays.
  pub transition_along :
      IsEdge i.status new
      → (db' : Db) × (transition_status id new actor correlation_id audit_payload occurred_at now db
          ≡ ok (stamped new (or_now occurred_at now) i, db'))
        × Moved i new actor (or_now occurred_at now) db db'
  unfolding transition_status
  transition_along edge =
      let when : Time = or_now occurred_at now in
      let legal : is_valid_transition i.status new ≡ true =
        IsEdge-is_valid_transition i.status new edge in
      let (event_type, known) = IsEdge-has_audit_event i.status new edge in
      let receipt : AuditLog = transition_audit event_type i actor correlation_id audit_payload in
      (
        record db {
          incidents = update (λ r. r.id == i.id) (stamped new when) db.incidents;
          audit_log = db.audit_log ++ receipt ∷ [];
        },
        rw (found, legal, known),
        record {
          incidents = refl;
          row =
              find_row-update_self (λ (r : Incident). r.id == i.id) (stamped new when) db.incidents
                i found_self (λ b e. e);
          others = λ k ne.
              find_row-update_ne (λ (r : Incident). r.id == k) (λ (r : Incident). r.id == i.id)
                (stamped new when) db.incidents (λ a e. ==_ne k i.id a.id ne e)
                (λ a e. ==_other k i.id a.id ne e);
          receipt = receipt;
          audited = refl;
          names = refl;
          acted = refl;
          kind = known;
          alerts = refl;
          outbox = refl;
          markers = refl;
        },
      )

  -- Off the edges it raises, and so writes nothing.
  pub transition_refused :
      is_valid_transition i.status new ≡ false
      → transition_status id new actor correlation_id audit_payload occurred_at now db
        ≡ err (invalid_state_transition i.status new i.id)
  unfolding transition_status
  transition_refused illegal = rw (found, illegal)

  -- For an incident that exists, a status change succeeds exactly along one of the four legal
  -- edges, with the row stamped and one audit record; off the edges it raises.
  pub transition_outcome :
      (IsEdge i.status new
        × ((db' : Db) × (transition_status id new actor correlation_id audit_payload occurred_at now
                db
              ≡ ok (stamped new (or_now occurred_at now) i, db'))
            × Moved i new actor (or_now occurred_at now) db db'))
      ⊎ ((IsEdge i.status new → ⊥)
          × (transition_status id new actor correlation_id audit_payload occurred_at now db
              ≡ err (invalid_state_transition i.status new i.id)))
  transition_outcome = elim (Bool-cases (is_valid_transition i.status new)) [
    | inl legal ↦
        let edge = is_valid_transition-IsEdge i.status new legal in
        inl (edge, transition_along edge)
    | inr illegal ↦ inr (
      λ edge. not_both (IsEdge-is_valid_transition i.status new edge) illegal,
      transition_refused illegal,
    )
  ]

-- A resolved incident says when it was resolved, and a closed one when it was closed.
pub record IsStamped (i : Incident) : Type 0 where
  pub resolved : i.status ≡ status_resolved → (t : Time) × (i.resolved_at ≡ some t)
  pub closed : i.status ≡ status_closed → (t : Time) × (i.closed_at ≡ some t)

stamped-IsStamped : (new : String) (when : Time) (i : Incident) → IsStamped (stamped new when i)
stamped-IsStamped new when i = record { resolved = λ e. (when, rw e); closed = λ e. (when, rw e) }

update-IsStamped :
    (new : String) (when : Time) (i : Incident) (xs : List Incident)
    → All IsStamped xs
    → All IsStamped (update (λ r. r.id == i.id) (stamped new when) xs)
update-IsStamped new when i xs =
    All-update IsStamped IsStamped (λ r. r.id == i.id) (stamped new when) xs
      (λ a h e. stamped-IsStamped new when a) (λ a h e. h)

move-IsStamped :
    (i : Incident) (new actor : String) (c : Option UuidNumber) (p : Option Document) (when : Time)
    (db : Db) (r : Incident) (db' : Db)
    → All IsStamped db.incidents
    → move i new actor c p when db ≡ ok (r, db')
    → All IsStamped db'.incidents
unfolding move
move-IsStamped i new actor c p when db r db' h e =
    elim (Bool-cases (is_valid_transition i.status new)) [
      | inr illegal ↦ cc (rw illegal at e)
      | inl legal ↦
          let edge = is_valid_transition-IsEdge i.status new legal in
          let (event_type, known) = IsEdge-has_audit_event i.status new edge in
          let same = ok_state (rw (legal, known) at e) in
          subst (λ (d : Db). All IsStamped d.incidents) same
            (update-IsStamped new when i db.incidents h)
    ]

-- Where a status change succeeds, the incidents keep their lifecycle timestamps.
pub transition-IsStamped :
    (id : UuidNumber) (new actor : String) (correlation_id : Option UuidNumber)
    (audit_payload : Option Document) (occurred_at : Option Time) (now : Time) (db : Db)
    (r : Incident) (db' : Db)
    → All IsStamped db.incidents
    → transition_status id new actor correlation_id audit_payload occurred_at now db ≡ ok (r, db')
    → All IsStamped db'.incidents
unfolding transition_status
transition-IsStamped id new actor c p occurred_at now db r db' h e =
    elim (Option-cases (incident_by_id id db)) [
      | inl missing ↦ cc (rw missing at e)
      | inr (i, found) ↦
          move-IsStamped i new actor c p (or_now occurred_at now) db r db' h (rw found at e)
    ]
