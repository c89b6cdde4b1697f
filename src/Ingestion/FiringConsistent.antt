-- ===== src/Ingestion/FiringConsistent.antt =====
-- A firing alert, attached or opening an incident, keeps incidents and alerts consistent.
use radar_system.Prelude.{
  ℕ, ◌+◌, ◌≡◌, refl, sym, ap, subst, ◌∙◌, Bool, true, false, ◌||◌, some, List, [], ◌∷◌, ◌++◌, arith,
  ◌==◌, ==_refl, ==→eq, Bool-cases, inl, inr, any, find_row, update, count_where, count_where-zero,
  All, All-mono, All-both, All-update, All-append, update-HasUniqueKeys, snoc-HasUniqueKeys,
}
use radar_system.Contracts.{UuidNumber, Time, NormalizedAlert}
use radar_system.Database.Tables.{Incident, Alert, Db}
use radar_system.Database.Lifecycle.{status_open}
use radar_system.Database.Repository.{is_active}
use radar_system.Ingestion.Resolver.{is_on}
use radar_system.Ingestion.Publisher.{Fresh, alert_row, new_incident, bumped}
use radar_system.Ingestion.Consistent.{
  IsCounted, IsConsistent, IsFound, incident_key, has_id, All-found, found_eq, count-on_snoc,
  count-firing_snoc_other, ==_flip,
}
use radar_system.Ingestion.Firing.{attached_db, opened_db}

pub open-is_active : (i : Incident) → i.status ≡ status_open → is_active i ≡ true
unfolding is_active
open-is_active i e = rw e

-- the incident of the new alert: one more alert, and it is live
bumped-IsCounted :
    (utcnow : Time) (a : Alert) (alerts : List Alert) (r : Incident)
    → a.incident_id ≡ some r.id
    → is_active r ≡ true
    → IsCounted alerts r
    → IsCounted (alerts ++ a ∷ []) (bumped utcnow r)
unfolding is_active
bumped-IsCounted utcnow a alerts r on live c = record {
  quiet = λ over. cc;
  counted =
      rw (count-on_snoc a r.id r.id alerts on, ==_refl r.id) (ap (λ (n : ℕ). n + 1) c.counted);
}

-- any other incident
other-IsCounted :
    (a : Alert) (j : UuidNumber) (alerts : List Alert) (r : Incident)
    → a.incident_id ≡ some j
    → (j == r.id) ≡ false
    → IsCounted alerts r
    → IsCounted (alerts ++ a ∷ []) r
other-IsCounted a j alerts r on ne c = record {
  quiet = λ over. rw (count-firing_snoc_other a j r.id alerts on ne) (c.quiet over);
  counted =
      let same = count-on_snoc a j r.id alerts on in c.counted ∙ sym (same ∙ rw ne (omega arith));
}

any_id-update :
    (k : UuidNumber) (id : UuidNumber) (utcnow : Time) (rows : List Incident)
    → any (has_id k) (update (has_id id) (bumped utcnow) rows) ≡ any (has_id k) rows
any_id-update k id utcnow [] = refl
any_id-update k id utcnow (r ∷ rows) = elim (Bool-cases (r.id == id)) [
  | inl t ↦ rw (t, any_id-update k id utcnow rows)
  | inr t ↦ rw (t, any_id-update k id utcnow rows)
]

any_found :
    (k : UuidNumber) (rows : List Incident) (i : Incident)
    → find_row (has_id k) rows ≡ some i
    → any (has_id k) rows ≡ true
any_found k [] i e = cc
any_found k (r ∷ rows) i e = ground (arith, any_found k rows i)

-- Attaching to a live incident of the table keeps the tables consistent.
pub attached-IsConsistent :
    (fresh : Fresh) (alert : NormalizedAlert) (i : Incident) (db : Db)
    → IsFound db i
    → is_active i ≡ true
    → IsConsistent db
    → IsConsistent (attached_db fresh alert i db)
attached-IsConsistent fresh alert i db found live c =
    let a = alert_row alert i.id in
    let good = λ (r : Incident). IsCounted db.alerts r × IsFound db r in
    record {
      rows =
          All-update good (IsCounted (db.alerts ++ a ∷ [])) (has_id i.id) (bumped fresh.utcnow)
            db.incidents
            (λ r k t.
              let same : r ≡ i = found_eq db r i k.1 found t in
              bumped-IsCounted fresh.utcnow a db.alerts r
                (ap (λ (x : Incident). some x.id) (sym same)) (rw same live) k.0)
            (λ r k t. other-IsCounted a i.id db.alerts r refl (==_flip i.id r.id ∙ t) k.0)
            (All-both (IsCounted db.alerts) (IsFound db) db.incidents c.rows (All-found db c));
      keys =
          update-HasUniqueKeys incident_key (has_id i.id) (bumped fresh.utcnow) db.incidents
            (λ _ _. refl) c.keys;
      refs =
          All-append
            (λ x.
              (k : UuidNumber)
              → is_on k x ≡ true
              → any (has_id k) (update (has_id i.id) (bumped fresh.utcnow) db.incidents) ≡ true)
            db.alerts (a ∷ [])
            (All-mono
              {P = λ (x : Alert).
                (k : UuidNumber) → is_on k x ≡ true → any (has_id k) db.incidents ≡ true}
              {Q = λ (x : Alert).
                (k : UuidNumber)
                → is_on k x ≡ true
                → any (has_id k) (update (has_id i.id) (bumped fresh.utcnow) db.incidents) ≡ true}
              (λ x h k on. any_id-update k i.id fresh.utcnow db.incidents ∙ h k on) db.alerts
              c.refs)
            (
              λ k on.
                  any_id-update k i.id fresh.utcnow db.incidents
                  ∙ subst (λ (id : ℕ). any (has_id id) db.incidents ≡ true) (==→eq i.id k on)
                      (any_found i.id db.incidents i found),
              tt,
            );
    }

any-snoc_left :
    (p : Incident → Bool) (rows : List Incident) (new : Incident)
    → any p rows ≡ true
    → any p (rows ++ new ∷ []) ≡ true
any-snoc_left p [] new h = cc
any-snoc_left p (r ∷ rows) new h = ground (arith, any-snoc_left p rows new)

any-snoc_right :
    (p : Incident → Bool) (rows : List Incident) (new : Incident)
    → p new ≡ true
    → any p (rows ++ new ∷ []) ≡ true
any-snoc_right p [] new h = rw h
any-snoc_right p (r ∷ rows) new h = ground (arith, any-snoc_right p rows new)

pub any-or_right :
    (p q : Incident → Bool) (rows : List Incident)
    → any (λ r. p r || q r) rows ≡ false
    → any q rows ≡ false
any-or_right p q [] h = refl
any-or_right p q (r ∷ rows) h = ground (arith, any-or_right p q rows)

any-false :
    (p : Incident → Bool) (rows : List Incident) → any p rows ≡ false → All (λ r. p r ≡ false) rows
any-false p [] h = tt
any-false p (r ∷ rows) h = elim (Bool-cases (p r)) [
  | inl t ↦ cc (rw t at h)
  | inr t ↦ (t, any-false p rows (rw t at h))
]

-- No alert is on an incident that is not there.
none_on :
    (k : UuidNumber) (db : Db)
    → IsConsistent db
    → any (has_id k) db.incidents ≡ false
    → count_where (is_on k) db.alerts ≡ 0
none_on k db c free = count_where-zero (is_on k) db.alerts (
    All-mono
      {P = λ (x : Alert).
        (id : UuidNumber) → is_on id x ≡ true → any (has_id id) db.incidents ≡ true}
      {Q = λ (x : Alert). is_on k x ≡ false}
      (λ x h. elim (Bool-cases (is_on k x)) [ inl t ↦ cc (h k t) | inr t ↦ t ]) db.alerts c.refs)

-- Opening an incident under an id that no incident has keeps the tables consistent.
pub opened-IsConsistent :
    (fresh : Fresh) (alert : NormalizedAlert) (db : Db)
    → any (has_id fresh.incident_id) db.incidents ≡ false
    → IsConsistent db
    → IsConsistent (opened_db fresh alert db)
opened-IsConsistent fresh alert db free c =
    let new = new_incident fresh alert in
    let a = alert_row alert fresh.incident_id in
    let refs_to = λ (rows : List Incident) (x : Alert).
      (k : UuidNumber) → is_on k x ≡ true → any (has_id k) rows ≡ true in
    record {
      rows =
          All-append (IsCounted (db.alerts ++ a ∷ [])) db.incidents (new ∷ [])
            (All-mono
              {P = λ (r : Incident). IsCounted db.alerts r × (has_id fresh.incident_id r ≡ false)}
              {Q = IsCounted (db.alerts ++ a ∷ [])}
              (λ r k.
                other-IsCounted a fresh.incident_id db.alerts r refl
                  (==_flip fresh.incident_id r.id ∙ k.1) k.0)
              db.incidents
              (All-both (IsCounted db.alerts) (λ r. has_id fresh.incident_id r ≡ false) db.incidents
                c.rows (any-false (has_id fresh.incident_id) db.incidents free)))
            (
              record {
                quiet = λ over. cc (open-is_active new refl);
                counted = sym (
                    count-on_snoc a fresh.incident_id fresh.incident_id db.alerts refl
                    ∙ rw (none_on fresh.incident_id db c free, ==_refl fresh.incident_id) refl);
              },
              tt,
            );
      keys = snoc-HasUniqueKeys incident_key db.incidents new free c.keys;
      refs =
          All-append (refs_to (db.incidents ++ new ∷ [])) db.alerts (a ∷ [])
            (All-mono {P = refs_to db.incidents} {Q = refs_to (db.incidents ++ new ∷ [])}
              (λ x h k on. any-snoc_left (has_id k) db.incidents new (h k on)) db.alerts c.refs)
            (λ k on. any-snoc_right (has_id k) db.incidents new on, tt);
    }
