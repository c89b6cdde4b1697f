-- ===== src/Ingestion/Redelivery.antt =====
-- The same ending signal delivered twice, as Alertmanager's retries do.
use radar_system.Prelude.{
  String, ◌≡◌, refl, sym, ap, ◌∙◌, Bool, true, false, not, ◌&&◌, ◌||◌, Option, none, some, List, [],
  ◌∷◌, ◌++◌, arith, str_eq, eq_iff, Bool-cases, Option-cases, inl, inr, any, any_sound, update,
  select, All, All-update, All-intro, All-latest, All-select, ==_refl,
}
use radar_system.Contracts.{Time, NormalizedAlert}
use radar_system.Database.Tables.{Incident, Db}
use radar_system.Database.Tx.{ok, ok_state}
use radar_system.Database.Lifecycle.{status_resolved}
use radar_system.Database.Repository.{stamped}
use radar_system.Ingestion.Resolver.{alert_status_resolved, is_resolvable, find_resolvable_incident}
use radar_system.Ingestion.Publisher.{
  Fresh, PublishResult, webhook_time, resolve_found, persist_alert, resolve_ignored_audit,
}
use radar_system.Ingestion.Window.{latest_missing, latest_passes}
use radar_system.Ingestion.Consistent.{IsConsistent, has_id}
use radar_system.Ingestion.Resolving.{IsLive, resolve_outcome}
use radar_system.Ingestion.Always.{ended, ended_found, ending_path, persist_alert-IsConsistent}

abbrev pub ignored_result : PublishResult
ignored_result = record {
  incident_id = none;
  deduplicated = false;
  ignored = true;
  alerts_resolved = none;
  incident_resolved = false;
}

over : (b : Bool) → (b && (str_eq "resolved" "open" || str_eq "resolved" "investigating")) ≡ false
over true = refl
over false = refl

stamped_over :
    (fingerprint : String) (t : Time) (i : Incident)
    → is_resolvable fingerprint (stamped status_resolved t i) ≡ false
stamped_over fingerprint t i = over (str_eq i.fingerprint fingerprint)

select-nothing :
    (p : Incident → Bool) (rows : List Incident)
    → All (λ r. p r ≡ true → ⊥) rows
    → select p rows ≡ []
select-nothing p [] h = refl
select-nothing p (r ∷ rows) h = elim (Bool-cases (p r)) [
  | inl t ↦ absurd (h.0 t)
  | inr t ↦ rw t (select-nothing p rows h.1)
]

any-update_miss :
    (q p : Incident → Bool) (f : Incident → Incident) (rows : List Incident)
    → any (λ r. q r && not (p r)) rows ≡ true
    → any q (update p f rows) ≡ true
any-update_miss q p f [] h = cc
any-update_miss q p f (r ∷ rows) h = ground (arith, any-update_miss q p f rows)

module _ (fresh again : Fresh) (alert : NormalizedAlert) (as_of : Option Time) (db : Db)
    (i : Incident) (c : IsConsistent db) (first : ended fresh alert as_of db ≡ some i)
    (r : PublishResult) (db' : Db) (ending : alert.status ≡ alert_status_resolved)
    (delivered : persist_alert fresh alert as_of db ≡ ok (r, db')) where
  is_ending : str_eq alert.status alert_status_resolved ≡ true
  is_ending = (eq_iff alert.status alert_status_resolved).1 ending

  after_first :
      db'.incidents
      ≡ update (has_id i.id) (stamped status_resolved (webhook_time alert)) db.incidents
  after_first =
      let (found, live) = ended_found fresh alert as_of db i c first in
      let (after, wrote, incidents_are, _, _, _) = resolve_outcome fresh alert i db found live in
      let same : ok (r, db') ≡ resolve_found fresh alert (some i) db =
        sym delivered
        ∙ ending_path fresh alert as_of db is_ending
        ∙ ap (λ o. resolve_found fresh alert o db) first in
      ap (λ (d : Db). d.incidents) (ok_state (same ∙ wrote)) ∙ incidents_are

  -- Where an ending signal was delivered to consistent tables and no other live incident has
  -- its fingerprint, a second delivery is ignored: it adds one audit record and changes nothing
  -- else.
  pub redelivered_ignored :
      All (λ x. is_resolvable alert.fingerprint x ≡ true → has_id i.id x ≡ true) db.incidents
      → persist_alert again alert as_of db'
        ≡ ok (
          ignored_result,
          record db' { audit_log = db'.audit_log ++ resolve_ignored_audit alert ∷ [] },
        )
  unfolding find_resolvable_incident resolve_found
  redelivered_ignored alone =
      let nothing : All (λ x. is_resolvable alert.fingerprint x ≡ true → ⊥) db'.incidents =
        rw after_first (
          All-update (λ x. is_resolvable alert.fingerprint x ≡ true → has_id i.id x ≡ true)
            (λ x. is_resolvable alert.fingerprint x ≡ true → ⊥) (has_id i.id)
            (stamped status_resolved (webhook_time alert)) db.incidents
            (λ x _ _ live. cc (stamped_over alert.fingerprint (webhook_time alert) x))
            (λ x h miss live. cc (h live)) alone) in
      ending_path again alert as_of db' is_ending
      ∙ rw (select-nothing (is_resolvable alert.fingerprint) db'.incidents nothing) refl

  spilled_elsewhere : (j : Incident) → ended again alert as_of db' ≡ some j → j.id ≡ i.id → ⊥
  unfolding find_resolvable_incident
  spilled_elsewhere j found same =
      let p = is_resolvable alert.fingerprint in
      let over_there : All (λ x. has_id i.id x ≡ true → p x ≡ false) db'.incidents =
        rw after_first (
          All-update (λ x. Unit {0}) (λ x. has_id i.id x ≡ true → p x ≡ false) (has_id i.id)
            (stamped status_resolved (webhook_time alert)) db.incidents
            (λ x _ _ _. stamped_over alert.fingerprint (webhook_time alert) x)
            (λ x _ miss hit. cc (sym miss ∙ hit))
            (All-intro (λ x. Unit {0}) (λ x. tt) db.incidents)) in
      let resolved : p j ≡ false =
        All-latest (λ x. has_id i.id x ≡ true → p x ≡ false) (λ x. x.opened_at)
          (select p db'.incidents) j
          (All-select (λ x. has_id i.id x ≡ true → p x ≡ false) p db'.incidents over_there) found
          (rw same (==_refl i.id)) in
      cc (sym (latest_passes p db'.incidents j found) ∙ resolved)

  still_live :
      any (λ x. is_resolvable alert.fingerprint x && not (has_id i.id x)) db.incidents ≡ true
      → (j : Incident) × (ended again alert as_of db' ≡ some j)
  unfolding find_resolvable_incident
  still_live another = elim (Option-cases (ended again alert as_of db')) [
    | inr found ↦ found
    | inl gone ↦
        let p = is_resolvable alert.fingerprint in
        let still : any p db'.incidents ≡ true = rw after_first (
          any-update_miss p (has_id i.id) (stamped status_resolved (webhook_time alert))
            db.incidents another) in
        let (x, none_passes, passes) =
          any_sound (λ x. p x ≡ true → ⊥) p db'.incidents (latest_missing p db'.incidents gone)
            still in
        absurd (none_passes passes)
  ]

  -- Where an ending signal was delivered to consistent tables and another live incident has its
  -- fingerprint, the first delivery resolves the incident it was for, and a second delivery
  -- succeeds and resolves another live incident: it answers with that incident's id, and stamps its
  -- row as resolved.
  pub redelivery_spills :
      any (λ x. is_resolvable alert.fingerprint x && not (has_id i.id x)) db.incidents ≡ true
      → (db'.incidents
          ≡ update (has_id i.id) (stamped status_resolved (webhook_time alert)) db.incidents)
        × (j : Incident) × (j.id ≡ i.id → ⊥)
        × IsLive j
        × (r' : PublishResult) × (db'' : Db) × (persist_alert again alert as_of db' ≡ ok (r', db''))
        × (r'.incident_id ≡ some j.id)
        × (db''.incidents
            ≡ update (has_id j.id) (stamped status_resolved (webhook_time alert)) db'.incidents)
  redelivery_spills another =
      let (j, next) = still_live another in
      let (found, live) =
        ended_found again alert as_of db' j
          (persist_alert-IsConsistent fresh alert as_of db r db' delivered c) next in
      let (db'', wrote, incidents_are, _, _, _) = resolve_outcome again alert j db' found live in
      (
        after_first,
        j,
        spilled_elsewhere j next,
        live,
        _,
        db'',
        ending_path again alert as_of db' is_ending
            ∙ ap (λ o. resolve_found again alert o db') next
            ∙ wrote,
        refl,
        incidents_are,
      )
