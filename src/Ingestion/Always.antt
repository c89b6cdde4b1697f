-- ===== src/Ingestion/Always.antt =====
-- `persist_alert` as a whole: consistency, the published event, and a redelivered ending signal.
use radar_system.Prelude.{
  String, ◌≡◌, ◌≢◌, refl, sym, ap, subst, ◌∙◌, Bool, true, false, Option, none, some, [], ◌∷◌, ◌++◌,
  ◌==◌, str_eq, eq_iff, Bool-cases, inl, inr,
}
use radar_system.Contracts.{UuidNumber, Time, NormalizedAlert}
use radar_system.Database.Tables.{Incident, Db}
use radar_system.Database.Tx.{ok, ok_state}
use radar_system.Database.Lifecycle.{status_open}
use radar_system.Ingestion.Deduper.{can_absorb, dedup_window, find_open_incident}
use radar_system.Ingestion.Resolver.{alert_status_resolved, is_resolvable, find_resolvable_incident}
use radar_system.Ingestion.Publisher.{
  Fresh, PublishResult, fire_found, resolve_found, persist_alert,
}
use radar_system.Ingestion.Window.{IsChoice, find_open_incident_exact, find_resolvable_live}
use radar_system.Ingestion.Consistent.{IsConsistent, IsFound, has_id, latest_found}
use radar_system.Ingestion.Firing.{published, accepted, attach-ok, open-ok}
use radar_system.Ingestion.FiringConsistent.{
  any-or_right, open-is_active, attached-IsConsistent, opened-IsConsistent,
}
use radar_system.Ingestion.Resolving.{IsLive, resolve_outcome, resolved-Consistent}

abbrev pub reference_time : NormalizedAlert → Option Time → Time
reference_time alert as_of = elim as_of [ some t ↦ t | none ↦ alert.received_at ]

module _ (fresh : Fresh) (alert : NormalizedAlert) (as_of : Option Time) (db : Db) where
  abbrev pub joined : Option Incident
  joined = find_open_incident alert.fingerprint (reference_time alert as_of) dedup_window db

  abbrev pub ended : Option Incident
  ended = find_resolvable_incident alert.fingerprint db

  firing_path :
      str_eq alert.status alert_status_resolved ≡ false
      → persist_alert fresh alert as_of db ≡ fire_found fresh alert joined db
  unfolding persist_alert
  firing_path e = rw e

  pub ending_path :
      str_eq alert.status alert_status_resolved ≡ true
      → persist_alert fresh alert as_of db ≡ resolve_found fresh alert ended db
  unfolding persist_alert
  ending_path e = rw e

  joined_found :
      (i : Incident) → IsConsistent db → joined ≡ some i → IsFound db i × (i.status ≡ status_open)
  unfolding find_open_incident
  joined_found i c e = (
    latest_found db (can_absorb alert.fingerprint (reference_time alert as_of) dedup_window) i c e,
    (subst (IsChoice alert.fingerprint (reference_time alert as_of) dedup_window db) e (
        find_open_incident_exact alert.fingerprint (reference_time alert as_of) dedup_window db)).1,
  )

  pub ended_found : (i : Incident) → IsConsistent db → ended ≡ some i → IsFound db i × IsLive i
  unfolding find_resolvable_incident
  ended_found i c e = (
    latest_found db (is_resolvable alert.fingerprint) i c e,
    (find_resolvable_live alert.fingerprint db i e).1,
  )

fire_found-IsConsistent :
    (fresh : Fresh) (alert : NormalizedAlert) (o : Option Incident) (db : Db) {r : PublishResult}
    {db' : Db}
    → ((i : Incident) → o ≡ some i → IsFound db i × (i.status ≡ status_open))
    → fire_found fresh alert o db ≡ ok (r, db')
    → IsConsistent db
    → IsConsistent db'
fire_found-IsConsistent fresh alert none db known h c =
    let (free, _, wrote) = open-ok fresh alert db h in
    rw wrote (
      opened-IsConsistent fresh alert db
        (any-or_right (λ r. r.correlation_id == alert.correlation_id) (has_id fresh.incident_id)
          db.incidents free)
        c)
fire_found-IsConsistent fresh alert (some i) db known h c =
    let (_, wrote) = attach-ok fresh alert db i h in
    let (found, is_open) = known i refl in
    rw wrote (attached-IsConsistent fresh alert i db found (open-is_active i is_open) c)

resolve_found-IsConsistent :
    (fresh : Fresh) (alert : NormalizedAlert) (o : Option Incident) (db : Db) {r : PublishResult}
    {db' : Db}
    → ((i : Incident) → o ≡ some i → IsFound db i × IsLive i)
    → resolve_found fresh alert o db ≡ ok (r, db')
    → IsConsistent db
    → IsConsistent db'
unfolding resolve_found
resolve_found-IsConsistent fresh alert none db known h c = subst IsConsistent (ok_state h) c
resolve_found-IsConsistent fresh alert (some i) db known h c =
    let (found, live) = known i refl in
    let (after, wrote, incidents_are, alerts_are, _, _) =
      resolve_outcome fresh alert i db found live in
    subst IsConsistent (ok_state (sym wrote ∙ h))
      (rw (incidents_are, alerts_are) (resolved-Consistent fresh alert i db found live c))

-- Where an alert, firing or ending, is stored in consistent tables, they stay consistent: no
-- incident that is over has a firing alert, every `alert_count` counts the rows of its incident,
-- incident ids stay unique, and the incident that an alert names exists.
pub persist_alert-IsConsistent :
    (fresh : Fresh) (alert : NormalizedAlert) (as_of : Option Time) (db : Db) (r : PublishResult)
    (db' : Db)
    → persist_alert fresh alert as_of db ≡ ok (r, db')
    → IsConsistent db
    → IsConsistent db'
persist_alert-IsConsistent fresh alert as_of db r db' h c =
    elim (Bool-cases (str_eq alert.status alert_status_resolved)) [
      | inl e ↦
          resolve_found-IsConsistent fresh alert (ended fresh alert as_of db) db
            (λ i q. ended_found fresh alert as_of db i c q)
            (sym (ending_path fresh alert as_of db e) ∙ h) c
      | inr e ↦
          fire_found-IsConsistent fresh alert (joined fresh alert as_of db) db
            (λ i q. joined_found fresh alert as_of db i c q)
            (sym (firing_path fresh alert as_of db e) ∙ h) c
    ]

abbrev is_joined : Option Incident → Bool
is_joined none = false
is_joined (some _) = true

abbrev landed_on : Fresh → Option Incident → UuidNumber
landed_on fresh none = fresh.incident_id
landed_on fresh (some i) = i.id

fire_found_publishes :
    (fresh : Fresh) (alert : NormalizedAlert) (o : Option Incident) (db : Db) {r : PublishResult}
    {db' : Db}
    → fire_found fresh alert o db ≡ ok (r, db')
    → (r ≡ accepted (landed_on fresh o) (is_joined o))
      × (db'.outbox_events
          ≡ db.outbox_events ++ published fresh alert (landed_on fresh o) (is_joined o) ∷ [])
fire_found_publishes fresh alert none db h =
    let (_, result, wrote) = open-ok fresh alert db h in
    (result, ap (λ (d : Db). d.outbox_events) wrote)
fire_found_publishes fresh alert (some i) db h =
    let (result, wrote) = attach-ok fresh alert db i h in
    (result, ap (λ (d : Db). d.outbox_events) wrote)

resolve_found_silent :
    (fresh : Fresh) (alert : NormalizedAlert) (o : Option Incident) (db : Db) {r : PublishResult}
    {db' : Db}
    → ((i : Incident) → o ≡ some i → IsFound db i × IsLive i)
    → resolve_found fresh alert o db ≡ ok (r, db')
    → db'.outbox_events ≡ db.outbox_events
unfolding resolve_found
resolve_found_silent fresh alert none db known h =
    sym (ap (λ (d : Db). d.outbox_events) (ok_state h))
resolve_found_silent fresh alert (some i) db known h =
    let (found, live) = known i refl in
    let (after, wrote, _, _, kept, _) = resolve_outcome fresh alert i db found live in
    sym (ap (λ (d : Db). d.outbox_events) (ok_state (sym wrote ∙ h))) ∙ kept

-- A firing alert that is stored publishes exactly one event, which says on which incident it landed
-- and whether that incident was there before.
pub firing_alert_publishes :
    (fresh : Fresh) (alert : NormalizedAlert) (as_of : Option Time) (db : Db) (r : PublishResult)
    (db' : Db)
    → alert.status ≢ alert_status_resolved
    → persist_alert fresh alert as_of db ≡ ok (r, db')
    → let o = joined fresh alert as_of db in
      (r ≡ accepted (landed_on fresh o) (is_joined o))
      × (db'.outbox_events
          ≡ db.outbox_events ++ published fresh alert (landed_on fresh o) (is_joined o) ∷ [])
firing_alert_publishes fresh alert as_of db r db' ne h =
    fire_found_publishes fresh alert (joined fresh alert as_of db) db
      (sym (firing_path fresh alert as_of db (str_ne alert.status alert_status_resolved ne)) ∙ h)
  where
    str_ne : (s t : String) → s ≢ t → str_eq s t ≡ false
    str_ne s t k = elim (Bool-cases (str_eq s t)) [
      | inl e ↦ absurd (k ((eq_iff s t).0 e))
      | inr e ↦ e
    ]

-- An ending signal that is stored in consistent tables adds no event to the outbox.
pub ending_alert_publishes_nothing :
    (fresh : Fresh) (alert : NormalizedAlert) (as_of : Option Time) (db : Db) (r : PublishResult)
    (db' : Db)
    → IsConsistent db
    → alert.status ≡ alert_status_resolved
    → persist_alert fresh alert as_of db ≡ ok (r, db')
    → db'.outbox_events ≡ db.outbox_events
ending_alert_publishes_nothing fresh alert as_of db r db' c e h =
    resolve_found_silent fresh alert (ended fresh alert as_of db) db
      (λ i q. ended_found fresh alert as_of db i c q)
      (sym (ending_path fresh alert as_of db ((eq_iff alert.status alert_status_resolved).1 e)) ∙ h)
