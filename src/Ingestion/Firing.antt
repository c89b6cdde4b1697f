-- ===== src/Ingestion/Firing.antt =====
-- What a firing alert writes, on each branch, and that it keeps incidents and alerts consistent.
use radar_system.Prelude.{
  ◌+◌, ◌≡◌, Bool, true, false, ◌||◌, none, some, [], ◌∷◌, ◌++◌, arith, if◌then◌else◌, ◌==◌,
  Bool-cases, inl, inr, any, update,
}
use radar_system.Contracts.{UuidNumber, NormalizedAlert, alert_normalized}
use radar_system.Database.Tables.{Incident, OutboxEvent, Db}
use radar_system.Database.Tx.{ok, err, integrity_error, ◌>>=◌}
use radar_system.Database.Outbox.{fresh_row, write_outbox_event}
use radar_system.Ingestion.Publisher.{
  Fresh, PublishResult, alert_row, new_incident, bumped, alert_attached_audit,
  incident_opened_audit, publish, attach, open_incident,
}
use radar_system.Ingestion.Consistent.{has_id}

-- the event that a firing alert publishes
abbrev pub published : Fresh → NormalizedAlert → UuidNumber → Bool → OutboxEvent
published fresh alert incident_id deduplicated =
    fresh_row fresh.outbox_id fresh.event_id "alert.normalized" "watcher-agent"
      (alert_normalized
        (record { alert = alert; incident_id = incident_id; deduplicated = deduplicated }))
      alert.correlation_id fresh.now

abbrev pub accepted : UuidNumber → Bool → PublishResult
accepted id deduplicated = record {
  incident_id = some id;
  deduplicated = deduplicated;
  ignored = false;
  alerts_resolved = none;
  incident_resolved = false;
}

-- Are the generated ids of the event new, and the alert's id?
abbrev event_taken : Fresh → Db → Bool
event_taken fresh db =
    any (λ e. e.event_id == fresh.event_id || e.id == fresh.outbox_id) db.outbox_events

abbrev alert_taken : NormalizedAlert → Db → Bool
alert_taken alert db = any (λ r. r.id == alert.id) db.alerts

abbrev incident_taken : Fresh → NormalizedAlert → Db → Bool
incident_taken fresh alert db =
    any (λ r. r.correlation_id == alert.correlation_id || r.id == fresh.incident_id) db.incidents

abbrev pub attached_db : Fresh → NormalizedAlert → Incident → Db → Db
attached_db fresh alert i db = record db {
  incidents = update (has_id i.id) (bumped fresh.utcnow) db.incidents;
  alerts = db.alerts ++ alert_row alert i.id ∷ [];
  audit_log = db.audit_log ++ alert_attached_audit alert i.id (i.alert_count + 1) ∷ [];
  outbox_events = db.outbox_events ++ published fresh alert i.id true ∷ [];
}

abbrev pub opened_db : Fresh → NormalizedAlert → Db → Db
opened_db fresh alert db = record db {
  incidents = db.incidents ++ new_incident fresh alert ∷ [];
  alerts = db.alerts ++ alert_row alert fresh.incident_id ∷ [];
  audit_log = db.audit_log ++ incident_opened_audit alert fresh.incident_id ∷ [];
  outbox_events = db.outbox_events ++ published fresh alert fresh.incident_id false ∷ [];
}

module _ (fresh : Fresh) (alert : NormalizedAlert) (db : Db) where
  attach_outcome :
      (i : Incident)
      → attach fresh alert i db ≡ (
          if alert_taken alert db
          then err integrity_error
          else if event_taken fresh db
          then err integrity_error
          else ok (accepted i.id true, attached_db fresh alert i db))
  unfolding attach publish write_outbox_event
  attach_outcome i = elim (Bool-cases (alert_taken alert db)) [
    | inl t ↦ rw (t, attach, ◌>>=◌)
    | inr t ↦ elim (Bool-cases (event_taken fresh db)) [
      | inl u ↦ rw (t, u, attach, publish, write_outbox_event, ◌>>=◌)
      | inr u ↦ rw (t, u, attach, publish, write_outbox_event, ◌>>=◌)
    ]
  ]

  open_outcome : open_incident fresh alert db ≡ (
      if incident_taken fresh alert db
      then err integrity_error
      else if alert_taken alert db
      then err integrity_error
      else if event_taken fresh db
      then err integrity_error
      else ok (accepted fresh.incident_id false, opened_db fresh alert db))
  unfolding open_incident publish write_outbox_event
  open_outcome = elim (Bool-cases (incident_taken fresh alert db)) [
    | inl s ↦ rw (s, open_incident, ◌>>=◌)
    | inr s ↦ elim (Bool-cases (alert_taken alert db)) [
      | inl t ↦ rw (s, t, open_incident, ◌>>=◌)
      | inr t ↦ elim (Bool-cases (event_taken fresh db)) [
        | inl u ↦ rw (s, t, u, open_incident, publish, write_outbox_event, ◌>>=◌)
        | inr u ↦ rw (s, t, u, open_incident, publish, write_outbox_event, ◌>>=◌)
      ]
    ]
  ]

  -- Where attaching succeeds, this is what it returned and wrote.
  pub attach-ok :
      (i : Incident) {r : PublishResult} {db' : Db}
      → attach fresh alert i db ≡ ok (r, db')
      → (r ≡ accepted i.id true) × (db' ≡ attached_db fresh alert i db)
  attach-ok i h = ground (arith, attach_outcome i)

  pub open-ok :
      {r : PublishResult} {db' : Db}
      → open_incident fresh alert db ≡ ok (r, db')
      → (incident_taken fresh alert db ≡ false)
        × (r ≡ accepted fresh.incident_id false)
        × (db' ≡ opened_db fresh alert db)
  open-ok h = ground (arith, open_outcome)
