-- ===== src/Ingestion/Tests.antt =====
-- Runs of ingestion on concrete alerts, and the laws at those inputs.
use radar_system.Prelude.{
  update, ℕ, ◌≡◌, ◌≢◌, refl, true, false, none, some, [], ◌∷◌, ◌++◌, eq_iff, count_where, inl,
}
use radar_system.Contracts.{value, high, NormalizedAlert}
use radar_system.Database.Tables.{AuditLog, Incident, Db, empty_db}
use radar_system.Database.Tx.{ok, committed}
use radar_system.Database.Lifecycle.{
  status_resolved, valid_transitions, is_valid_transition, transition_audit_event_type,
}
use radar_system.Database.Outbox.{write_outbox_event}
use radar_system.Database.Repository.{stamped, transition_status}
use radar_system.Ingestion.Deduper.{find_open_incident, dedup_window}
use radar_system.Ingestion.Resolver.{
  is_firing_on, find_resolvable_incident, mark_incident_alerts_resolved, count_firing_alerts,
  resolve_incident_if_quiet, alert_status_resolved,
}
use radar_system.Ingestion.Publisher.{
  webhook_time, resolve_ignored_audit, Fresh, PublishResult, persist_alert, attach, open_incident,
  publish, resolve_found,
}
use radar_system.Ingestion.Consistent.{has_id, IsFound, IsConsistent}
use radar_system.Ingestion.Window.{IsChoice, find_open_incident_exact}
use radar_system.Ingestion.Firing.{accepted, published}
use radar_system.Ingestion.Resolving.{
  IsLive, resolved_result, resolved_incidents, flipped_alerts, resolve_outcome,
}
use radar_system.Ingestion.Redelivery.{ignored_result, redelivered_ignored, redelivery_spills}
use radar_system.Ingestion.Always.{ended, persist_alert-IsConsistent, firing_alert_publishes}

abbrev firing_alert : NormalizedAlert
firing_alert = record {
  id = 1;
  source = "prometheus";
  source_alert_id = none;
  fingerprint = "payments-latency";
  service_name = "payments";
  alert_name = "HighLatency";
  severity = high;
  status = "firing";
  labels = [];
  annotations = [];
  fired_at = 90;
  resolved_at = none;
  received_at = 100;
  correlation_id = 11;
}

abbrev repeated_alert : NormalizedAlert
repeated_alert = record firing_alert { id = 2; received_at = 200; correlation_id = 12 }

abbrev ending_alert : NormalizedAlert
ending_alert = record firing_alert {
  id = 3;
  status = "resolved";
  resolved_at = some 300;
  received_at = 310;
  correlation_id = 13;
}

abbrev fresh_at : ℕ → Fresh
fresh_at n = record { incident_id = n; outbox_id = n; event_id = n; utcnow = n; now = n }

abbrev opened_result : PublishResult
opened_result = record {
  incident_id = some 100;
  deduplicated = false;
  ignored = false;
  alerts_resolved = none;
  incident_resolved = false;
}

opened_db : Db
unfolding persist_alert
opened_db = committed (persist_alert (fresh_at 100) firing_alert none) empty_db

abbrev attached_result : PublishResult
attached_result = record opened_result { deduplicated = true }

attached_db : Db
unfolding persist_alert opened_db
attached_db = committed (persist_alert (fresh_at 200) repeated_alert none) opened_db

abbrev ended_result : PublishResult
ended_result = record opened_result { alerts_resolved = some 2; incident_resolved = true }

ended_db : Db
unfolding persist_alert attached_db
ended_db = committed (persist_alert (fresh_at 300) ending_alert none) attached_db

opened : persist_alert (fresh_at 100) firing_alert none empty_db ≡ ok (opened_result, opened_db)
unfolding persist_alert open_incident publish write_outbox_event find_open_incident opened_db
opened = refl

attached :
    persist_alert (fresh_at 200) repeated_alert none opened_db ≡ ok (attached_result, attached_db)
unfolding persist_alert attach open_incident publish write_outbox_event find_open_incident opened_db
    attached_db
attached = refl

ending : persist_alert (fresh_at 300) ending_alert none attached_db ≡ ok (ended_result, ended_db)
unfolding persist_alert attach open_incident publish write_outbox_event find_open_incident opened_db
    attached_db ended_db resolve_found find_resolvable_incident mark_incident_alerts_resolved
    resolve_incident_if_quiet transition_status count_firing_alerts is_valid_transition
    valid_transitions transition_audit_event_type
ending = refl

opened-IsConsistent : IsConsistent opened_db
opened-IsConsistent =
    persist_alert-IsConsistent (fresh_at 100) firing_alert none empty_db opened_result opened_db
      opened (record { rows = tt; keys = tt; refs = tt })

attached-IsConsistent : IsConsistent attached_db
attached-IsConsistent =
    persist_alert-IsConsistent (fresh_at 200) repeated_alert none opened_db attached_result
      attached_db attached opened-IsConsistent

persist_alert-IsConsistent_example : IsConsistent ended_db
persist_alert-IsConsistent_example =
    persist_alert-IsConsistent (fresh_at 300) ending_alert none attached_db ended_result ended_db
      ending attached-IsConsistent

firing-ne-resolved : "firing" ≢ alert_status_resolved
firing-ne-resolved e = cc ((eq_iff "firing" alert_status_resolved).1 e)

firing_alert_publishes_example :
    (attached_result ≡ accepted 100 true)
    × (attached_db.outbox_events
        ≡ opened_db.outbox_events ++ published (fresh_at 200) repeated_alert 100 true ∷ [])
unfolding find_open_incident persist_alert open_incident publish write_outbox_event opened_db
firing_alert_publishes_example =
    firing_alert_publishes (fresh_at 200) repeated_alert none opened_db attached_result attached_db
      firing-ne-resolved attached

find_open_incident_exact_example :
    IsChoice "payments-latency" 200 dedup_window opened_db
      (find_open_incident "payments-latency" 200 dedup_window opened_db)
find_open_incident_exact_example =
    find_open_incident_exact "payments-latency" 200 dedup_window opened_db

-- The same condition again, five minutes and more after the first incident opened.
abbrev late_alert : NormalizedAlert
late_alert = record firing_alert { id = 4; received_at = 400_000_000; correlation_id = 14 }

abbrev late_result : PublishResult
late_result = record opened_result { incident_id = some 400_000_000 }

two_open_db : Db
unfolding persist_alert opened_db
two_open_db = committed (persist_alert (fresh_at 400_000_000) late_alert none) opened_db

late :
    persist_alert (fresh_at 400_000_000) late_alert none opened_db ≡ ok (late_result, two_open_db)
unfolding persist_alert open_incident publish write_outbox_event find_open_incident opened_db
    two_open_db
late = refl

abbrev first_incident : Incident
first_incident = record {
  id = 100;
  correlation_id = 11;
  fingerprint = "payments-latency";
  service_name = "payments";
  title = "payments HighLatency";
  severity = "high";
  status = "open";
  alert_count = 1;
  opened_at = 100;
  resolved_at = none;
  closed_at = none;
  updated_at = 100;
}

abbrev late_incident : Incident
late_incident = record first_incident {
  id = 400_000_000;
  correlation_id = 14;
  opened_at = 400_000_000;
  updated_at = 400_000_000;
}

two_open-IsConsistent : IsConsistent two_open_db
two_open-IsConsistent =
    persist_alert-IsConsistent (fresh_at 400_000_000) late_alert none opened_db late_result
      two_open_db late opened-IsConsistent

-- the resolve of the late incident, and of the only one
abbrev one_ended_result : PublishResult
one_ended_result = record opened_result { alerts_resolved = some 1; incident_resolved = true }

late_ended_db : Db
unfolding persist_alert two_open_db
late_ended_db = committed (persist_alert (fresh_at 500_000_000) ending_alert none) two_open_db

only_ended_db : Db
unfolding persist_alert opened_db
only_ended_db = committed (persist_alert (fresh_at 300) ending_alert none) opened_db

late_ending :
    persist_alert (fresh_at 500_000_000) ending_alert none two_open_db
    ≡ ok (record one_ended_result { incident_id = some 400_000_000 }, late_ended_db)
unfolding persist_alert attach open_incident publish write_outbox_event find_open_incident opened_db
    two_open_db late_ended_db resolve_found find_resolvable_incident mark_incident_alerts_resolved
    resolve_incident_if_quiet transition_status count_firing_alerts is_valid_transition
    valid_transitions transition_audit_event_type
late_ending = refl

only_ending :
    persist_alert (fresh_at 300) ending_alert none opened_db ≡ ok (one_ended_result, only_ended_db)
unfolding persist_alert attach open_incident publish write_outbox_event find_open_incident opened_db
    only_ended_db resolve_found find_resolvable_incident mark_incident_alerts_resolved
    resolve_incident_if_quiet transition_status count_firing_alerts is_valid_transition
    valid_transitions transition_audit_event_type
only_ending = refl

late_found : ended (fresh_at 500_000_000) ending_alert none two_open_db ≡ some late_incident
unfolding value persist_alert open_incident publish write_outbox_event find_open_incident opened_db
    two_open_db find_resolvable_incident
late_found = refl

only_found : ended (fresh_at 300) ending_alert none opened_db ≡ some first_incident
unfolding value persist_alert open_incident publish write_outbox_event find_open_incident opened_db
    find_resolvable_incident
only_found = refl

redelivery_spills_example :
    (late_ended_db.incidents
      ≡ update
          (has_id late_incident.id)
          (stamped status_resolved (webhook_time ending_alert))
          two_open_db.incidents)
    × (j : Incident) × (j.id ≡ late_incident.id → ⊥)
    × IsLive j
    × (r' : PublishResult) × (db'' : Db) × (persist_alert
          (fresh_at 600_000_000)
          ending_alert
          none
          late_ended_db
        ≡ ok (r', db''))
    × (r'.incident_id ≡ some j.id)
    × (db''.incidents
        ≡ update
            (has_id j.id)
            (stamped status_resolved (webhook_time ending_alert))
            late_ended_db.incidents)
unfolding persist_alert open_incident publish write_outbox_event find_open_incident opened_db
    two_open_db
redelivery_spills_example =
    redelivery_spills (fresh_at 500_000_000) (fresh_at 600_000_000) ending_alert none two_open_db
      late_incident two_open-IsConsistent late_found
      (record one_ended_result { incident_id = some 400_000_000 }) late_ended_db refl late_ending
      refl

redelivered_ignored_example :
    persist_alert (fresh_at 600) ending_alert none only_ended_db
    ≡ ok (
      ignored_result,
      record only_ended_db {
        audit_log = only_ended_db.audit_log ++ resolve_ignored_audit ending_alert ∷ [];
      },
    )
unfolding persist_alert open_incident publish write_outbox_event find_open_incident opened_db
redelivered_ignored_example =
    redelivered_ignored (fresh_at 300) (fresh_at 600) ending_alert none opened_db first_incident
      opened-IsConsistent only_found one_ended_result only_ended_db refl only_ending (λ _. refl, tt)

opened_found : IsFound opened_db first_incident
unfolding value persist_alert open_incident publish write_outbox_event find_open_incident opened_db
opened_found = refl

opened_live : IsLive first_incident
opened_live = inl refl

resolve_outcome_example :
    (db' : Db) × (resolve_found (fresh_at 300) ending_alert (some first_incident) opened_db
      ≡ ok (resolved_result 100 (count_where (is_firing_on 100) opened_db.alerts), db'))
    × (db'.incidents
        ≡ resolved_incidents
            (fresh_at 300)
            ending_alert
            first_incident
            opened_db
            opened_found
            opened_live)
    × (db'.alerts
        ≡ flipped_alerts
            (fresh_at 300)
            ending_alert
            first_incident
            opened_db
            opened_found
            opened_live)
    × (db'.outbox_events ≡ opened_db.outbox_events)
    × ((receipt : AuditLog) × (db'.audit_log ≡ opened_db.audit_log ++ receipt ∷ [])
        × (receipt.event_type ≡ "incident.resolved")
        × (receipt.entity_id ≡ 100))
resolve_outcome_example =
    resolve_outcome (fresh_at 300) ending_alert first_incident opened_db opened_found opened_live
