-- ===== src/Watcher/Tests.antt =====
-- Runs of the watcher on a concrete incident, and the laws at those inputs.
use radar_system.Prelude.{◌≡◌, refl, true, false, none, some, List, [], ◌∷◌, All, ap}
use radar_system.Contracts.{
  critical, high, value, of_value, rank, is_more_severe, AlertNormalizedPayload, EventEnvelope,
  alert_normalized,
}
use radar_system.Database.Tables.{Incident, Alert, Db, empty_db}
use radar_system.Database.Tx.{ok, committed}
use radar_system.Database.Outbox.{write_outbox_event}
use radar_system.Database.Repository.{is_already_processed, mark_processed}
use radar_system.Watcher.Rules.{
  CorrelationRules, suppression_for, has_duplicates, validate, fingerprint_fields_declared,
}
use radar_system.Watcher.Rules.Unshadowed.{validated_rules_found}
use radar_system.Watcher.Correlation.{
  Fresh, CorrelationOutcome, alerts_received_since, fired, escalated, write_escalation, escalate,
  suppressed_by, request_plan, decide_new, decide, correlate,
}
use radar_system.Watcher.Routes.{receive_event}
use radar_system.Watcher.Ratchet.{IsRatchet, escalate_ratchets}
use radar_system.Watcher.Decision.{IsDecided, correlate_decides}
use radar_system.Watcher.Once.{
  AllOrNothing, receive_event-AllOrNothing, deliver_again, redelivery_changes_nothing,
}

abbrev payload : AlertNormalizedPayload
payload = record {
  alert = record {
    id = 1;
    source = "prometheus";
    source_alert_id = none;
    fingerprint = "f";
    service_name = "payments";
    alert_name = "HighLatency";
    severity = high;
    status = "firing";
    labels = [];
    annotations = [];
    fired_at = 90;
    resolved_at = none;
    received_at = 100;
    correlation_id = 11;
  };
  incident_id = 5;
  deduplicated = false;
}

abbrev incident : Incident
incident = record {
  id = 5;
  correlation_id = 11;
  fingerprint = "f";
  service_name = "payments";
  title = "payments HighLatency";
  severity = "high";
  status = "open";
  alert_count = 1;
  opened_at = 100;
  resolved_at = none;
  closed_at = none;
  updated_at = 100;
}

abbrev alert : Alert
alert = record {
  id = 1;
  source = "prometheus";
  source_alert_id = none;
  fingerprint = "f";
  service_name = "payments";
  alert_name = "HighLatency";
  severity = "high";
  status = "firing";
  labels = [];
  annotations = [];
  fired_at = 90;
  resolved_at = none;
  received_at = 100;
  incident_id = some 5;
  correlation_id = 11;
}

abbrev start : Db
start = record empty_db { incidents = incident ∷ []; alerts = alert ∷ [] }

-- one alert is a burst here
abbrev rules : CorrelationRules
rules = record {
  default_window_minutes = 5;
  window_overrides = [];
  service_groups =
      record { name = "checkout"; services = "payments" ∷ []; group_as_single_incident = true }
      ∷ [];
  suppression = record { alert_name = "HighLatency"; suppress_follow_on_minutes = 30 } ∷ [];
  escalation =
      record { alert_count_threshold = 1; within_minutes = 10; escalate_to = critical } ∷ [];
  fingerprint_fields = [];
}

abbrev fresh : Fresh
fresh = record { outbox_id = 70; event_id = 71; utcnow = 120; now = 120 }

abbrev alert_envelope : EventEnvelope
alert_envelope = record {
  event_id = 21;
  event_type = "alert.normalized";
  correlation_id = 11;
  payload = alert_normalized payload;
}

raised_db : Db
unfolding escalate
raised_db = committed (escalate fresh rules.escalation incident 11 payload) start

raised :
    escalate fresh rules.escalation incident 11 payload start
    ≡ ok ((escalated critical 120 incident, some critical), raised_db)
unfolding escalate raised_db fired alerts_received_since of_value value is_more_severe rank
    write_escalation
raised = refl

high_known : of_value "high" ≡ some high
unfolding of_value
high_known = refl

escalate_ratchets_example :
    IsRatchet fresh rules.escalation incident 11 payload start high
      (escalated critical 120 incident, some critical)
      raised_db
escalate_ratchets_example =
    escalate_ratchets fresh rules.escalation incident 11 payload start high
      (escalated critical 120 incident, some critical) raised_db high_known raised

abbrev planned_outcome : CorrelationOutcome
planned_outcome = record {
  incident_id = 5;
  plan_requested = true;
  suppressed = false;
  escalated_to = some critical;
}

planned_db : Db
unfolding correlate
planned_db = committed (correlate fresh rules 11 payload) start

planned : correlate fresh rules 11 payload start ≡ ok (planned_outcome, planned_db)
unfolding correlate planned_db escalate fired alerts_received_since of_value value is_more_severe
    rank write_escalation decide decide_new suppressed_by suppression_for request_plan
    write_outbox_event
planned = refl

correlate_decides_example :
    IsDecided fresh rules 11 payload incident planned_outcome start planned_db
correlate_decides_example =
    correlate_decides fresh 11 payload rules incident start planned_outcome planned_db refl planned

receive_event-AllOrNothing_example :
    AllOrNothing alert_envelope start (receive_event fresh (some rules) alert_envelope start)
receive_event-AllOrNothing_example =
    receive_event-AllOrNothing fresh (some rules) alert_envelope start

no_rows-ne-row : {A : Type 0} {x : A} {xs : List A} → x ∷ xs ≡ [] → ⊥
no_rows-ne-row e = cc

delivery_changes : (receive_event fresh (some rules) alert_envelope start).1 ≡ start → ⊥
unfolding receive_event correlate planned_db escalate fired alerts_received_since of_value value
    is_more_severe rank write_escalation decide decide_new suppressed_by suppression_for
    request_plan write_outbox_event is_already_processed mark_processed
delivery_changes e = no_rows-ne-row (ap (λ (db : Db). db.outbox_events) e)

redelivery_changes_nothing_example :
    deliver_again rules alert_envelope
      (fresh ∷ fresh ∷ [])
      (receive_event fresh (some rules) alert_envelope start).1
    ≡ (receive_event fresh (some rules) alert_envelope start).1
redelivery_changes_nothing_example =
    redelivery_changes_nothing fresh rules alert_envelope (fresh ∷ fresh ∷ []) start
      delivery_changes

abbrev valid_rules : CorrelationRules
valid_rules = record rules {
  suppression =
      record { alert_name = "HighLatency"; suppress_follow_on_minutes = 30 }
      ∷ record { alert_name = "DiskFull"; suppress_follow_on_minutes = 60 }
      ∷ [];
  escalation =
      record { alert_count_threshold = 3; within_minutes = 10; escalate_to = critical } ∷ [];
  fingerprint_fields = fingerprint_fields_declared;
}

valid_rules_load : validate valid_rules ≡ true
unfolding validate has_duplicates
valid_rules_load = refl

validated_rules_found_example :
    All (λ r. suppression_for valid_rules r.alert_name ≡ some r) valid_rules.suppression
validated_rules_found_example = validated_rules_found valid_rules valid_rules_load
