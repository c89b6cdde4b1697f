-- ===== src/Watcher/Correlation.antt =====
-- apps/watcher-agent/src/radar_watcher_agent/correlation.py: escalation, suppression, and the plan
-- request, in one transaction.
use radar_system.Prelude.{
  ℕ, ◌+◌, String, Bool, true, false, ◌&&◌, not, Option, none, some, List, [], ◌∷◌, leb, str_eq,
  ◌==◌, any, update, count_where, if◌then◌else◌,
}
use radar_system.Contracts.{
  UuidNumber, Time, minutes, text, number, flag, uuid, Document, Severity, value, of_value,
  is_more_severe, AlertNormalizedPayload, plan_requested,
}
use radar_system.Database.Tables.{Incident, Alert, AuditLog, document, Db, OutboxEvent}
use radar_system.Database.Tx.{
  Tx, ◌>>=◌, ◌>>◌, pure, raise, gets, modify, add_audit, incident_not_found, value_error,
}
use radar_system.Database.Repository.{incident_by_id}
use radar_system.Database.Outbox.{write_outbox_event}
use radar_system.Watcher.Rules.{CorrelationRules, EscalationRule, suppression_for}

-- the generated ids of an event, `utcnow()` and NOW()
pub record Fresh : Type 0 where
  pub outbox_id : UuidNumber
  pub event_id : UuidNumber
  pub utcnow : Time
  pub now : Time

pub record CorrelationOutcome : Type 0 where
  pub incident_id : UuidNumber
  pub plan_requested : Bool
  pub suppressed : Bool
  pub escalated_to : Option Severity

-- `_audit`; `body.update(extra)` adds keys that the body does not have
abbrev pub audit : String → Incident → UuidNumber → AlertNormalizedPayload → Document → AuditLog
audit event_type incident correlation_id payload extra = record {
  event_type = event_type;
  entity_type = "incident";
  entity_id = incident.id;
  correlation_id = correlation_id;
  actor = "watcher-agent";
  payload = document (
      ("alert_id", uuid payload.id)
      ∷ ("service_name", text payload.service_name)
      ∷ ("alert_name", text payload.alert_name)
      ∷ ("severity", text incident.severity)
      ∷ ("alert_count", number incident.alert_count)
      ∷ ("deduplicated", flag payload.deduplicated)
      ∷ extra);
}

-- `_alerts_received_since(since)` for `since = reference - within`, with no truncated subtraction
abbrev pub is_recent_on : UuidNumber → Time → Time → Alert → Bool
is_recent_on incident_id reference within a =
    (elim a.incident_id [ some k ↦ k == incident_id | none ↦ false ])
    && leb reference (a.received_at + within)

unfoldable pub alerts_received_since : UuidNumber → Time → Time → Db → ℕ
alerts_received_since incident_id reference within db =
    count_where (is_recent_on incident_id reference within) db.alerts

-- the targets of the rules whose burst condition is met
unfoldable pub fired : UuidNumber → Time → Db → List EscalationRule → List Severity
unfolding alerts_received_since
fired incident_id reference db [] = []
fired incident_id reference db (rule ∷ rules) =
    let rest = fired incident_id reference db rules in
    if leb rule.alert_count_threshold
      (alerts_received_since incident_id reference (minutes rule.within_minutes) db)
    then rule.escalate_to ∷ rest
    else rest

-- `min(fired, key=rank)`: the first of the most severe
abbrev pub most_severe : Severity → List Severity → Severity
most_severe s [] = s
most_severe s (t ∷ ts) = most_severe (if is_more_severe t s then t else s) ts

abbrev pub escalated : Severity → Time → Incident → Incident
escalated target utcnow i = record i { severity = value target; updated_at = utcnow }

-- the writes of an escalation
unfoldable pub write_escalation :
    Fresh
    → Incident
    → UuidNumber
    → AlertNormalizedPayload
    → Severity
    → Severity
    → Tx (Incident × Option Severity)
write_escalation fresh i correlation_id payload current target = do
  let worse = escalated target fresh.utcnow i
  modify λ db. record db { incidents = update (λ r. r.id == i.id) (λ _. worse) db.incidents }
  add_audit (
      audit "watcher.incident_escalated" worse correlation_id payload
        (("escalated_from", text (value current)) ∷ ("escalated_to", text (value target)) ∷ []))
  pure (worse, some target)

abbrev pub escalate_to :
    Fresh
    → Incident
    → UuidNumber
    → AlertNormalizedPayload
    → Severity
    → List Severity
    → Tx (Incident × Option Severity)
escalate_to fresh i correlation_id payload current [] = pure (i, none)
escalate_to fresh i correlation_id payload current (s ∷ ss) =
    if is_more_severe (most_severe s ss) current
    then write_escalation fresh i correlation_id payload current (most_severe s ss)
    else pure (i, none)

abbrev pub with_current :
    Fresh
    → List EscalationRule
    → Incident
    → UuidNumber
    → AlertNormalizedPayload
    → Option Severity
    → Tx (Incident × Option Severity)
with_current fresh rules i correlation_id payload none = raise value_error
with_current fresh rules i correlation_id payload (some current) = do
  hits ← gets (λ db. fired i.id payload.received_at db rules)
  escalate_to fresh i correlation_id payload current hits

-- `_escalate`: the incident as it now is, and the severity it was raised to
unfoldable pub escalate :
    Fresh
    → List EscalationRule
    → Incident
    → UuidNumber
    → AlertNormalizedPayload
    → Tx (Incident × Option Severity)
unfolding of_value
escalate fresh [] i correlation_id payload = pure (i, none)
escalate fresh (rule ∷ rules) i correlation_id payload =
    with_current fresh (rule ∷ rules) i correlation_id payload (of_value i.severity)

-- Is `previous` an earlier incident of the same alert, inside the cooldown?
abbrev pub is_follow_on : Db → Incident → AlertNormalizedPayload → ℕ → Incident → Bool
is_follow_on db i payload cooldown previous =
    not (previous.id == i.id)
    && leb i.opened_at (previous.opened_at + minutes cooldown)
    && leb previous.opened_at i.opened_at
    && any
        (λ (a : Alert).
          str_eq a.service_name payload.service_name
          && str_eq a.alert_name payload.alert_name
          && (elim a.incident_id [ some k ↦ k == previous.id | none ↦ false ]))
        db.alerts

-- `_suppressed_by`
unfoldable pub suppressed_by : CorrelationRules → Incident → AlertNormalizedPayload → Db → Option ℕ
suppressed_by rules i payload db = elim (suppression_for rules payload.alert_name) [
  | none ↦ none
  | some rule ↦
      if any (is_follow_on db i payload rule.suppress_follow_on_minutes) db.incidents
      then some rule.suppress_follow_on_minutes
      else none
]

-- `_request_plan`
unfoldable pub request_plan :
    Fresh → Incident → UuidNumber → AlertNormalizedPayload → Tx OutboxEvent
request_plan fresh i correlation_id payload =
    write_outbox_event fresh.outbox_id fresh.event_id "incident.plan_requested" "planner-agent"
      (plan_requested (record {
        incident_id = i.id;
        service_name = i.service_name;
        alert_name = payload.alert_name;
      }))
      correlation_id fresh.now

-- the branches of `correlate` after the escalation
unfoldable pub decide_new :
    Fresh
    → Incident
    → UuidNumber
    → AlertNormalizedPayload
    → Option Severity
    → Option ℕ
    → Tx CorrelationOutcome
decide_new fresh i correlation_id payload escalated_to (some cooldown) = do
  add_audit (
      audit "watcher.plan_suppressed" i correlation_id payload
        (("suppress_follow_on_minutes", number cooldown) ∷ []))
  pure (record {
    incident_id = i.id;
    plan_requested = false;
    suppressed = true;
    escalated_to = escalated_to;
  })
decide_new fresh i correlation_id payload escalated_to none = do
  request_plan fresh i correlation_id payload
  add_audit (audit "watcher.plan_requested" i correlation_id payload [])
  pure (record {
    incident_id = i.id;
    plan_requested = true;
    suppressed = false;
    escalated_to = escalated_to;
  })

unfoldable pub decide :
    Fresh
    → CorrelationRules
    → UuidNumber
    → AlertNormalizedPayload
    → Incident × Option Severity
    → Tx CorrelationOutcome
decide fresh rules correlation_id payload (i, escalated_to) =
    if payload.deduplicated
    then (do
      add_audit (audit "watcher.alert_attached" i correlation_id payload [])
      pure (record {
        incident_id = i.id;
        plan_requested = false;
        suppressed = false;
        escalated_to = escalated_to;
      }))
    else (do
      by ← gets (suppressed_by rules i payload)
      decide_new fresh i correlation_id payload escalated_to by)

abbrev pub or_gone : UuidNumber → Option Incident → Tx Incident
or_gone id none = raise (incident_not_found id)
or_gone id (some i) = pure i

-- `correlate`
unfoldable pub correlate :
    Fresh → CorrelationRules → UuidNumber → AlertNormalizedPayload → Tx CorrelationOutcome
correlate fresh rules correlation_id payload = do
  found ← gets (incident_by_id payload.incident_id)
  i ← or_gone payload.incident_id found
  raised ← escalate fresh rules.escalation i correlation_id payload
  decide fresh rules correlation_id payload raised
