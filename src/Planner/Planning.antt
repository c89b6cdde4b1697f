-- ===== src/Planner/Planning.antt =====
-- apps/planner-agent/src/radar_planner_agent/planning.py: one plan for an incident. `seen` are the
-- tables as the reads of the transaction saw them: another transaction may have committed since,
-- and what is written meets the tables as they are by then.
use radar_system.Prelude.{
  ℕ, suc, String, Bool, true, false, not, ◌||◌, Option, none, some, List, [], ◌∷◌, ◌++◌, ◌==◌, any,
  find_row, map, if◌then◌else◌,
}
use radar_system.Contracts.{
  UuidNumber, Time, text, number, flag, uuid, Document, PlanRequestedPayload, reasoning_requested,
}
use radar_system.Database.Tables.{Incident, InvestigationPlan, AuditLog, document, Db, OutboxEvent}
use radar_system.Database.Tx.{
  Tx, ◌>>=◌, ◌>>◌, pure, raise, modify, add_audit, integrity_error, incident_not_found, key_error,
}
use radar_system.Database.Repository.{incident_by_id}
use radar_system.Database.Outbox.{write_outbox_event}
use radar_system.Planner.Templates.{
  PlanTemplates, TemplateMatch, PlanStep, ordered_steps, match_template,
}

-- `new_id()`, the generated ids of the event, and NOW()
pub record Fresh : Type 0 where
  pub plan_id : UuidNumber
  pub outbox_id : UuidNumber
  pub event_id : UuidNumber
  pub now : Time

pub record PlanningOutcome : Type 0 where
  pub incident_id : UuidNumber
  pub plan_id : UuidNumber
  pub template_key : String
  pub is_default : Bool
  pub duplicate : Bool

-- `_existing_plan_id`
unfoldable pub existing_plan : UuidNumber → Db → Option InvestigationPlan
existing_plan incident_id db = find_row (λ p. p.incident_id == incident_id) db.investigation_plans

-- `_audit`
abbrev pub audit : String → UuidNumber → UuidNumber → PlanRequestedPayload → Document → AuditLog
audit event_type incident_id correlation_id payload extra = record {
  event_type = event_type;
  entity_type = "incident";
  entity_id = incident_id;
  correlation_id = correlation_id;
  actor = "planner-agent";
  payload = document (
      ("service_name", text payload.service_name)
      ∷ ("alert_name", text payload.alert_name)
      ∷ extra);
}

-- `duplicate_audit`, with the reason of a lost race
abbrev pub duplicate_audit : UuidNumber → PlanRequestedPayload → AuditLog
duplicate_audit correlation_id payload =
    audit "planner.duplicate_plan_ignored" payload.incident_id correlation_id payload
      (("reason", text "lost the race to the one-plan-per-incident index") ∷ [])

abbrev step_count : List PlanStep → ℕ
step_count [] = 0
step_count (s ∷ rest) = suc (step_count rest)

-- a plan of an incident that is gone
abbrev pub is_orphan : InvestigationPlan → Db → Bool
is_orphan plan db = not (any (λ (i : Incident). i.id == plan.incident_id) db.incidents)

-- the insert, under the primary key, the unique index on `incident_id` and the deferred foreign key
unfoldable pub add_plan : InvestigationPlan → Tx Unit
add_plan plan db =
    if any (λ p. p.incident_id == plan.incident_id || p.id == plan.id) db.investigation_plans
      || is_orphan plan db
    then raise integrity_error db
    else modify (λ t. record t { investigation_plans = t.investigation_plans ++ plan ∷ [] }) db

abbrev pub new_plan : Fresh → UuidNumber → PlanRequestedPayload → TemplateMatch → InvestigationPlan
new_plan fresh correlation_id payload found = record {
  id = fresh.plan_id;
  incident_id = payload.incident_id;
  correlation_id = correlation_id;
  steps = map (λ (s : PlanStep). (s.order, s.description)) (ordered_steps found.template);
  template_key = some found.key;
  status = "pending";
  created_at = fresh.now;
  updated_at = fresh.now;
}

abbrev pub or_key_error : Option TemplateMatch → Tx TemplateMatch
or_key_error none = raise key_error
or_key_error (some found) = pure found

abbrev pub request_reasoning : Fresh → UuidNumber → PlanRequestedPayload → Tx OutboxEvent
request_reasoning fresh correlation_id payload =
    write_outbox_event fresh.outbox_id fresh.event_id "incident.reasoning_requested"
      "reasoner-agent"
      (reasoning_requested (record { incident_id = payload.incident_id; plan_id = fresh.plan_id }))
      correlation_id fresh.now

abbrev pub created_audit : Fresh → UuidNumber → PlanRequestedPayload → TemplateMatch → AuditLog
created_audit fresh correlation_id payload found =
    audit "planner.plan_created" payload.incident_id correlation_id payload (
      ("plan_id", uuid fresh.plan_id)
      ∷ ("template_key", text found.key)
      ∷ ("is_default", flag found.is_default)
      ∷ ("step_count", number (step_count found.template.steps))
      ∷ [])

-- what follows the insert of the plan
abbrev pub finish_plan :
    Fresh → UuidNumber → PlanRequestedPayload → TemplateMatch → Tx PlanningOutcome
finish_plan fresh correlation_id payload found = do
  request_reasoning fresh correlation_id payload
  add_audit (created_audit fresh correlation_id payload found)
  pure (record {
    incident_id = payload.incident_id;
    plan_id = fresh.plan_id;
    template_key = found.key;
    is_default = found.is_default;
    duplicate = false;
  })

abbrev pub create_plan :
    Fresh → UuidNumber → PlanRequestedPayload → TemplateMatch → Tx PlanningOutcome
create_plan fresh correlation_id payload found = do
  add_plan (new_plan fresh correlation_id payload found)
  finish_plan fresh correlation_id payload found

-- after the pre-check
abbrev pub plan_after :
    Fresh
    → PlanTemplates
    → UuidNumber
    → PlanRequestedPayload
    → Option InvestigationPlan
    → Tx PlanningOutcome
plan_after fresh templates correlation_id payload (some existing) = do
  add_audit (
      audit "planner.duplicate_plan_ignored" payload.incident_id correlation_id payload
        (("existing_plan_id", uuid existing.id) ∷ []))
  pure (record {
    incident_id = payload.incident_id;
    plan_id = existing.id;
    template_key = "";
    is_default = false;
    duplicate = true;
  })
plan_after fresh templates correlation_id payload none = do
  found ← or_key_error (match_template templates payload.service_name payload.alert_name)
  create_plan fresh correlation_id payload found

abbrev pub or_gone : UuidNumber → Option Incident → Tx Incident
or_gone id none = raise (incident_not_found id)
or_gone id (some i) = pure i

-- `plan_incident`
unfoldable pub plan_incident :
    Fresh → PlanTemplates → UuidNumber → PlanRequestedPayload → Db → Tx PlanningOutcome
plan_incident fresh templates correlation_id payload seen = do
  or_gone payload.incident_id (incident_by_id payload.incident_id seen)
  plan_after fresh templates correlation_id payload (existing_plan payload.incident_id seen)
