-- ===== src/Reasoner/Context.antt =====
-- apps/reasoner-agent/src/radar_reasoner_agent/context.py: what the model is told about an
-- incident, from the rows as a session saw them.
use radar_system.Prelude.{
  ℕ, String, Bool, true, false, ◌&&◌, Option, none, some, List, [], ◌∷◌, ltb, ◌==◌, find_row,
  select, order_by, if◌then◌else◌,
}
use radar_system.Contracts.{UuidNumber, Severity, of_value, ContextBundle}
use radar_system.Database.Tables.{Incident, Alert, InvestigationPlan, Db}
use radar_system.Database.Repository.{incident_by_id}
use radar_system.Reasoner.History.{historical_prior, past_feedback}

-- The bundle, a ContextNotAvailableError, or the ValueError of a row that does not validate.
pub data Context : Type 0 where
  available : ContextBundle → Context
  not_available invalid : Context

abbrev pub plan_by_id : UuidNumber → Db → Option InvestigationPlan
plan_by_id id db = find_row (λ p. p.id == id) db.investigation_plans

abbrev pub first_of : List Alert → Option Alert
first_of [] = none
first_of (a ∷ rest) = some a

-- `_alert_facts_for`: the earliest alert
abbrev pub alert_facts_for : UuidNumber → Db → Option Alert
alert_facts_for id db = first_of (
    order_by (λ (a : Alert). a.received_at)
      (select (λ (a : Alert). elim a.incident_id [ some i ↦ i == id | none ↦ false ]) db.alerts))

-- `PlanStep.model_validate` on each step: the order is at least 1
abbrev pub steps_valid : List (ℕ × String) → Bool
steps_valid [] = true
steps_valid ((order, description) ∷ rest) = ltb 0 order && steps_valid rest

abbrev pub bundle_of :
    (String → String) → Db → Incident → InvestigationPlan → Alert → Severity → ContextBundle
bundle_of lower db i plan alert severity = record {
  incident_id = i.id;
  service_name = i.service_name;
  alert_name = alert.alert_name;
  severity = severity;
  opened_at = i.opened_at;
  alert_count = i.alert_count;
  investigation_steps = plan.steps;
  alert_labels = alert.labels;
  alert_annotations = alert.annotations;
  retrieved_context = [];
  historical_prior = historical_prior lower i.fingerprint i.id db;
  past_feedback = past_feedback i.fingerprint i.id db;
}

abbrev pub with_alert :
    (String → String) → Db → Incident → InvestigationPlan → Option Severity → Option Alert → Context
with_alert lower db i plan severity none = not_available
with_alert lower db i plan none (some alert) = invalid
with_alert lower db i plan (some severity) (some alert) =
    if steps_valid plan.steps then available (bundle_of lower db i plan alert severity) else invalid

abbrev pub with_plan : (String → String) → Db → Incident → Option InvestigationPlan → Context
with_plan lower db i none = not_available
with_plan lower db i (some plan) =
    if plan.incident_id == i.id
    then with_alert lower db i plan (of_value i.severity) (alert_facts_for i.id db)
    else not_available

abbrev pub with_incident : (String → String) → UuidNumber → Db → Option Incident → Context
with_incident lower plan_id db none = not_available
with_incident lower plan_id db (some i) = with_plan lower db i (plan_by_id plan_id db)

-- `build_context_bundle`
unfoldable pub build_context_bundle : (String → String) → UuidNumber → UuidNumber → Db → Context
build_context_bundle lower incident_id plan_id db =
    with_incident lower plan_id db (incident_by_id incident_id db)
