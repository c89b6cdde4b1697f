-- ===== src/Planner/Tests.antt =====
-- Runs of the planner on a concrete incident, and the laws at those inputs.
use radar_system.Prelude.{List, ap, ℕ, ◌≡◌, refl, false, none, some, [], ◌∷◌}
use radar_system.Contracts.{EventEnvelope, PlanRequestedPayload, plan_requested}
use radar_system.Database.Tables.{InvestigationPlan, Incident, Db, empty_db}
use radar_system.Database.Outbox.{write_outbox_event}
use radar_system.Database.Repository.{is_already_processed, mark_processed}
use radar_system.Planner.Templates.{
  InvestigationTemplate, PlanTemplates, TemplateMatch, match_template,
}
use radar_system.Planner.Planning.{Fresh, existing_plan, add_plan, plan_incident}
use radar_system.Planner.Routes.{already_processed, processed, already_planned, receive_event}
use radar_system.Planner.Once.{redelivered_once}
use radar_system.Planner.Race.{race_recorded, lost_race_absorbed}

abbrev generic : InvestigationTemplate
generic = record {
  steps =
      record { order = 2; description = "read the logs" }
      ∷ record { order = 1; description = "look at the dashboard" }
      ∷ [];
}

abbrev templates : PlanTemplates
templates = ("_default", generic) ∷ ("payments:HighLatency", generic) ∷ []

abbrev found : TemplateMatch
found = record { key = "payments:HighLatency"; template = generic; is_default = false }

abbrev payload : PlanRequestedPayload
payload = record { incident_id = 5; service_name = "payments"; alert_name = "HighLatency" }

abbrev first_request : EventEnvelope
first_request = record {
  event_id = 21;
  event_type = "incident.plan_requested";
  correlation_id = 11;
  payload = plan_requested payload;
}

abbrev second_request : EventEnvelope
second_request = record first_request { event_id = 22 }

abbrev incident : Incident
incident = record {
  id = 5;
  correlation_id = 11;
  fingerprint = "f";
  service_name = "payments";
  title = "payments HighLatency";
  severity = "high";
  status = "open";
  alert_count = 1;
  opened_at = 100;
  resolved_at = none;
  closed_at = none;
  updated_at = 100;
}

abbrev start : Db
start = record empty_db { incidents = incident ∷ [] }

abbrev fresh_at : ℕ → Fresh
fresh_at n = record { plan_id = n; outbox_id = n; event_id = n; now = n }

planned_db : Db
unfolding receive_event
planned_db = (receive_event (fresh_at 200) (some templates) first_request start start).1

first_processed :
    receive_event (fresh_at 200) (some templates) first_request start start
    ≡ (processed, planned_db)
unfolding receive_event planned_db is_already_processed mark_processed plan_incident existing_plan
    match_template add_plan write_outbox_event
first_processed = refl

planned_rows : {p : InvestigationPlan} {ps : List InvestigationPlan} → p ∷ ps ≡ [] → ⊥
planned_rows e = cc

plan_changes :
    (receive_event (fresh_at 200) (some templates) first_request start start).1 ≡ start → ⊥
unfolding receive_event planned_db is_already_processed mark_processed plan_incident existing_plan
    match_template add_plan write_outbox_event
plan_changes e = planned_rows (ap (λ (d : Db). d.investigation_plans) e)

redelivered_once_example :
    receive_event
      (fresh_at 400)
      (some templates)
      first_request
      (receive_event (fresh_at 200) (some templates) first_request start start).1
      (receive_event (fresh_at 200) (some templates) first_request start start).1
    ≡ (
      already_processed,
      (receive_event (fresh_at 200) (some templates) first_request start start).1,
    )
redelivered_once_example =
    redelivered_once first_request start (fresh_at 200) templates start (fresh_at 400) plan_changes

-- the second request read the tables before the first had committed
lost_race_absorbed_example :
    receive_event (fresh_at 300) (some templates) second_request start planned_db ≡ (
      already_planned,
      race_recorded (fresh_at 300) templates second_request payload start planned_db,
    )
unfolding receive_event planned_db is_already_processed mark_processed plan_incident existing_plan
    match_template add_plan write_outbox_event
lost_race_absorbed_example =
    lost_race_absorbed (fresh_at 300) templates second_request payload start planned_db incident
      found refl refl refl refl refl refl refl refl
