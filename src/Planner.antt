-- ===== src/Planner.antt =====
-- apps/planner-agent/src/radar_planner_agent: the template of an alert (templates.py), the plan of
-- an incident (planning.py) and the idempotent event handler with its lost race (routes.py).
pub mod Templates
pub mod Planning
pub mod Routes
pub mod Single
pub mod Race
pub mod Once
mod Tests
