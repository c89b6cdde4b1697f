-- ===== src/Reasoner.antt =====
-- apps/reasoner-agent: the analysis of an incident, its template where no analysis comes back, and
-- the one recommendation that is stored.
pub mod Rca
pub mod Llm
pub mod Knowledge
pub mod Fallback
pub mod History
pub mod Context
pub mod Storage
pub mod Routes
pub mod Single
pub mod Outcome
pub mod Always
pub mod Race
pub mod Once
pub mod Prompt
pub mod Counts
mod Tests
