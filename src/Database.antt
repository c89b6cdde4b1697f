-- ===== src/Database.antt =====
-- packages/database: the tables (models.py), transactions over them (connection.py), the incident
-- lifecycle (lifecycle.py), the outbox (outbox.py) and the repositories (repository.py).
pub mod Tables
pub mod Tx
pub mod Lifecycle
pub mod Outbox
pub mod Repository
mod Tests
