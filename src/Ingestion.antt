-- ===== src/Ingestion.antt =====
-- apps/ingestion: deduplication (deduper.py), resolution (resolver.py) and the transactional write
-- of one alert (publisher.py).
pub mod Deduper
pub mod Resolver
pub mod Publisher
pub mod Window
pub mod Consistent
pub mod Firing
pub mod FiringConsistent
pub mod Resolving
pub mod Always
pub mod Redelivery
mod Tests
