-- ===== src/Watcher.antt =====
-- apps/watcher-agent: the correlation rules (rules.py), what one alert means for its incident
-- (correlation.py) and the idempotent event handler (routes.py).
pub mod Rules
pub mod Correlation
pub mod Routes
pub mod Ratchet
pub mod Suppression
pub mod Decision
pub mod Once
mod Tests
