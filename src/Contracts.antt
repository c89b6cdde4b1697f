-- ===== src/Contracts.antt =====
-- packages/contracts: the closed severity vocabulary, the normalized alert and the event bodies
-- that cross service boundaries (alerts.py, events.py, incidents.py), and the values of JSON
-- documents.
mod Alerts
mod Events
mod Reasoning
pub use Alerts.*
unfoldable pub use Alerts.{value, of_value, rank, is_more_severe}
pub use Events.*
pub use Reasoning.*
