-- ===== src/Worker.antt =====
-- apps/outbox-worker: delivering claimed events (dispatcher.py), recording the outcome (retry.py),
-- recovering stranded rows and requeueing dead letters (dead_letter.py), and the poll loop
-- (poller.py).
pub mod Dispatcher
pub mod Processor
pub mod Reaper
pub mod Poller
pub mod Life
mod Tests
