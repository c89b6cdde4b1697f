-- ===== src/Feedback.antt =====
-- apps/feedback-service: the card of a recommendation, its delivery, and what a click on it does.
pub mod Callbacks
pub mod Cards
pub mod Buttons
pub mod Delivery
pub mod Routes
pub mod Recorded
pub mod Delivered
pub mod Once
pub mod Interactions
pub mod Resolving
mod Tests
