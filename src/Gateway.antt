-- ===== src/Gateway.antt =====
-- apps/llm-gateway/src/radar_llm_gateway/gateway: the circuit breaker, the retry loop and the
-- provider fallback of a call to a language model.
pub mod Breaker
pub mod Retry
pub mod Fallback
pub mod Trips
pub mod Trial
pub mod Budget
pub mod Terminal
mod Tests
