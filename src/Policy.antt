-- ===== src/Policy.antt =====
-- packages/core/src/policy: the decisions that the engine takes, as pure functions.
pub mod Outcome
pub mod Retry
pub mod Circuit
pub mod RateLimit
