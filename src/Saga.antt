-- ===== src/Saga.antt =====
-- The saga engine: shared/common/src/saga.
pub mod Types
pub mod Events
pub mod Steps
pub mod Orchestrator
pub mod StateStore
pub mod Publisher
pub mod Memory
pub mod Actions
mod Tests
