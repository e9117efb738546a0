-- ===== src/Bus.antt =====
-- apps/orchestrator/src/v2/bus.ts: the pipeline that takes an action to its committed state and to
-- the messages that follow from it.
mod Tests
pub mod Config
pub mod Allocation
pub mod Propagation
pub mod Keepalive
pub mod Dispatch
pub mod Horizon
mod Stamping
mod Quiet
pub mod Stamps
pub mod Collisions
pub mod Outcome
pub mod Attribution
