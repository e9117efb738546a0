-- ===== src/Timers.antt =====
-- The orchestrator's timers: reconnection with backoff, and the interval of the Ticks.
mod Tests
pub mod Reconnect
pub mod Backoff
pub mod Interval
