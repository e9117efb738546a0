-- ===== src/Rib.antt =====
-- packages/routing/src/v2/rib/rib.ts: the state machine of the route table. `plan` takes the time
-- that `Date.now()` gives as its argument `clock`; no handler reads it for two peers.
mod Tests
pub mod Plans
pub mod Local
pub mod Session
pub mod Update
pub mod Expiry
pub mod Invariant
pub mod Preservation
mod Delta
mod Changes
mod Releases
mod Holding
mod Purge
pub mod Machine
pub mod Previous
pub mod BestPath
pub mod Attribution
