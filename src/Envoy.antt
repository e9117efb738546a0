-- ===== src/Envoy.antt =====
-- apps/envoy/src/xds: the resources that Envoy is given for a set of routes.
mod Tests
mod Types
pub mod Resources
pub mod Snapshot
pub mod Rows
pub mod Coverage
pub mod Cache
pub mod Stream
mod Currency
mod Delivery
pub mod Server
mod Derivation
mod Legacy
mod Freshness
mod Feeding
mod Responses
mod Session
mod Versions
mod StreamTests
mod SessionTests
mod VersionTests
mod Upstream
