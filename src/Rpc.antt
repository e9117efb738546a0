-- ===== src/Rpc.antt =====
-- apps/orchestrator/src/v2/rpc.ts and `buildTokenValidator` of catalyst-service.ts: the clients
-- that the node hands to a caller, each behind a check of the caller's token.
mod Tests
pub mod Validator
pub mod Clients
pub mod Ibgp
pub mod Endpoint
pub mod Gate
mod Origin
