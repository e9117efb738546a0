-- ===== src/Auth.antt =====
-- packages/authorization: who may do what. Tokens and their revocation (src/jwt/), the policies
-- (src/policy/) and the RPC server in front of them (src/service/rpc/server.ts).
pub mod Models
pub mod Policy
pub mod Tokens
pub mod Server
mod Roles
mod Revocation
mod Minting
mod Tests
