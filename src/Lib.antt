-- ===== src/Lib.antt =====
-- Catalyst router: the control plane of a node, from the messages that drive its route table to
-- the resources that its proxy is given.
--
-- The parts and how they interact. Peers, the API and timers send actions to the bus of the
-- orchestrator (apps/orchestrator/src/v2/bus.ts). A dispatch refuses or filters the action, has
-- the routing information base (packages/routing/src/v2/rib/rib.ts) plan the new route table,
-- allocates listener ports (apps/envoy/src/port-allocator.ts), commits the table and the action
-- to the log (packages/routing/src/v2/journal), and tells peers, gateway and proxy what changed.
-- On a start the table is recovered from the log (apps/orchestrator/src/v2/service.ts), which
-- compaction.ts keeps short. The proxy's server (apps/envoy/src/xds) builds resources from the
-- routes and hands them to its watchers.
--
-- Which file models which part:
-- - Table, Action: the data of packages/routing/src/v2 (state.ts, datachannel.ts,
--   port-operation.ts, close-codes.ts, schema.ts and the actions). A record for each object
--   type, an `Option` for an optional field.
-- - Rib: rib.ts. Each handler `planX` is the function `plan_x` on a table; `plan` chooses by the
--   action; `NewState` tells the same object from a new one. Rib/Local, Session, Update and
--   Expiry hold the handlers, the other children what is proved of them.
-- - Ports: port-allocator.ts, the closure as a record of the free ports in order and the
--   allocations.
-- - Journal: in-memory-action-log.ts and `commit`; Journal/Interface is action-log.ts,
--   Journal/Sqlite sqlite-action-log.ts, whose statements are functions on the two tables.
--   Recovery: compaction.ts and the recovery of service.ts; Recovery/Timer is compaction's
--   timer, Recovery/Service a node's life as a sequence of events, Recovery/Divergence what
--   happens under a route policy.
-- - Bus: bus.ts, a method by a function each: Bus/Allocation is `planPortAllocations`,
--   Bus/Propagation what peers are told, Bus/Keepalive the keepalives, Bus/Dispatch `dispatch`
--   and what follows a commit. Outgoing calls are values of `Call` in the order in which they
--   start.
-- - Envoy: resources.ts (Types, Resources, Snapshot), snapshot-cache.ts (Cache) and
--   control-plane.ts (Stream), whose responses are what is encoded, with their nonces as
--   numbers. apps/envoy/src/rpc/server.ts is Envoy/Server; Envoy/Session puts server, cache and
--   one stream together as a step relation, Envoy/Upstream the bus and the resources.
-- - Orchestrator: the dispatch of service.ts, around the one of the bus. `opens` is the
--   transport.
-- - Keys: packages/authorization/src/key-manager/persistent.ts. Keys/Rotation and Keys/History
--   are rotations and restarts, Keys/Crash a stop within a rotation.
-- - Rpc: rpc.ts and the token validator of catalyst-service.ts (apps/orchestrator/src/v2).
--   `createXClient` is `create_x_client`; a method of a client is a step of the bus, and
--   Rpc/Endpoint puts all calls together.
-- - Node: the node's own token in catalyst-service.ts, and what it answers under `/api/state`
--   (Node/State).
-- - Auth: packages/authorization/src: the tokens of jwt (Tokens), the policies and the engine of
--   policy (Policy, Models) and service/rpc/server.ts (Server). Auth/Roles and Auth/Revocation
--   follow a token from there to the node's RPC.
-- - Transport: ws-transport.ts and http-transport.ts, the sessions that are kept for the peers;
--   Transport/Peering puts a node's bus and a peer's RPC together. Queue: rib/action-queue.ts.
--   Health: adapter-health.ts, with the interval and its rounds as a step relation in
--   Health/Rounds.
-- - Network: an advertisement on its way through several nodes, each a bus and a table as above.
-- - Views: views.ts. Timers: reconnect.ts and tick-manager.ts.
-- - Prelude: shared helpers. Samples and the Tests modules: concrete inputs.
--
-- Bounds. Times, ports and close codes are natural numbers, without a bound; the source's are
-- JavaScript numbers, which hold them exactly below 2 ^ 53. Every loop of the source that is
-- modelled goes over a list or a range and is structural recursion here, so no fuel is used.
--
-- Not modelled: telemetry, what the auth service's handlers return, the gateway, the command
-- line, the web front end and the first version of the orchestrator. The clock, time stamps, the
-- cryptographic library, the delivery of keepalives, the route policy, URL parsing, IP
-- detection, JSON, the signing and reading of tokens and the decisions of Cedar are arguments of
-- the definitions that use them. The queue of the bus runs one dispatch at a time, so a dispatch
-- is a function of the bus's state.
mod Prelude
pub mod Table
pub mod Action
pub mod Rib
pub mod Ports
pub mod Journal
pub mod Recovery
pub mod Bus
pub mod Envoy
pub mod Keys
pub mod Orchestrator
pub mod Views
pub mod Rpc
pub mod Node
pub mod Auth
mod Network
mod Transport
mod Health
mod Queue
mod Samples
pub mod Timers
