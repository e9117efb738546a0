-- ===== src/Bus/Dispatch.antt =====
-- `dispatch` of bus.ts: validation, inbound policy, plan, port allocation, commit and the calls that
-- follow. The queue runs one dispatch at a time, so a dispatch is a function of the bus's state.
use catalyst_router.Prelude.{
  ℕ, String, Bool, true, false, ◌||◌, List, [], ◌∷◌, ◌++◌, Option, none, some, map, filter, find,
  if◌then◌else◌, ◌==◌, string_key,
}
use catalyst_router.Table.{
  DataChannel, Protocol, http_graphql, http_gql, PeerRecord, RouteTable, RouteChange, PlanResult,
  is_connected, close_normal, PortOperation,
}
use catalyst_router.Action.{
  Action, local_peer_create, local_peer_delete, internal_protocol_connected, tick, UpdateItem,
}
use catalyst_router.Rib.Machine.{plan, state_changed}
use catalyst_router.Journal.{RibState, commit}
use catalyst_router.Ports.{Allocator}
use catalyst_router.Bus.Config.{
  Config, Call, send_update, close_peer, update_config, update_routes, Service,
}
use catalyst_router.Bus.Allocation.{plan_port_allocations}
use catalyst_router.Bus.Propagation.{sync_updates, build_updates, apply_inbound_policy}
use catalyst_router.Bus.Keepalive.{handle_keepalives}

pub record Bus : Type 0 where
  pub rib : RibState
  pub port_allocator : Option Allocator
  pub last_keepalive_sent : List (String × ℕ)

pub data StateResult : Type 0 where
  succeeded : RouteTable → Action → StateResult
  peer_token_required rejected_by_policy no_state_change : StateResult

-- What the world gives a dispatch: the clock, the time stamp, and which keepalives get through.
pub record World : Type 0 where
  pub clock : ℕ
  pub stamp : String
  pub delivers : PeerRecord → Bool

-- A call of `sendUpdate`, unless there is nothing to send.
abbrev pub send : PeerRecord → List UpdateItem → List Call
send peer [] = []
send peer (u ∷ us) = send_update peer (u ∷ us) ∷ []

abbrev pub connected_peers : RouteTable → List PeerRecord
connected_peers state = filter (λ p. is_connected p.connection_status) state.peers

-- One update for each connected peer that has something to learn.
unfoldable pub propagate : Config → List RouteChange → List PeerRecord → List Call
propagate c changes [] = []
propagate c changes (p ∷ ps) = send p (build_updates c p changes) ++ propagate c changes ps

abbrev sync_peer : Config → RouteTable → Option PeerRecord → List Call
sync_peer c state none = []
sync_peer c state (some peer) = send peer (sync_updates c peer state)

abbrev close_call : Option PeerRecord → List Call
close_call none = []
close_call (some peer) = close_peer peer close_normal "Peer removed" ∷ []

abbrev pub fan_out : Config → PlanResult → RouteTable → List Call
fan_out c p state = propagate c p.route_changes (connected_peers state)

-- `handleBGPNotify`
unfoldable pub notify_peers : Config → Action → PlanResult → RouteTable → List Call
unfolding propagate
notify_peers c (internal_protocol_connected info) p state =
    sync_peer c state (find (λ q. q.name == info.name) (connected_peers state))
notify_peers c (local_peer_delete d) p state =
    close_call (find (λ q. q.name == d.name) p.prev_state.peers) ++ fan_out c p state
notify_peers c action p state = fan_out c p state

abbrev is_graphql : Protocol → Bool
is_graphql http_graphql = true
is_graphql http_gql = true
is_graphql _ = false

abbrev to_service : DataChannel → Service
to_service r = record { name = r.name; url = r.endpoint }

abbrev config_call : List DataChannel → List Call
config_call [] = []
config_call (r ∷ rs) = update_config (map to_service (r ∷ rs)) ∷ []

-- `handleGraphqlGatewaySync`
unfoldable pub gateway_sync : Config → RouteTable → List Call
gateway_sync c state =
    if c.has_gateway
    then config_call (
        filter (λ r. is_graphql r.protocol)
          (state.local_routes ++ map (λ r. r.channel) state.internal_routes))
    else []

abbrev allocations_of : Option Allocator → Option (List (String × ℕ))
allocations_of none = none
allocations_of (some a) = some a.allocations

-- `handleEnvoySync`
unfoldable pub envoy_sync : Config → Option Allocator → RouteTable → List Call
envoy_sync c a state =
    if c.has_envoy
    then update_routes state.local_routes state.internal_routes (allocations_of a) ∷ []
    else []

abbrev pub has_changes : List RouteChange → Bool
has_changes [] = false
has_changes (c ∷ cs) = true

abbrev has_ops : List PortOperation → Bool
has_ops [] = false
has_ops (o ∷ os) = true

-- The keepalives of a Tick, with the new times.
abbrev pub tick_keepalives :
    World → Action → RouteTable → List (String × ℕ) → List Call × List (String × ℕ)
tick_keepalives w (tick now) state last_sent = handle_keepalives w.delivers state now last_sent
tick_keepalives w _ state last_sent = ([], last_sent)

-- The calls of `handlePostCommit`, but for the keepalives.
unfoldable pub post_commit :
    Config → Action → PlanResult → RouteTable → Option Allocator → List Call
unfolding notify_peers gateway_sync envoy_sync
post_commit c action p state a =
    notify_peers c action p state
    ++ (if has_changes p.route_changes then gateway_sync c state else [])
    ++ (if has_changes p.route_changes || has_ops p.port_ops then envoy_sync c a state else [])

abbrev is_empty_text : String → Bool
is_empty_text s = s == ""

abbrev missing_token : Config → Option String → Bool
missing_token c none = true
missing_token c (some token) = is_empty_text (c.trim token)

-- Step 1: a peer is created with a token only.
abbrev pub is_refused : Config → Action → Bool
is_refused c (local_peer_create info) = missing_token c info.peer_token
is_refused c _ = false

abbrev pub Outcome : Type 0
Outcome = Bus × StateResult × List Call

-- No state change: a Tick still sends its keepalives.
unfoldable pub unchanged : World → Action → Bus → Outcome
unchanged w action bus =
    let sent = tick_keepalives w action bus.rib.table bus.last_keepalive_sent in
    (record bus { last_keepalive_sent = sent.1 }, no_state_change, sent.0)

-- Steps 3 to 5.
unfoldable pub complete : Config → World → Action → PlanResult → Bus → Outcome
unfolding post_commit
complete c w action rib_plan bus =
    let allocated = plan_port_allocations rib_plan bus.port_allocator in
    let rib = commit bus.rib allocated.0 action c.node_name w.stamp in
    let sent = tick_keepalives w action rib.table bus.last_keepalive_sent in
    (
      record { rib = rib; port_allocator = allocated.1; last_keepalive_sent = sent.1 },
      succeeded rib.table action,
      post_commit c action allocated.0 rib.table allocated.1 ++ sent.0,
    )

abbrev pub planned : Config → World → Action → Option Action → Bus → Outcome
planned c w action none bus = (bus, rejected_by_policy, [])
planned c w action (some filtered) bus =
    let rib_plan = plan w.clock c.node_name filtered bus.rib.table in
    if state_changed rib_plan then complete c w action rib_plan bus else unchanged w action bus

unfoldable pub dispatch : Config → World → Action → Bus → Outcome
unfolding unchanged complete
dispatch c w action bus =
    if is_refused c action
    then (bus, peer_token_required, [])
    else planned c w action (apply_inbound_policy c bus.rib.table action) bus
