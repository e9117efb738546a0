-- ===== src/Rib/Session.antt =====
-- The handlers of rib.ts for the session with a peer: open, connected, close and keepalive.
use catalyst_router.Prelude.{
  ℕ, String, true, not, List, [], map, Option, none, some, filter, find_index, set, if◌then◌else◌,
  nat_beq, min,
}
use catalyst_router.Table.{
  RouteTable, PeerInfo, PlanResult, fresh, connected, closed, InternalRoute, updated, internal,
  RouteChange, close_transport_error,
}
use catalyst_router.Action.{ProtocolOpen, ProtocolClose}
use catalyst_router.Rib.Plans.{no_change, with_peers, named, from_peer, releases, removals}
use catalyst_router.Rib.Local.{default_hold_time}

-- The hold time that both sides accept.
abbrev pub negotiate : ℕ → Option ℕ → ℕ
negotiate own none = own
negotiate own (some offered) = min own offered

unfoldable pub plan_internal_protocol_open : ℕ → ProtocolOpen → RouteTable → PlanResult
plan_internal_protocol_open clock data' state =
    elim (find_index (named data'.peer_info.name) state.peers) [
      | none ↦ no_change state
      | some (idx, existing) ↦ with_peers state (
          set state.peers idx (record existing {
            connection_status = connected;
            hold_time = negotiate existing.hold_time data'.hold_time;
            last_received = clock;
          }))
    ]

unfoldable pub plan_internal_protocol_connected : ℕ → PeerInfo → RouteTable → PlanResult
plan_internal_protocol_connected clock peer_info state =
    elim (find_index (named peer_info.name) state.peers) [
      | none ↦ no_change state
      | some (idx, existing) ↦ with_peers state (
          set state.peers idx (record existing {
            connection_status = connected;
            last_connected = clock;
            last_received = clock;
            hold_time = default_hold_time;
            last_sent = 0;
          }))
    ]

abbrev pub stale : InternalRoute → InternalRoute
stale r = record r { is_stale = some true }

abbrev pub stale_from : String → InternalRoute → InternalRoute
stale_from name r = if from_peer name r then stale r else r

abbrev pub stale_changes : List InternalRoute → List RouteChange
stale_changes rs = map (λ r. updated (internal (stale r))) rs

unfoldable pub plan_internal_protocol_close : ProtocolClose → RouteTable → PlanResult
plan_internal_protocol_close data' state =
    let name = data'.peer_info.name in
    let routes = state.internal_routes in
    let peer_routes = filter (from_peer name) routes in
    elim (find_index (named name) state.peers) [
      | none ↦ no_change state
      | some (idx, existing) ↦
          let peers = set state.peers idx (record existing { connection_status = closed }) in
          if nat_beq data'.code close_transport_error
          then record {
            prev_state = state;
            state =
                fresh
                  (record state { peers = peers; internal_routes = map (stale_from name) routes });
            port_ops = [];
            route_changes = stale_changes peer_routes;
          }
          else record {
            prev_state = state;
            state = fresh (record state {
              peers = peers;
              internal_routes = filter (λ r. not (from_peer name r)) routes;
            });
            port_ops = releases peer_routes;
            route_changes = removals peer_routes;
          }
    ]

unfoldable pub plan_internal_protocol_keepalive : ℕ → PeerInfo → RouteTable → PlanResult
plan_internal_protocol_keepalive clock peer_info state =
    elim (find_index (named peer_info.name) state.peers) [
      | none ↦ no_change state
      | some (idx, existing) ↦
          with_peers state (set state.peers idx (record existing { last_received = clock }))
    ]
