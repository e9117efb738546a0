-- ===== src/Rib/Local.antt =====
-- The handlers of rib.ts for local peers and local routes.
use catalyst_router.Prelude.{
  ℕ, String, Bool, true, false, not, ◌&&◌, [], ◌∷◌, ◌++◌, Option, none, some, or_else, length, any,
  filter, find, find_index, set, if◌then◌else◌, ◌==◌, string_key, nat_beq,
}
use catalyst_router.Table.{
  RouteTable, PeerInfo, PeerRecord, PlanResult, initializing, fresh, DataChannel, HealthStatus, up,
  down, added, removed, updated, local,
}
use catalyst_router.Action.{PeerDelete, HealthUpdate}
use catalyst_router.Rib.Plans.{
  no_change, with_peers, named, from_peer, port_release, releases, removals,
}

-- The default `holdTime`.
abbrev pub default_hold_time : ℕ
default_hold_time = 90000

abbrev pub new_peer : PeerInfo → PeerRecord
new_peer info = record {
  info = info;
  connection_status = initializing;
  last_connected = 0;
  hold_time = default_hold_time;
  last_sent = 0;
  last_received = 0;
}

unfoldable pub plan_local_peer_create : PeerInfo → RouteTable → PlanResult
plan_local_peer_create data' state =
    if any (named data'.name) state.peers
    then no_change state
    else with_peers state (state.peers ++ new_peer data' ∷ [])

-- `{ ...existing, ...data }`: a field that is absent in `data` keeps its value.
abbrev pub merge_info : PeerInfo → PeerInfo → PeerInfo
merge_info existing data' = record {
  name = data'.name;
  domains = data'.domains;
  endpoint = or_else data'.endpoint existing.endpoint;
  labels = or_else data'.labels existing.labels;
  peer_token = or_else data'.peer_token existing.peer_token;
  envoy_address = or_else data'.envoy_address existing.envoy_address;
}

unfoldable pub plan_local_peer_update : PeerInfo → RouteTable → PlanResult
plan_local_peer_update data' state = elim (find_index (named data'.name) state.peers) [
  | none ↦ no_change state
  | some (idx, existing) ↦
      with_peers state
        (set state.peers idx (record existing { info = merge_info existing.info data' }))
]

unfoldable pub plan_local_peer_delete : PeerDelete → RouteTable → PlanResult
plan_local_peer_delete data' state =
    let peers = filter (λ p. not (named data'.name p)) state.peers in
    let gone = filter (from_peer data'.name) state.internal_routes in
    if nat_beq (length peers) (length state.peers) then no_change state else record {
      prev_state = state;
      state = fresh (record state {
        peers = peers;
        internal_routes = filter (λ r. not (from_peer data'.name r)) state.internal_routes;
      });
      port_ops = releases gone;
      route_changes = removals gone;
    }

abbrev pub channel_named : String → DataChannel → Bool
channel_named name r = r.name == name

unfoldable pub plan_local_route_create : DataChannel → RouteTable → PlanResult
plan_local_route_create data' state =
    if any (channel_named data'.name) state.local_routes then no_change state else record {
      prev_state = state;
      state = fresh (record state { local_routes = state.local_routes ++ data' ∷ [] });
      port_ops = [];
      route_changes = added (local data') ∷ [];
    }

unfoldable pub plan_local_route_delete : DataChannel → RouteTable → PlanResult
plan_local_route_delete data' state = elim (find (channel_named data'.name) state.local_routes) [
  | none ↦ no_change state
  | some route ↦ record {
    prev_state = state;
    state = fresh (record state {
      local_routes = filter (λ r. not (channel_named data'.name r)) state.local_routes;
    });
    port_ops = port_release route [];
    route_changes = removed (local route) ∷ [];
  }
]

abbrev pub same_health : HealthStatus → HealthStatus → Bool
same_health up up = true
same_health down down = true
same_health _ _ = false

abbrev pub same_time : Option ℕ → Option ℕ → Bool
same_time none none = true
same_time (some a) (some b) = nat_beq a b
same_time _ _ = false

-- `existing === data` where only `existing` may be undefined.
abbrev pub opt_eq : {A : Type 0} → (A → A → Bool) → Option A → A → Bool
opt_eq eq none b = false
opt_eq eq (some a) b = eq a b

abbrev pub health_unchanged : DataChannel → HealthUpdate → Bool
health_unchanged existing data' =
    opt_eq same_health existing.health_status data'.health_status
    && opt_eq same_time existing.response_time_ms data'.response_time_ms
    && opt_eq (λ a b. a == b) existing.last_checked data'.last_checked

abbrev pub with_health : DataChannel → HealthUpdate → DataChannel
with_health existing data' = record existing {
  health_status = some data'.health_status;
  response_time_ms = some data'.response_time_ms;
  last_checked = some data'.last_checked;
}

unfoldable pub plan_local_route_health_update : HealthUpdate → RouteTable → PlanResult
plan_local_route_health_update data' state =
    elim (find_index (channel_named data'.name) state.local_routes) [
      | none ↦ no_change state
      | some (idx, existing) ↦ if health_unchanged existing data' then no_change state else record {
        prev_state = state;
        state = fresh (record state {
          local_routes = set state.local_routes idx (with_health existing data');
        });
        port_ops = [];
        route_changes = updated (local (with_health existing data')) ∷ [];
      }
    ]
