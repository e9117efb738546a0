-- ===== src/Rib/Update.antt =====
-- `planInternalProtocolUpdate` of rib.ts: advertisements and withdrawals from a peer.
use catalyst_router.Prelude.{
  ℕ, String, Bool, true, false, not, ◌&&◌, ◌||◌, List, [], ◌∷◌, ◌++◌, Option, none, some, length,
  filter, find, find_index, set, includes, if◌then◌else◌, ltb, ◌==◌, string_key,
}
use catalyst_router.Table.{
  RouteTable, PeerInfo, PeerRecord, PlanResult, fresh, InternalRoute, route_key, is_true, added,
  removed, updated, internal, RouteChange, PortOperation, release,
}
use catalyst_router.Action.{ProtocolUpdate, UpdateItem, UpdateKind, add, remove}
use catalyst_router.Rib.Plans.{no_change, named}

-- The variables of the loop.
pub record Progress : Type 0 where
  pub routes : List InternalRoute
  pub port_ops : List PortOperation
  pub route_changes : List RouteChange

-- `routeKey(r) === key && r.originNode === item.originNode`
abbrev pub matches : UpdateItem → InternalRoute → Bool
matches item r = route_key r.channel == route_key item.route && r.origin_node == item.origin_node

abbrev pub advertised : PeerInfo → UpdateItem → InternalRoute
advertised peer item = record {
  channel = item.route;
  peer = peer;
  node_path = item.node_path;
  origin_node = item.origin_node;
  is_stale = some false;
}

-- A shorter path, or a stale route, gives way to the advertised one.
abbrev pub gives_way : InternalRoute → UpdateItem → Bool
gives_way existing item =
    ltb (length item.node_path) (length existing.node_path) || is_true existing.is_stale

unfoldable pub add_item : String → PeerInfo → UpdateItem → Progress → Progress
add_item node_id peer item st =
    let route = advertised peer item in
    if includes item.node_path node_id then st else elim (find_index (matches item) st.routes) [
      | some (idx, existing) ↦
          if gives_way existing item
          then record st {
            routes = set st.routes idx route;
            route_changes = st.route_changes ++ updated (internal route) ∷ [];
          }
          else st
      | none ↦ record st {
        routes = st.routes ++ route ∷ [];
        route_changes = st.route_changes ++ added (internal route) ∷ [];
      }
    ]

unfoldable pub remove_item : UpdateItem → Progress → Progress
remove_item item st = elim (find (matches item) st.routes) [
  | none ↦ st
  | some route ↦ record {
    routes = filter (λ r. not (matches item r)) st.routes;
    port_ops = elim route.envoy_port [
      | none ↦ st.port_ops
      | some port ↦ st.port_ops ++ release (route_key item.route) port ∷ []
    ];
    route_changes = st.route_changes ++ removed (internal route) ∷ [];
  }
]

abbrev pub apply_kind : UpdateKind → String → PeerInfo → UpdateItem → Progress → Progress
apply_kind add node_id peer item st = add_item node_id peer item st
apply_kind remove node_id peer item st = remove_item item st

-- One round of the loop.
abbrev pub apply_item : String → PeerInfo → UpdateItem → Progress → Progress
apply_item node_id peer item st = apply_kind item.action node_id peer item st

unfoldable pub apply_items : String → PeerInfo → List UpdateItem → Progress → Progress
apply_items node_id peer [] st = st
apply_items node_id peer (item ∷ items) st =
    apply_items node_id peer items (apply_item node_id peer item st)

abbrev pub start : RouteTable → Progress
start state = record { routes = state.internal_routes; port_ops = []; route_changes = [] }

-- `peers.map(…)` with the index of the sender, if it is known.
abbrev pub touch : ℕ → Option (ℕ × PeerRecord) → List PeerRecord → List PeerRecord
touch clock none peers = peers
touch clock (some (idx, p)) peers = set peers idx (record p { last_received = clock })

abbrev pub is_idle : List RouteChange → Option (ℕ × PeerRecord) → Bool
is_idle [] none = true
is_idle _ _ = false

unfoldable pub plan_internal_protocol_update : ℕ → String → ProtocolUpdate → RouteTable → PlanResult
unfolding apply_items add_item remove_item
plan_internal_protocol_update clock node_id data' state =
    let st = apply_items node_id data'.peer_info data'.updates (start state) in
    let found = find_index (named data'.peer_info.name) state.peers in
    if is_idle st.route_changes found then no_change state else record {
      prev_state = state;
      state =
          fresh
            (record state { peers = touch clock found state.peers; internal_routes = st.routes });
      port_ops = st.port_ops;
      route_changes = st.route_changes;
    }
