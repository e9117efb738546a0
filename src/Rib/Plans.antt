-- ===== src/Rib/Plans.antt =====
-- What the handlers of rib.ts share: the empty plan, port releases and the removal of routes.
use catalyst_router.Prelude.{String, Bool, List, [], ◌∷◌, map, none, some, ◌==◌, string_key}
use catalyst_router.Table.{
  RouteTable, PeerRecord, PlanResult, same, fresh, InternalRoute, DataChannel, PortOperation,
  release, route_key, RouteChange, removed, internal,
}

-- `noChange(state)`
abbrev pub no_change : RouteTable → PlanResult
no_change state = record { prev_state = state; state = same; port_ops = []; route_changes = [] }

-- A plan that only writes the peers.
abbrev pub with_peers : RouteTable → List PeerRecord → PlanResult
with_peers state peers = record {
  prev_state = state;
  state = fresh (record state { peers = peers });
  port_ops = [];
  route_changes = [];
}

-- `p.name === name`, and the same of a route's peer.
abbrev pub named : String → PeerRecord → Bool
named name p = p.name == name

abbrev pub from_peer : String → InternalRoute → Bool
from_peer name r = r.peer.name == name

-- The release of a route's port, if it has one.
abbrev pub port_release : DataChannel → List PortOperation → List PortOperation
port_release route ops = elim route.envoy_port [
  | none ↦ ops
  | some port ↦ release (route_key route) port ∷ ops
]

-- `routes.filter((r) => r.envoyPort != null).map(release)`
abbrev pub releases : List InternalRoute → List PortOperation
releases [] = []
releases (r ∷ rs) = port_release r.channel (releases rs)

abbrev pub removals : List InternalRoute → List RouteChange
removals rs = map (λ r. removed (internal r)) rs
