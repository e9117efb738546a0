-- ===== src/Views.antt =====
-- packages/routing/src/v2/views.ts: what of the route table the API shows.
mod Tests
use catalyst_router.Prelude.{ℕ, String, Bool, ◌≡◌, refl, ap, ap₂, List, [], ◌∷◌, map, Option, none}
use catalyst_router.Table.{
  DataChannel, PeerInfo, ConnectionStatus, PeerRecord, InternalRoute, RouteTable,
}

-- `Omit<PeerInfo, 'peerToken'>`
pub record SafePeer : Type 0 where
  pub name : String
  pub domains : List String
  pub endpoint : Option String
  pub labels : Option (List (String × String))
  pub envoy_address : Option String

pub record PublicPeer : Type 0 where
  pub safe : SafePeer
  pub connection_status : ConnectionStatus
  pub last_connected : ℕ

pub record PublicInternalRoute : Type 0 where
  pub channel : DataChannel
  pub peer : SafePeer
  pub node_path : List String
  pub origin_node : String

pub record PublicRouteTable : Type 0 where
  pub local_routes : List DataChannel
  pub internal_routes : List PublicInternalRoute
  pub peers : List PublicPeer

abbrev safe_peer : PeerInfo → SafePeer
safe_peer p = record {
  name = p.name;
  domains = p.domains;
  endpoint = p.endpoint;
  labels = p.labels;
  envoy_address = p.envoy_address;
}

-- `PeerView.toPublic`
abbrev pub public_peer : PeerRecord → PublicPeer
public_peer p = record {
  safe = safe_peer p.info;
  connection_status = p.connection_status;
  last_connected = p.last_connected;
}

-- `InternalRouteView.toPublic`
abbrev pub public_route : InternalRoute → PublicInternalRoute
public_route r = record {
  channel = r.channel;
  peer = safe_peer r.peer;
  node_path = r.node_path;
  origin_node = r.origin_node;
}

-- `InternalRouteView.toDataChannel`, which leaves `envoyAddress` out.
abbrev pub view_data_channel : InternalRoute → DataChannel
view_data_channel r = record {
  name = r.name;
  endpoint = r.endpoint;
  protocol = r.protocol;
  region = r.region;
  tags = r.tags;
  envoy_port = r.envoy_port;
  envoy_address = none;
  health_status = r.health_status;
  response_time_ms = r.response_time_ms;
  last_checked = r.last_checked;
}

abbrev table_of : List DataChannel → List PublicInternalRoute → List PublicPeer → PublicRouteTable
table_of locals internals ps = record {
  local_routes = locals;
  internal_routes = internals;
  peers = ps;
}

-- `RouteTableView.toPublic`
unfoldable pub public_table : RouteTable → PublicRouteTable
public_table state =
    table_of state.local_routes (map public_route state.internal_routes)
      (map public_peer state.peers)

-- Other tokens, hold times and clocks, and other stale marks, in a table that is else the same.
module _ (token : PeerInfo → Option String) (number : PeerRecord → ℕ)
    (mark : InternalRoute → Option Bool) where
  abbrev other_info : PeerInfo → PeerInfo
  other_info p = record {
    name = p.name;
    domains = p.domains;
    endpoint = p.endpoint;
    labels = p.labels;
    peer_token = token p;
    envoy_address = p.envoy_address;
  }

  abbrev other_peer : PeerRecord → PeerRecord
  other_peer p = record {
    info = other_info p.info;
    connection_status = p.connection_status;
    last_connected = p.last_connected;
    hold_time = number p;
    last_sent = number p;
    last_received = number p;
  }

  abbrev other_route : InternalRoute → InternalRoute
  other_route r = record {
    channel = r.channel;
    peer = other_info r.peer;
    node_path = r.node_path;
    origin_node = r.origin_node;
    is_stale = mark r;
  }

  abbrev pub other_table : RouteTable → RouteTable
  other_table state = record {
    local_routes = state.local_routes;
    peers = map other_peer state.peers;
    internal_routes = map other_route state.internal_routes;
  }

  same_routes :
      (rs : List InternalRoute) → map public_route (map other_route rs) ≡ map public_route rs
  same_routes [] = refl
  same_routes (r ∷ rs) = ap (λ xs. public_route r ∷ xs) (same_routes rs)

  same_peers : (ps : List PeerRecord) → map public_peer (map other_peer ps) ≡ map public_peer ps
  same_peers [] = refl
  same_peers (p ∷ ps) = ap (λ xs. public_peer p ∷ xs) (same_peers ps)

  -- What the API shows of a table does not depend on the tokens of its peers and of its routes'
  -- peers, on the hold times and the times of sending and receiving, or on the stale marks.
  pub public_table-secret :
      (state : RouteTable) → public_table (other_table state) ≡ public_table state
  unfolding public_table
  public_table-secret state =
      ap₂ (table_of state.local_routes) (same_routes state.internal_routes) (same_peers state.peers)
