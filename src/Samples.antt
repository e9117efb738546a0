-- ===== src/Samples.antt =====
-- Inputs that the witnesses of several modules share: two nodes, one route, one pool.
use catalyst_router.Prelude.{ℕ, List, [], ◌∷◌, none, some}
use catalyst_router.Table.{
  DataChannel, http_graphql, PeerInfo, PeerRecord, connected, InternalRoute, RouteTable,
}
use catalyst_router.Action.{
  Action, UpdateItem, add, local_peer_create, local_route_create, internal_protocol_open,
  internal_protocol_update,
}
use catalyst_router.Ports.{PortEntry, range}

abbrev pub books : DataChannel
books = record {
  name = "books";
  endpoint = some "http://books:8080/graphql";
  protocol = http_graphql;
  region = none;
  tags = none;
  envoy_port = none;
  envoy_address = none;
  health_status = none;
  response_time_ms = none;
  last_checked = none;
}

-- The same service at the other node, behind its proxy.
abbrev pub films : DataChannel
films = record {
  name = "films";
  endpoint = none;
  protocol = http_graphql;
  region = none;
  tags = none;
  envoy_port = some 10000;
  envoy_address = none;
  health_status = none;
  response_time_ms = none;
  last_checked = none;
}

abbrev pub node_b : PeerInfo
node_b = record {
  name = "node-b";
  domains = "example.org" ∷ [];
  endpoint = some "ws://node-b:3000";
  labels = none;
  peer_token = some "token";
  envoy_address = some "10.0.0.2";
}

abbrev pub session_b : PeerRecord
session_b = record {
  info = node_b;
  connection_status = connected;
  last_connected = 1;
  hold_time = 90000;
  last_sent = 0;
  last_received = 1;
}

abbrev pub advert : UpdateItem
advert = record { action = add; route = films; node_path = "node-b" ∷ []; origin_node = "node-b" }

abbrev pub learned_films : InternalRoute
learned_films = record {
  channel = films;
  peer = node_b;
  node_path = "node-b" ∷ [];
  origin_node = "node-b";
  is_stale = none;
}

abbrev pub linked : RouteTable
linked = record {
  local_routes = books ∷ [];
  peers = session_b ∷ [];
  internal_routes = learned_films ∷ [];
}

-- A peer is configured, connects and advertises a route.
abbrev pub meeting : List (ℕ × Action)
meeting =
    (1, local_peer_create node_b)
    ∷ (2, local_route_create books)
    ∷ (3, internal_protocol_open (record { peer_info = node_b; hold_time = some 60000 }))
    ∷ (4, internal_protocol_update (record { peer_info = node_b; updates = advert ∷ [] }))
    ∷ []

abbrev pub two_ports : List PortEntry
two_ports = range 10000 10001 ∷ []
