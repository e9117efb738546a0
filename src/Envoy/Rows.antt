-- ===== src/Envoy/Rows.antt =====
-- A snapshot as its reader sees it, and the rows that the routes of the input ask for.
use catalyst_router.Prelude.{
  ℕ, String, Bool, ◌&&◌, List, [], ◌∷◌, ◌++◌, map, Option, none, some, is_some, filter,
}
use catalyst_router.Table.{DataChannel, InternalRoute}
use catalyst_router.Ports.{map_get}
use catalyst_router.Envoy.Resources.{
  Platform, SocketAddress, Listener, http_listener, tcp_listener, is_tcp_proxy_listener,
  ConnectionManager, ingress_name, egress_name, local_name, remote_name, is_tcp_protocol,
}
use catalyst_router.Envoy.Snapshot.{SnapshotInput, given_port, given_text}

abbrev pub concat_map : {A B : Type 0} → (A → List B) → List A → List B
concat_map f [] = []
concat_map f (x ∷ xs) = f x ++ concat_map f xs

-- All clusters to which a listener sends.
abbrev pub http_targets : ConnectionManager → List String
http_targets c = concat_map (λ h. map (λ m. m.route.cluster) h.host_routes) c.virtual_hosts

abbrev pub targets : Listener → List String
targets (http_listener l) =
    concat_map (concat_map (λ f. http_targets f.typed_config)) l.filter_chains
targets (tcp_listener l) = concat_map (map (λ f. f.typed_config.cluster)) l.filter_chains

abbrev pub listener_name : Listener → String
listener_name (http_listener l) = l.name
listener_name (tcp_listener l) = l.name

abbrev pub listener_address : Listener → SocketAddress
listener_address (http_listener l) = l.socket_address
listener_address (tcp_listener l) = l.socket_address

-- A listener as the reader of a snapshot sees it.
pub record Row : Type 0 where
  pub row_name : String
  pub row_address : SocketAddress
  pub row_targets : List String
  pub row_is_tcp : Bool

abbrev pub row : Listener → Row
row l = record {
  row_name = listener_name l;
  row_address = listener_address l;
  row_targets = targets l;
  row_is_tcp = is_tcp_proxy_listener l;
}

abbrev pub port_or_zero : Option ℕ → ℕ
port_or_zero none = 0
port_or_zero (some p) = p

module _ (env : Platform) (input : SnapshotInput) where
  -- An endpoint, and a port of its own.
  abbrev pub serves_local : DataChannel → Bool
  serves_local r =
      is_some (given_text r.endpoint)
      && is_some (given_port (map_get input.port_allocations r.name))

  abbrev pub egress_port : InternalRoute → Option ℕ
  egress_port r = map_get input.port_allocations (egress_name r.name r.peer.name)

  -- A port at the peer, the peer's address, and an egress port.
  abbrev pub serves_internal : InternalRoute → Bool
  serves_internal r =
      is_some (given_port r.envoy_port)
      && (is_some (given_text r.peer.envoy_address) && is_some (given_port (egress_port r)))

  abbrev pub local_row : DataChannel → Row
  local_row r = record {
    row_name = ingress_name r.name;
    row_address = record {
      address = input.bind_address;
      port_value = port_or_zero (map_get input.port_allocations r.name);
    };
    row_targets = local_name r.name ∷ [];
    row_is_tcp = is_tcp_protocol r.protocol;
  }

  abbrev pub internal_row : InternalRoute → Row
  internal_row r = record {
    row_name = egress_name r.name r.peer.name;
    row_address = record {
      address = input.bind_address;
      port_value = port_or_zero (egress_port r);
    };
    row_targets = remote_name r.name r.peer.name ∷ [];
    row_is_tcp = is_tcp_protocol r.protocol;
  }

  abbrev pub expected : List Row
  expected =
      map local_row (filter serves_local input.locals)
      ++ map internal_row (filter serves_internal input.internals)
