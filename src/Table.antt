-- ===== src/Table.antt =====
-- packages/routing/src/v2/state.ts, datachannel.ts, port-operation.ts and close-codes.ts: the route
-- table and what a plan says of it. An optional field is an `Option`: a key that is absent and one
-- that is explicitly undefined are one value.
use catalyst_router.Prelude.{ℕ, String, Bool, true, false, List, [], Option, none, some}

pub data Protocol : Type 0 where
  http http_graphql http_gql http_grpc tcp : Protocol

pub data HealthStatus : Type 0 where
  up down : HealthStatus

-- `response_time_ms` is `number | null`, and optional.
pub record DataChannel : Type 0 where
  pub name : String
  pub endpoint : Option String
  pub protocol : Protocol
  pub region : Option String
  pub tags : Option (List String)
  pub envoy_port : Option ℕ
  pub envoy_address : Option String
  pub health_status : Option HealthStatus
  pub response_time_ms : Option (Option ℕ)
  pub last_checked : Option String

pub record PeerInfo : Type 0 where
  pub name : String
  pub domains : List String
  pub endpoint : Option String
  pub labels : Option (List (String × String))
  pub peer_token : Option String
  pub envoy_address : Option String

pub data ConnectionStatus : Type 0 where
  initializing connected closed : ConnectionStatus

-- A `PeerInfo` with the fields that protocol events manage.
pub record PeerRecord : Type 0 where
  pub info : PeerInfo
  pub open info use *
  pub connection_status : ConnectionStatus
  pub last_connected : ℕ
  pub hold_time : ℕ
  pub last_sent : ℕ
  pub last_received : ℕ

pub record InternalRoute : Type 0 where
  pub channel : DataChannel
  pub open channel use *
  pub peer : PeerInfo
  pub node_path : List String
  pub origin_node : String
  pub is_stale : Option Bool

pub record RouteTable : Type 0 where
  pub local_routes : List DataChannel
  pub peers : List PeerRecord
  pub internal_routes : List InternalRoute

unfoldable pub new_route_table : RouteTable
new_route_table = record { local_routes = []; peers = []; internal_routes = [] }

-- `routeKey(route)`
abbrev pub route_key : DataChannel → String
route_key route = route.name

-- `x === true` on an optional Boolean
abbrev pub is_true : Option Bool → Bool
is_true none = false
is_true (some b) = b

abbrev pub is_connected : ConnectionStatus → Bool
is_connected connected = true
is_connected _ = false

abbrev pub is_closed : ConnectionStatus → Bool
is_closed closed = true
is_closed _ = false

pub data PortOperation : Type 0 where
  allocate release : (route_key : String) → (port : ℕ) → PortOperation

-- `DataChannelDefinition | InternalRoute`
pub data Route : Type 0 where
  local : DataChannel → Route
  internal : InternalRoute → Route

pub data RouteChange : Type 0 where
  added removed updated : Route → RouteChange

-- The state of a plan: the same object as `prevState`, or a new one.
pub data NewState : Type 0 where
  same : NewState
  fresh : RouteTable → NewState

pub record PlanResult : Type 0 where
  pub prev_state : RouteTable
  pub state : NewState
  pub port_ops : List PortOperation
  pub route_changes : List RouteChange

-- `plan.newState`
abbrev state_of : RouteTable → NewState → RouteTable
state_of prev same = prev
state_of prev (fresh s) = s

abbrev pub new_state : PlanResult → RouteTable
new_state p = state_of p.prev_state p.state

-- `CloseCodes`
abbrev pub close_normal : ℕ
close_normal = 1

abbrev pub close_hold_expired : ℕ
close_hold_expired = 2

abbrev pub close_transport_error : ℕ
close_transport_error = 3

abbrev pub close_admin_shutdown : ℕ
close_admin_shutdown = 4

abbrev pub close_protocol_error : ℕ
close_protocol_error = 5
