-- ===== src/Bus/Config.antt =====
-- The configuration of the bus, its outgoing calls, and `BusTransforms`. A call that fails is
-- swallowed by the bus, so the calls that it makes are a list, in the order in which they start.
use catalyst_router.Prelude.{ℕ, String, Bool, List, Option, or_else}
use catalyst_router.Table.{DataChannel, InternalRoute, PeerRecord, Route, local, internal}
use catalyst_router.Action.{UpdateItem}

-- `RoutePolicy` of packages/routing/src/v2/route-policy.ts.
pub record RoutePolicy : Type 0 where
  pub can_send : PeerRecord → List InternalRoute → List InternalRoute
  pub can_receive : PeerRecord → List DataChannel → List DataChannel

-- `ConfigurableRoutePolicy`, which lets everything pass.
abbrev pub configurable_route_policy : RoutePolicy
configurable_route_policy = record {
  can_send = λ peer routes. routes;
  can_receive = λ peer routes. routes;
}

-- What the bus reads of its options; `trim` is that of JavaScript's strings.
pub record Config : Type 0 where
  pub node_name : String
  pub envoy_address : Option String
  pub route_policy : Option RoutePolicy
  pub has_gateway : Bool
  pub has_envoy : Bool
  pub trim : String → String

-- A service of the gateway; an endpoint that is undefined is passed on as it is.
pub record Service : Type 0 where
  pub name : String
  pub url : Option String

pub data Call : Type 0 where
  send_update : PeerRecord → List UpdateItem → Call
  send_keepalive : PeerRecord → Call
  close_peer : PeerRecord → (code : ℕ) → (reason : String) → Call
  update_config : List Service → Call
  update_routes :
      (locals : List DataChannel)
      → (internals : List InternalRoute) → Option (List (String × ℕ))
      → Call

abbrev pub route_channel : Route → DataChannel
route_channel (local r) = r
route_channel (internal r) = r.channel

-- `BusTransforms.toDataChannel`
abbrev pub to_data_channel : Option String → DataChannel → DataChannel
to_data_channel envoy_address route = record {
  name = route.name;
  endpoint = route.endpoint;
  protocol = route.protocol;
  region = route.region;
  tags = route.tags;
  envoy_port = route.envoy_port;
  envoy_address = or_else envoy_address route.envoy_address;
  health_status = route.health_status;
  response_time_ms = route.response_time_ms;
  last_checked = route.last_checked;
}
