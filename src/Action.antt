-- ===== src/Action.antt =====
-- packages/routing/src/v2/action-types.ts, schema.ts and the actions.ts of local/, internal/ and
-- system/: the messages that drive the route table, as their schemas leave them. Times, hold times
-- and close codes are natural numbers.
use catalyst_router.Prelude.{ℕ, String, List, Option}
use catalyst_router.Table.{DataChannel, PeerInfo, HealthStatus}

-- A name, and any other field of a `PeerInfo`.
pub record PeerDelete : Type 0 where
  pub name : String
  pub domains : Option (List String)
  pub endpoint : Option String
  pub labels : Option (List (String × String))
  pub peer_token : Option String
  pub envoy_address : Option String

pub record HealthUpdate : Type 0 where
  pub name : String
  pub health_status : HealthStatus
  pub response_time_ms : Option ℕ
  pub last_checked : String

pub data UpdateKind : Type 0 where
  add remove : UpdateKind

-- One entry of `UpdateMessageSchema`.
pub record UpdateItem : Type 0 where
  pub action : UpdateKind
  pub route : DataChannel
  pub node_path : List String
  pub origin_node : String

pub record ProtocolOpen : Type 0 where
  pub peer_info : PeerInfo
  pub hold_time : Option ℕ

pub record ProtocolUpdate : Type 0 where
  pub peer_info : PeerInfo
  pub updates : List UpdateItem

pub record ProtocolClose : Type 0 where
  pub peer_info : PeerInfo
  pub code : ℕ
  pub reason : Option String

pub data Action : Type 0 where
  local_peer_create : PeerInfo → Action
  local_peer_update : PeerInfo → Action
  local_peer_delete : PeerDelete → Action
  local_route_create : DataChannel → Action
  local_route_delete : DataChannel → Action
  local_route_health_update : HealthUpdate → Action
  internal_protocol_open : ProtocolOpen → Action
  internal_protocol_connected : PeerInfo → Action
  internal_protocol_close : ProtocolClose → Action
  internal_protocol_update : ProtocolUpdate → Action
  internal_protocol_keepalive : PeerInfo → Action
  tick : (now : ℕ) → Action

-- `Actions` of action-types.ts: the text that tells the kind of an action.
abbrev pub action_type : Action → String
action_type (local_peer_create d) = "local:peer:create"
action_type (local_peer_update d) = "local:peer:update"
action_type (local_peer_delete d) = "local:peer:delete"
action_type (local_route_create d) = "local:route:create"
action_type (local_route_delete d) = "local:route:delete"
action_type (local_route_health_update d) = "local:route:health-update"
action_type (internal_protocol_open d) = "internal:protocol:open"
action_type (internal_protocol_close d) = "internal:protocol:close"
action_type (internal_protocol_connected d) = "internal:protocol:connected"
action_type (internal_protocol_update d) = "internal:protocol:update"
action_type (internal_protocol_keepalive d) = "internal:protocol:keepalive"
action_type (tick now) = "system:tick"
