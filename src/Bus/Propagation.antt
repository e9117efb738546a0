-- ===== src/Bus/Propagation.antt =====
-- What peers are told: the full table when a session starts (`syncRoutesToPeer`), the changes of a
-- plan afterwards (`buildUpdatesForPeer`), and the inbound policy.
use catalyst_router.Prelude.{
  Bool, true, false, not, ◌||◌, List, [], ◌∷◌, ◌++◌, Option, none, some, map, filter, includes,
  if◌then◌else◌, ◌==◌, string_key, find,
}
use catalyst_router.Table.{
  DataChannel, InternalRoute, PeerRecord, Route, local, internal, RouteChange, added, removed,
  updated, RouteTable, is_true,
}
use catalyst_router.Action.{
  UpdateItem, UpdateKind, add, remove, Action, internal_protocol_update, ProtocolUpdate,
}
use catalyst_router.Bus.Config.{Config, RoutePolicy, to_data_channel}

-- An advertisement of a local route.
abbrev pub local_item : Config → UpdateKind → DataChannel → UpdateItem
local_item c kind r = record {
  action = kind;
  route = to_data_channel c.envoy_address r;
  node_path = c.node_name ∷ [];
  origin_node = c.node_name;
}

-- One of an internal route: this node goes in front of its path.
abbrev pub internal_item : Config → UpdateKind → InternalRoute → UpdateItem
internal_item c kind r = record {
  action = kind;
  route = to_data_channel c.envoy_address r.channel;
  node_path = c.node_name ∷ r.node_path;
  origin_node = r.origin_node;
}

abbrev is_nil : List InternalRoute → Bool
is_nil [] = true
is_nil (r ∷ rs) = false

-- `canSend(peer, [route])` lets the route through, or there is no policy.
abbrev pub may_send : Option RoutePolicy → PeerRecord → InternalRoute → Bool
may_send none peer r = true
may_send (some policy) peer r = not (is_nil (policy.can_send peer (r ∷ [])))

-- The route came from the peer, or through it.
abbrev pub reflects : PeerRecord → InternalRoute → Bool
reflects peer r = r.peer.name == peer.name || includes r.node_path peer.name

unfoldable pub sync_internal : Config → PeerRecord → List InternalRoute → List UpdateItem
sync_internal c peer [] = []
sync_internal c peer (r ∷ rs) =
    let rest = sync_internal c peer rs in
    if is_true r.is_stale
    then rest
    else (if reflects peer r
        then rest
        else (if may_send c.route_policy peer r then internal_item c add r ∷ rest else rest))

-- The updates of `syncRoutesToPeer`.
unfoldable pub sync_updates : Config → PeerRecord → RouteTable → List UpdateItem
unfolding sync_internal
sync_updates c peer state =
    map (local_item c add) state.local_routes ++ sync_internal c peer state.internal_routes

abbrev pub kind_of : RouteChange → UpdateKind
kind_of (added r) = add
kind_of (removed r) = remove
kind_of (updated r) = add

abbrev pub change_route : RouteChange → Route
change_route (added r) = r
change_route (removed r) = r
change_route (updated r) = r

abbrev pub is_removed : RouteChange → Bool
is_removed (removed r) = true
is_removed _ = false

-- The update for one change, in front of those for the rest.
abbrev pub update_for :
    Config → PeerRecord → RouteChange → Route → List UpdateItem → List UpdateItem
update_for c peer change (local r) rest = local_item c (kind_of change) r ∷ rest
update_for c peer change (internal r) rest =
    if reflects peer r
    then rest
    else (if is_removed change || may_send c.route_policy peer r
        then internal_item c (kind_of change) r ∷ rest
        else rest)

unfoldable pub build_updates : Config → PeerRecord → List RouteChange → List UpdateItem
build_updates c peer [] = []
build_updates c peer (change ∷ changes) =
    update_for c peer change (change_route change) (build_updates c peer changes)

-- The message with the updates that are left, unless none is.
abbrev pub remaining : ProtocolUpdate → List UpdateItem → Option Action
remaining d [] = none
remaining d (u ∷ us) = some (internal_protocol_update (record d { updates = u ∷ us }))

-- `applyInboundPolicy`, for the updates of a message from a peer.
abbrev pub filter_updates : RoutePolicy → PeerRecord → ProtocolUpdate → Option Action
filter_updates policy peer d =
    let allowed = map (λ r. r.name) (policy.can_receive peer (map (λ u. u.route) d.updates)) in
    remaining d (filter (λ u. includes allowed u.route.name) d.updates)

abbrev pub with_policy : Option RoutePolicy → Option PeerRecord → ProtocolUpdate → Option Action
with_policy none peer d = some (internal_protocol_update d)
with_policy (some policy) none d = some (internal_protocol_update d)
with_policy (some policy) (some peer) d = filter_updates policy peer d

unfoldable pub apply_inbound_policy : Config → RouteTable → Action → Option Action
apply_inbound_policy c state (internal_protocol_update d) =
    with_policy c.route_policy (find (λ p. p.name == d.peer_info.name) state.peers) d
apply_inbound_policy c state action = some action
