-- ===== src/Network/Tests.antt =====
-- Three nodes in a row: the route of the last reaches the first by way of the second.
use catalyst_router.Prelude.{
  ◌<◌, String, false, ◌≡◌, refl, List, [], ◌∷◌, none, Distinct, length, string_key, Memᴰ,
}
use catalyst_router.Table.{PeerRecord, new_route_table}
use catalyst_router.Action.{UpdateItem, add}
use catalyst_router.Samples.{films, node_b, session_b}
use catalyst_router.Rib.Update.{plan_internal_protocol_update, apply_items, add_item, advertised}
use catalyst_router.Bus.Config.{Config}
use catalyst_router.Bus.Propagation.{build_updates, local_item, internal_item}
use catalyst_router.Network.{Journey}
use catalyst_router.Network.Spread.{journey-bounded}

abbrev named_config : String → Config
named_config name = record {
  node_name = name;
  envoy_address = none;
  route_policy = none;
  has_gateway = false;
  has_envoy = false;
  trim = λ s. s;
}

abbrev three_nodes : List String
three_nodes = "node-a" ∷ "node-b" ∷ "node-c" ∷ []

abbrev sent : UpdateItem
sent = local_item (named_config "node-b") add films

-- The peer that the node in the middle tells.
abbrev session_c : PeerRecord
session_c = record session_b { info = record node_b { name = "node-c" } }

abbrev resent : UpdateItem
resent = internal_item (named_config "node-a") add (advertised node_b sent)

abbrev two_hops : Journey three_nodes 1 resent
unfolding plan_internal_protocol_update apply_items add_item build_updates new_route_table
two_hops =
    Journey.relayed 5 (named_config "node-a") (record { peer_info = node_b; updates = sent ∷ [] })
      new_route_table session_c refl (Journey.departs (named_config "node-b") films refl)
      (Memᴰ.head refl) (Memᴰ.head refl) refl ("node-a", refl)

journey-bounded_example :
    (1 < length three_nodes) × Distinct resent.node_path × (length resent.node_path ≡ 2)
journey-bounded_example = journey-bounded three_nodes 1 resent two_hops
