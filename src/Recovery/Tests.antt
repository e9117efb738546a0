-- ===== src/Recovery/Tests.antt =====
-- Recovery after a concrete history, and behind a concrete policy.
use catalyst_router.Prelude.{
  map, true, false, false, ◌≡◌, refl, ◌==◌, List, [], ◌∷◌, none, some, lookup, filter, string_key,
  pair_key,
}
use catalyst_router.Table.{new_route_table}
use catalyst_router.Samples.{node_b, books, advert}
use catalyst_router.Action.{
  tick, internal_protocol_connected, local_peer_create, local_route_create, UpdateItem,
  ProtocolUpdate, internal_protocol_update,
}
use catalyst_router.Journal.Laws.{IsOrdered, append-IsOrdered, empty_log-IsOrdered}
use catalyst_router.Rib.Session.{plan_internal_protocol_connected}
use catalyst_router.Rib.Expiry.{plan_tick}
use catalyst_router.Rib.Update.{advertised, plan_internal_protocol_update, apply_items, add_item}
use catalyst_router.Rib.Invariant.{route_id}
use catalyst_router.Bus.Config.{Config, RoutePolicy}
use catalyst_router.Bus.Dispatch.{Bus, World, dispatch, complete}
use catalyst_router.Recovery.{recover, replay_entries}
use catalyst_router.Recovery.History.{lived, retimed}
use catalyst_router.Rib.Local.{plan_local_peer_create, new_peer}
use catalyst_router.Rib.Machine.{plan}
use catalyst_router.Bus.Allocation.{plan_port_allocations}
use catalyst_router.Bus.Propagation.{apply_inbound_policy}
use catalyst_router.Recovery.Service.{
  Event, dispatched, compacts, restarts, history, new_node, step, new_past, remembered, log_of,
  recover-history,
}
use catalyst_router.Recovery.Divergence.{policy-bypassed}
use catalyst_router.Journal.{empty_log, append, commit, replay}

abbrev plain : Config
plain = record {
  node_name = "node-a";
  envoy_address = none;
  route_policy = none;
  has_gateway = false;
  has_envoy = false;
  trim = λ s. s;
}

abbrev morning : List Event
morning =
    dispatched (local_peer_create node_b) 1 "08:00" (λ p. true)
    ∷ compacts 1 1 "08:01"
    ∷ dispatched (internal_protocol_connected node_b) 2 "08:02" (λ p. true)
    ∷ restarts 3
    ∷ dispatched (local_route_create books) 4 "08:04" (λ p. true)
    ∷ []

recover-history_example :
    ((history plain morning new_node).rib.table
      ≡ lived "node-a" (remembered plain morning new_node new_past))
    × (recover 500000 "node-a" (log_of (history plain morning new_node))
        ≡ lived "node-a" (retimed 500000 (remembered plain morning new_node new_past)))
    × IsOrdered (log_of (history plain morning new_node))
recover-history_example = recover-history plain morning 500000 refl

-- A peer that advertised a route and was silent beyond its hold time has none left, and has it again
-- after a restart, whose time its messages then have.
abbrev quiet_peer : List Event
quiet_peer =
    dispatched (local_peer_create node_b) 1 "08:00" (λ p. true)
    ∷ dispatched (internal_protocol_connected node_b) 2 "08:01" (λ p. true)
    ∷ dispatched (internal_protocol_update (record { peer_info = node_b; updates = advert ∷ [] })) 3
        "08:02" (λ p. true)
    ∷ dispatched (tick 200000) 200000 "08:05" (λ p. true)
    ∷ []

abbrev silent : Bus
unfolding step dispatch complete commit append empty_log plan plan_local_peer_create
    plan_port_allocations apply_inbound_policy new_route_table history
    plan_internal_protocol_connected plan_internal_protocol_update apply_items add_item plan_tick
silent = history plain quiet_peer new_node

silent-expired : silent.rib.table.internal_routes ≡ []
unfolding step dispatch complete commit append empty_log plan plan_local_peer_create
    plan_port_allocations apply_inbound_policy new_route_table history
    plan_internal_protocol_connected plan_internal_protocol_update apply_items add_item plan_tick
silent-expired = refl

silent-recovered :
    map (λ r. r.name) (recover 500000 "node-a" (log_of silent)).internal_routes ≡ "films" ∷ []
unfolding step dispatch complete commit append empty_log plan plan_local_peer_create
    plan_port_allocations apply_inbound_policy new_route_table history recover replay_entries replay
    plan_internal_protocol_connected plan_internal_protocol_update apply_items add_item plan_tick
silent-recovered = refl

-- A policy that takes books alone.
abbrev books_only : RoutePolicy
books_only = record {
  can_send = λ peer routes. routes;
  can_receive = λ peer routes. filter (λ r. r.name == "books") routes;
}

abbrev guarded : Config
guarded = record {
  node_name = "node-a";
  envoy_address = none;
  route_policy = some books_only;
  has_gateway = false;
  has_envoy = false;
  trim = λ s. s;
}

abbrev books_advert : UpdateItem
books_advert = record advert { route = books }

abbrev two_adverts : ProtocolUpdate
two_adverts = record { peer_info = node_b; updates = advert ∷ books_advert ∷ [] }

abbrev noon : World
noon = record { clock = 5; stamp = "12:00"; delivers = λ p. true }

-- A node that has been told of one peer.
abbrev met : Bus
met = (dispatch guarded noon (local_peer_create node_b) new_node).0

met-recovered : recover 9 "node-a" (log_of met) ≡ met.rib.table
unfolding dispatch complete commit append recover replay_entries replay plan empty_log
    plan_local_peer_create plan_port_allocations apply_inbound_policy new_route_table
met-recovered = refl

met-IsOrdered : IsOrdered (log_of met)
unfolding dispatch complete commit append empty_log plan plan_local_peer_create
    plan_port_allocations apply_inbound_policy new_route_table
met-IsOrdered =
    append-IsOrdered empty_log (local_peer_create node_b) "node-a" "12:00" empty_log-IsOrdered

policy-bypassed_example :
    (lookup route_id
        ("films", "node-b")
        (dispatch guarded noon
          (internal_protocol_update two_adverts)
          met).0.rib.table.internal_routes
      ≡ none)
    × (lookup route_id
          ("films", "node-b")
          (recover 9 "node-a" (
            log_of
              (dispatch guarded noon (internal_protocol_update two_adverts) met).0)).internal_routes
        ≡ some (advertised node_b advert))
unfolding dispatch complete commit append empty_log plan plan_local_peer_create
    plan_port_allocations apply_inbound_policy new_route_table
policy-bypassed_example =
    policy-bypassed guarded noon met (log_of met) 9 two_adverts books_only (new_peer node_b) advert
      books_advert refl refl refl met-IsOrdered met-recovered refl refl refl (refl, refl)
      (refl, refl) refl refl
