-- ===== src/Rib/Tests.antt =====
-- The route table at concrete inputs.
use catalyst_router.Prelude.{
  All, Memᴰ, ◌⊎◌, ◌≡◌, refl, [], ◌∷◌, map, some, lookup, string_key, pair_key,
}
use catalyst_router.Table.{connected, RouteTable, new_route_table, new_state, InternalRoute}
use catalyst_router.Action.{tick}
use catalyst_router.Samples.{node_b, advert, linked, meeting}
use catalyst_router.Rib.Update.{plan_internal_protocol_update}
use catalyst_router.Rib.Session.{plan_internal_protocol_open}
use catalyst_router.Rib.Local.{plan_local_route_create, plan_local_peer_create}
use catalyst_router.Rib.Expiry.{plan_tick}
use catalyst_router.Rib.Machine.{plan, run}
use catalyst_router.Rib.Invariant.{IsValid, route_id, channel_name}
use catalyst_router.Rib.Preservation.{plan-IsValid, run-IsValid}
use catalyst_router.Rib.Delta.{follow_all, follow_all_local}
use catalyst_router.Rib.Changes.{plan-route_changes}
use catalyst_router.Rib.Releases.{plan-port_ops, owed_all}
use catalyst_router.Rib.Holding.{IsSettled, Beyond, plan_tick-IsSettled}
use catalyst_router.Rib.BestPath.{update-Serves, Serves, NoWorse}

abbrev met : RouteTable
met = run "node-a" meeting new_route_table

met-IsValid : IsValid "node-a" met
met-IsValid = run-IsValid "node-a" meeting

-- The peer that is configured, connects and advertises leaves one route, under its key.
met-routes : map route_id met.internal_routes ≡ ("films", "node-b") ∷ []
unfolding run plan new_route_table plan_internal_protocol_update plan_internal_protocol_open
    plan_local_route_create plan_local_peer_create
met-routes = refl

plan-IsValid_example : IsValid "node-a" (new_state (plan 5 "node-a" (tick 200000) met))
plan-IsValid_example = plan-IsValid 5 "node-a" (tick 200000) met met-IsValid

run-IsValid_example : IsValid "node-a" (run "node-a" meeting new_route_table)
run-IsValid_example = run-IsValid "node-a" meeting

plan-route_changes_example :
    (lookup route_id
        ("films", "node-b")
        (new_state (plan 5 "node-a" (tick 200000) met)).internal_routes
      ≡ follow_all
          (plan 5 "node-a" (tick 200000) met).route_changes
          ("films", "node-b")
          (lookup route_id ("films", "node-b") met.internal_routes))
    × (lookup channel_name "books" (new_state (plan 5 "node-a" (tick 200000) met)).local_routes
        ≡ follow_all_local
            (plan 5 "node-a" (tick 200000) met).route_changes
            "books"
            (lookup channel_name "books" met.local_routes))
plan-route_changes_example =
    plan-route_changes 5 "node-a" (tick 200000) met ("films", "node-b") "books" met-IsValid

plan-port_ops_example :
    (plan 5 "node-a" (tick 200000) linked).port_ops
    ≡ owed_all (plan 5 "node-a" (tick 200000) linked).route_changes
plan-port_ops_example = plan-port_ops 5 "node-a" (tick 200000) linked

plan_tick-IsSettled_example :
    IsSettled 200000 (new_state (plan_tick 200000 linked))
    × All
        (λ p.
          Memᴰ p (new_state (plan_tick 200000 linked)).peers
          ⊎ ((p.connection_status ≡ connected) × Beyond 200000 p))
        linked.peers
plan_tick-IsSettled_example = plan_tick-IsSettled 200000 linked

update-Serves_example :
    (r : InternalRoute) × (lookup route_id
        ("films", "node-b")
        (new_state (
          plan_internal_protocol_update 6 "node-a"
            (record { peer_info = node_b; updates = advert ∷ [] })
            linked)).internal_routes
      ≡ some r)
    × Serves advert r
    × NoWorse (lookup route_id ("films", "node-b") linked.internal_routes) r
update-Serves_example = update-Serves 6 "node-a" node_b advert linked refl refl
