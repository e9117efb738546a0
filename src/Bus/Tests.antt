-- ===== src/Bus/Tests.antt =====
-- The bus at concrete inputs.
use catalyst_router.Prelude.{true, ◌≡◌, refl, [], ◌∷◌, none, some, All, if◌then◌else◌, string_key}
use catalyst_router.Table.{new_route_table, new_state, added, internal}
use catalyst_router.Action.{local_route_create}
use catalyst_router.Samples.{films, books, session_b, learned_films, linked, two_ports}
use catalyst_router.Rib.Machine.{plan}
use catalyst_router.Rib.Invariant.{IsValid}
use catalyst_router.Rib.Preservation.{plan-IsValid}
use catalyst_router.Journal.{empty_log, journal_action}
use catalyst_router.Ports.{Allocator, create_port_allocator}
use catalyst_router.Ports.Laws.{IsBalanced, create_port_allocator-IsBalanced}
use catalyst_router.Bus.Config.{Config}
use catalyst_router.Bus.Allocation.{allocate_ports, with_port}
use catalyst_router.Ports.{get_port}
use catalyst_router.Rib.Local.{plan_local_route_create}
use catalyst_router.Bus.Stamps.{Agrees, allocate_ports-Agrees}
use catalyst_router.Bus.Collisions.{removed_internal-frees_local, new_allocator-collides}
use catalyst_router.Table.{RouteTable, PlanResult, added, fresh, removed}
use catalyst_router.Bus.Propagation.{sync_updates, build_updates}
use catalyst_router.Bus.Keepalive.{handle_keepalives}
use catalyst_router.Bus.Dispatch.{Bus, World, dispatch}
use catalyst_router.Bus.Horizon.{IsNews, updates-IsNews}
use catalyst_router.Bus.Stamping.{allocate_ports-IsBalanced, allocate_ports-IsValid}
use catalyst_router.Bus.Quiet.{handle_keepalives-quiet}
use catalyst_router.Bus.Outcome.{IsSound, is_success, dispatch-IsSound, dispatch-records}

abbrev node_a : Config
node_a = record {
  node_name = "node-a";
  envoy_address = some "10.0.0.1";
  route_policy = none;
  has_gateway = true;
  has_envoy = true;
  trim = λ s. s;
}

abbrev today : World
today = record { clock = 5; stamp = "2026-01-01"; delivers = λ p. true }

abbrev pool : Allocator
pool = create_port_allocator two_ports []

pool-IsBalanced : IsBalanced two_ports pool
pool-IsBalanced = create_port_allocator-IsBalanced two_ports [] tt

abbrev new_bus : Bus
new_bus = record {
  rib = record { table = new_route_table; journal = some empty_log };
  port_allocator = some pool;
  last_keepalive_sent = [];
}

new_table-IsValid : IsValid "node-a" new_route_table
unfolding new_route_table
new_table-IsValid = record { peers = tt; channels = tt; routes = tt; loop_free = tt }

new_bus-IsSound : IsSound node_a two_ports new_bus
new_bus-IsSound = record { table = new_table-IsValid; pool = pool-IsBalanced }

dispatch-IsSound_example :
    IsSound node_a two_ports (dispatch node_a today (local_route_create books) new_bus).0
dispatch-IsSound_example =
    dispatch-IsSound node_a two_ports today (local_route_create books) new_bus new_bus-IsSound

dispatch-records_example :
    ((dispatch node_a today (local_route_create books) new_bus).0.rib.journal ≡ (
      if is_success (dispatch node_a today (local_route_create books) new_bus).1
      then journal_action (some empty_log) (local_route_create books) "node-a" "2026-01-01"
      else some empty_log))
    × ((if is_success (dispatch node_a today (local_route_create books) new_bus).1
          then new_route_table
          else (dispatch node_a today (local_route_create books) new_bus).0.rib.table)
        ≡ new_route_table)
    × ((if is_success (dispatch node_a today (local_route_create books) new_bus).1
          then some pool
          else (dispatch node_a today (local_route_create books) new_bus).0.port_allocator)
        ≡ some pool)
dispatch-records_example = dispatch-records node_a today (local_route_create books) new_bus

updates-IsNews_example :
    All (IsNews node_a session_b) (sync_updates node_a session_b linked)
    × All
        (IsNews node_a session_b)
        (build_updates node_a session_b (added (internal learned_films) ∷ []))
updates-IsNews_example =
    updates-IsNews node_a session_b linked (added (internal learned_films) ∷ []) refl

allocate_ports-IsBalanced_example :
    IsBalanced two_ports
      (allocate_ports (plan 5 "node-a" (local_route_create books) new_route_table) pool).1
allocate_ports-IsBalanced_example =
    allocate_ports-IsBalanced two_ports (plan 5 "node-a" (local_route_create books) new_route_table)
      pool pool-IsBalanced

allocate_ports-IsValid_example :
    IsValid "node-a" (
      new_state
        (allocate_ports (plan 5 "node-a" (local_route_create books) new_route_table) pool).0)
allocate_ports-IsValid_example =
    allocate_ports-IsValid "node-a" (plan 5 "node-a" (local_route_create books) new_route_table)
      pool (plan-IsValid 5 "node-a" (local_route_create books) new_route_table new_table-IsValid)

handle_keepalives-quiet_example :
    (handle_keepalives (λ p. true) linked 50000 (handle_keepalives (λ p. true) linked 50000 []).1).0
    ≡ []
handle_keepalives-quiet_example = handle_keepalives-quiet linked 50000 []

-- Two routes of one name, one here and one at the other node, each with its port.
abbrev shared_pool : Allocator
shared_pool =
    create_port_allocator two_ports (("films", 10000) ∷ ("egress_films_via_node-b", 10001) ∷ [])

abbrev withdrawn : PlanResult
withdrawn = record {
  prev_state = record {
    local_routes = films ∷ [];
    peers = [];
    internal_routes = learned_films ∷ [];
  };
  state = fresh (record { local_routes = films ∷ []; peers = []; internal_routes = [] });
  port_ops = [];
  route_changes = removed (internal learned_films) ∷ [];
}

removed_internal-frees_local_example :
    (get_port (allocate_ports withdrawn shared_pool).1 "films" ≡ none)
    × ((new_state (allocate_ports withdrawn shared_pool).0).local_routes ≡ films ∷ [])
removed_internal-frees_local_example =
    removed_internal-frees_local withdrawn shared_pool learned_films refl (refl, tt) tt

abbrev stamped_table : RouteTable
stamped_table = record { local_routes = films ∷ []; peers = []; internal_routes = [] }

pool-available : pool.available ≡ 10000 ∷ 10001 ∷ []
unfolding create_port_allocator
pool-available = refl

pool-allocations : pool.allocations ≡ []
unfolding create_port_allocator
pool-allocations = refl

new_allocator-collides_example :
    (new_state (allocate_ports (plan_local_route_create books stamped_table) pool).0).local_routes
    ≡ films ∷ with_port books 10000 ∷ []
new_allocator-collides_example =
    new_allocator-collides stamped_table pool books 10000 (10001 ∷ []) pool-available
      pool-allocations (refl, tt) refl refl

-- A plan that installs the route of the other node.
abbrev learned : PlanResult
learned = record {
  prev_state = new_route_table;
  state = fresh linked;
  port_ops = [];
  route_changes = added (internal learned_films) ∷ [];
}

allocate_ports-Agrees_example :
    All
      (Agrees (allocate_ports learned pool).1)
      (new_state (allocate_ports learned pool).0).internal_routes
allocate_ports-Agrees_example = allocate_ports-Agrees learned pool
