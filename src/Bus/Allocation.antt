-- ===== src/Bus/Allocation.antt =====
-- `planPortAllocations` of bus.ts: ports are released for removed routes and allocated for the
-- routes of the new state. The allocator is passed along as a value.
use Prim.Native.String.{◌++◌ as str_append}
use catalyst_router.Prelude.{
  ℕ, String, Bool, false, not, List, [], ◌∷◌, ◌++◌, Option, none, some, map, nat_beq, if◌then◌else◌,
}
use catalyst_router.Table.{
  DataChannel, InternalRoute, Route, local, internal, RouteChange, added, removed, updated, fresh,
  PortOperation, allocate, release, PlanResult, new_state,
}
use catalyst_router.Ports.{
  Allocator, AllocateResult, success, no_ports_available, allocate_port, release_port, get_port,
  map_get, map_set,
}

-- `egress_${name}_via_${peer}`
abbrev pub egress_key : InternalRoute → String
egress_key r = str_append (str_append (str_append "egress_" r.name) "_via_") r.peer.name

-- A port in a condition: 0 is falsy.
abbrev pub truthy : Option ℕ → Bool
truthy none = false
truthy (some p) = not (nat_beq p 0)

abbrev pub Pool : Type 0
Pool = Allocator × List PortOperation

-- `getPort`, and `release` with its record if there is a port.
unfoldable pub release_key : String → Pool → Pool
release_key key (a, ops) = elim (get_port a key) [
  | none ↦ (a, ops)
  | some port ↦ (release_port a key, ops ++ release key port ∷ [])
]

-- Phase 1, for one change.
unfoldable pub release_change : RouteChange → Pool → Pool
unfolding release_key
release_change (removed (local r)) pool = release_key r.name pool
release_change (removed (internal r)) pool = release_key (egress_key r) (release_key r.name pool)
release_change (added r) pool = pool
release_change (updated r) pool = pool

unfoldable pub release_changes : List RouteChange → Pool → Pool
unfolding release_change
release_changes [] pool = pool
release_changes (c ∷ cs) pool = release_changes cs (release_change c pool)

-- The release operations of the plan itself.
unfoldable pub release_ops : List PortOperation → Pool → Pool
release_ops [] pool = pool
release_ops (release key port ∷ ops) pool =
    release_ops ops (release_port pool.0 key, pool.1 ++ release key port ∷ [])
release_ops (allocate key port ∷ ops) pool = release_ops ops pool

-- Phase 2, for one local route: the route, and the entry of `localPortMap`.
abbrev pub with_port : DataChannel → ℕ → DataChannel
with_port r port = record r { envoy_port = some port }

abbrev pub local_result :
    DataChannel
    → List PortOperation
    → List (String × ℕ)
    → Allocator × AllocateResult
    → DataChannel × Pool × List (String × ℕ)
local_result r ops ports (a, success port) =
    (with_port r port, (a, ops ++ allocate r.name port ∷ []), map_set ports r.name port)
local_result r ops ports (a, no_ports_available) = (r, (a, ops), ports)

unfoldable pub stamp_local :
    DataChannel → Pool → List (String × ℕ) → DataChannel × Pool × List (String × ℕ)
stamp_local r (a, ops) ports =
    if truthy r.envoy_port
    then (r, (a, ops), ports)
    else local_result r ops ports (allocate_port a r.name)

unfoldable pub stamp_locals :
    List DataChannel → Pool → List (String × ℕ) → List DataChannel × Pool × List (String × ℕ)
unfolding stamp_local
stamp_locals [] pool ports = ([], pool, ports)
stamp_locals (r ∷ rs) pool ports =
    let here = stamp_local r pool ports in
    let rest = stamp_locals rs here.1 here.2 in (here.0 ∷ rest.0, rest.1, rest.2)

-- Phase 3, for one internal route, with the entry of `egressPortMap`.
abbrev pub has_port : Option ℕ → ℕ → Bool
has_port none port = false
has_port (some p) port = nat_beq p port

abbrev pub internal_result :
    InternalRoute
    → List PortOperation
    → List (String × ℕ)
    → Allocator × AllocateResult
    → InternalRoute × Pool × List (String × ℕ)
internal_result r ops ports (a, success port) = (
  record r { channel = with_port r.channel port },
  (a, if has_port r.envoy_port port then ops else ops ++ allocate (egress_key r) port ∷ []),
  map_set ports (egress_key r) port,
)
internal_result r ops ports (a, no_ports_available) = (r, (a, ops), ports)

unfoldable pub stamp_internal :
    InternalRoute → Pool → List (String × ℕ) → InternalRoute × Pool × List (String × ℕ)
stamp_internal r (a, ops) ports = internal_result r ops ports (allocate_port a (egress_key r))

unfoldable pub stamp_internals :
    List InternalRoute → Pool → List (String × ℕ) → List InternalRoute × Pool × List (String × ℕ)
unfolding stamp_internal
stamp_internals [] pool ports = ([], pool, ports)
stamp_internals (r ∷ rs) pool ports =
    let here = stamp_internal r pool ports in
    let rest = stamp_internals rs here.1 here.2 in (here.0 ∷ rest.0, rest.1, rest.2)

-- Phase 5: the ports on the route of a change.
abbrev restamp_internal : InternalRoute → Option ℕ → InternalRoute
restamp_internal r none = r
restamp_internal r (some port) =
    if has_port r.envoy_port port then r else record r { channel = with_port r.channel port }

abbrev restamp_local : DataChannel → Option ℕ → DataChannel
restamp_local r none = r
restamp_local r (some port) = if truthy r.envoy_port then r else with_port r port

abbrev restamp : List (String × ℕ) → List (String × ℕ) → Route → Route
restamp locals egress (internal r) = internal (restamp_internal r (map_get egress (egress_key r)))
restamp locals egress (local r) = local (restamp_local r (map_get locals r.name))

abbrev pub restamp_change : List (String × ℕ) → List (String × ℕ) → RouteChange → RouteChange
restamp_change locals egress (removed r) = removed r
restamp_change locals egress (added r) = added (restamp locals egress r)
restamp_change locals egress (updated r) = updated (restamp locals egress r)

-- All phases, with an allocator.
unfoldable pub allocate_ports : PlanResult → Allocator → PlanResult × Allocator
unfolding release_changes release_ops stamp_locals stamp_internals
allocate_ports plan a =
    let table = new_state plan in
    let freed = release_ops plan.port_ops (release_changes plan.route_changes (a, [])) in
    let locals = stamp_locals table.local_routes freed [] in
    let internals = stamp_internals table.internal_routes locals.1 [] in
    (
      record plan {
        state = fresh (record table { local_routes = locals.0; internal_routes = internals.0 });
        port_ops = internals.1.1;
        route_changes = map (restamp_change locals.2 internals.2) plan.route_changes;
      },
      internals.1.0,
    )

-- `planPortAllocations`
unfoldable pub plan_port_allocations : PlanResult → Option Allocator → PlanResult × Option Allocator
unfolding allocate_ports
plan_port_allocations plan none = (plan, none)
plan_port_allocations plan (some a) = let done = allocate_ports plan a in (done.0, some done.1)
