-- ===== src/Bus/Stamping.antt =====
-- The port allocation of a plan keeps the allocator's pool balanced and the table valid.
use catalyst_router.Prelude.{
  ℕ, String, ◌≡◌, refl, ◌∙◌, ap, ap₂, List, [], ◌∷◌, map, arith, All, string_key, pair_key,
  includes,
}
use catalyst_router.Table.{
  DataChannel, InternalRoute, RouteChange, added, removed, updated, local, internal, PortOperation,
  allocate, release, PlanResult, new_state,
}
use catalyst_router.Ports.{
  PortEntry, Allocator, AllocateResult, success, no_ports_available, allocate_port,
}
use catalyst_router.Ports.Laws.{IsBalanced, allocate_port-IsBalanced, release_port-IsBalanced}
use catalyst_router.Rib.Invariant.{IsValid, IsLoopFree, route_id, channel_name}
use catalyst_router.Bus.Allocation.{
  Pool, release_key, release_change, release_changes, release_ops, stamp_local, stamp_locals,
  stamp_internals, allocate_ports, local_result, internal_result,
}

module _ (entries : List PortEntry) where
  release_key-IsBalanced :
      (key : String) (pool : Pool)
      → IsBalanced entries pool.0
      → IsBalanced entries (release_key key pool).0
  unfolding release_key
  release_key-IsBalanced key (a, ops) b = ground (arith, release_port-IsBalanced entries a key b)

  release_change-IsBalanced :
      (c : RouteChange) (pool : Pool)
      → IsBalanced entries pool.0
      → IsBalanced entries (release_change c pool).0
  unfolding release_change
  release_change-IsBalanced (removed (local r)) pool b = release_key-IsBalanced r.name pool b
  release_change-IsBalanced (removed (internal r)) pool b =
      release_key-IsBalanced _ (release_key r.name pool) (release_key-IsBalanced r.name pool b)
  release_change-IsBalanced (added r) pool b = b
  release_change-IsBalanced (updated r) pool b = b

  release_changes-IsBalanced :
      (cs : List RouteChange) (pool : Pool)
      → IsBalanced entries pool.0
      → IsBalanced entries (release_changes cs pool).0
  unfolding release_changes
  release_changes-IsBalanced [] pool b = b
  release_changes-IsBalanced (c ∷ cs) pool b =
      release_changes-IsBalanced cs (release_change c pool) (release_change-IsBalanced c pool b)

  release_ops-IsBalanced :
      (ops : List PortOperation) (pool : Pool)
      → IsBalanced entries pool.0
      → IsBalanced entries (release_ops ops pool).0
  unfolding release_ops
  release_ops-IsBalanced [] pool b = b
  release_ops-IsBalanced (release key port ∷ ops) pool b =
      release_ops-IsBalanced ops _ (release_port-IsBalanced entries pool.0 key b)
  release_ops-IsBalanced (allocate key port ∷ ops) pool b = release_ops-IsBalanced ops pool b

  local_result-allocator :
      (r : DataChannel) (ops : List PortOperation) (ports : List (String × ℕ))
      (got : Allocator × AllocateResult)
      → IsBalanced entries got.0
      → IsBalanced entries (local_result r ops ports got).1.0
  local_result-allocator r ops ports (a, success port) b = b
  local_result-allocator r ops ports (a, no_ports_available) b = b

  stamp_local-IsBalanced :
      (r : DataChannel) (pool : Pool) (ports : List (String × ℕ))
      → IsBalanced entries pool.0
      → IsBalanced entries (stamp_local r pool ports).1.0
  unfolding stamp_local
  stamp_local-IsBalanced r (a, ops) ports b = ground (
    arith,
    local_result-allocator r ops ports (allocate_port a r.name)
        (allocate_port-IsBalanced entries a r.name b),
  )

  stamp_locals-IsBalanced :
      (rs : List DataChannel) (pool : Pool) (ports : List (String × ℕ))
      → IsBalanced entries pool.0
      → IsBalanced entries (stamp_locals rs pool ports).1.0
  unfolding stamp_locals
  stamp_locals-IsBalanced [] pool ports b = b
  stamp_locals-IsBalanced (r ∷ rs) pool ports b =
      stamp_locals-IsBalanced rs _ _ (stamp_local-IsBalanced r pool ports b)

  internal_result-allocator :
      (r : InternalRoute) (ops : List PortOperation) (ports : List (String × ℕ))
      (got : Allocator × AllocateResult)
      → IsBalanced entries got.0
      → IsBalanced entries (internal_result r ops ports got).1.0
  internal_result-allocator r ops ports (a, success port) b = b
  internal_result-allocator r ops ports (a, no_ports_available) b = b

  stamp_internals-IsBalanced :
      (rs : List InternalRoute) (pool : Pool) (ports : List (String × ℕ))
      → IsBalanced entries pool.0
      → IsBalanced entries (stamp_internals rs pool ports).1.0
  unfolding stamp_internals
  stamp_internals-IsBalanced [] pool ports b = b
  stamp_internals-IsBalanced (r ∷ rs) (a, ops) ports b =
      stamp_internals-IsBalanced rs _ _
        (internal_result-allocator r ops ports _ (allocate_port-IsBalanced entries a _ b))

  -- Whatever the plan, the ports stay balanced through its allocation.
  pub allocate_ports-IsBalanced :
      (plan : PlanResult) (a : Allocator)
      → IsBalanced entries a
      → IsBalanced entries (allocate_ports plan a).1
  unfolding allocate_ports
  allocate_ports-IsBalanced plan a b =
      let freed =
        release_ops-IsBalanced plan.port_ops _
          (release_changes-IsBalanced plan.route_changes (a, []) b) in
      stamp_internals-IsBalanced (new_state plan).internal_routes _ []
        (stamp_locals-IsBalanced (new_state plan).local_routes _ [] freed)

local_result-name :
    (r : DataChannel) (ops : List PortOperation) (ports : List (String × ℕ))
    (got : Allocator × AllocateResult)
    → channel_name (local_result r ops ports got).0 ≡ channel_name r
local_result-name r ops ports (a, success port) = refl
local_result-name r ops ports (a, no_ports_available) = refl

stamp_locals-names :
    (rs : List DataChannel) (pool : Pool) (ports : List (String × ℕ))
    → map channel_name (stamp_locals rs pool ports).0 ≡ map channel_name rs
unfolding stamp_locals
stamp_locals-names [] pool ports = refl
stamp_locals-names (r ∷ rs) (a, ops) ports =
    ap₂ ◌∷◌ (ground (arith, local_result-name r ops ports (allocate_port a r.name)))
      (stamp_locals-names rs _ _)

internal_result-same :
    (r : InternalRoute) (ops : List PortOperation) (ports : List (String × ℕ))
    (got : Allocator × AllocateResult)
    → (route_id (internal_result r ops ports got).0 ≡ route_id r)
      × ((internal_result r ops ports got).0.node_path ≡ r.node_path)
internal_result-same r ops ports (a, success port) = (refl, refl)
internal_result-same r ops ports (a, no_ports_available) = (refl, refl)

stamp_internals-ids :
    (rs : List InternalRoute) (pool : Pool) (ports : List (String × ℕ))
    → map route_id (stamp_internals rs pool ports).0 ≡ map route_id rs
unfolding stamp_internals
stamp_internals-ids [] pool ports = refl
stamp_internals-ids (r ∷ rs) (a, ops) ports =
    ap₂ ◌∷◌ (internal_result-same r ops ports (allocate_port a _)).0 (stamp_internals-ids rs _ _)

stamp_internals-IsLoopFree :
    (node_id : String) (rs : List InternalRoute) (pool : Pool) (ports : List (String × ℕ))
    → All (IsLoopFree node_id) rs
    → All (IsLoopFree node_id) (stamp_internals rs pool ports).0
unfolding stamp_internals
stamp_internals-IsLoopFree node_id [] pool ports h = tt
stamp_internals-IsLoopFree node_id (r ∷ rs) (a, ops) ports h = (
  ap (λ path. includes path node_id) (internal_result-same r ops ports (allocate_port a _)).1 ∙ h.0,
  stamp_internals-IsLoopFree node_id rs _ _ h.1,
)

-- The stamps leave names, origins and paths.
pub allocate_ports-IsValid :
    (node_id : String) (plan : PlanResult) (a : Allocator)
    → IsValid node_id (new_state plan)
    → IsValid node_id (new_state (allocate_ports plan a).0)
unfolding allocate_ports
allocate_ports-IsValid node_id plan a v = record {
  peers = v.peers;
  channels = rw (stamp_locals-names (new_state plan).local_routes _ []) v.channels;
  routes = rw (stamp_internals-ids (new_state plan).internal_routes _ []) v.routes;
  loop_free = stamp_internals-IsLoopFree node_id (new_state plan).internal_routes _ [] v.loop_free;
}
