-- ===== src/Bus/Collisions.antt =====
-- Where the port allocation of bus.ts lets two channels collide: one name for a local and an internal
-- route, and an allocator that is new while the routes are stamped already.
use catalyst_router.Prelude.{
  ℕ, String, true, false, ◌≡◌, refl, ◌∙◌, ap, List, [], ◌∷◌, ◌++◌, none, arith, All, ◌==◌,
  string_key, inl, inr, Option-cases, any, ==_refl,
}
use catalyst_router.Table.{
  DataChannel, InternalRoute, RouteTable, removed, internal, PortOperation, allocate, release,
  PlanResult, new_state,
}
use catalyst_router.Ports.{Allocator, allocate_port, release_port, get_port}
use catalyst_router.Ports.Sharing.{get_port-allocate_port, get_port-release_port}
use catalyst_router.Bus.Allocation.{
  Pool, egress_key, truthy, with_port, release_key, release_change, release_changes, release_ops,
  stamp_local, stamp_locals, stamp_internals, allocate_ports,
}
use catalyst_router.Rib.Local.{plan_local_route_create, channel_named}
use catalyst_router.Bus.Stamps.{internal_result-allocator}

abbrev pub IsStamped : DataChannel → Type 0
IsStamped r = truthy r.envoy_port ≡ true

-- Routes that are stamped go through as they are.
stamp_locals-stamped :
    (rs : List DataChannel) (pool : Pool) (ports : List (String × ℕ))
    → All IsStamped rs
    → stamp_locals rs pool ports ≡ (rs, pool, ports)
unfolding stamp_locals stamp_local
stamp_locals-stamped [] pool ports s = refl
stamp_locals-stamped (r ∷ rs) (a, ops) ports s =
    rw (s.0, stamp_locals, stamp_local, stamp_locals-stamped rs (a, ops) ports s.1)

release_port-none :
    (a : Allocator) (k j : String) → get_port a j ≡ none → get_port (release_port a k) j ≡ none
release_port-none a k j h = get_port-release_port a k j ∙ ground arith

-- After the release of a key it has no port.
release_key-none : (key : String) (pool : Pool) → get_port (release_key key pool).0 key ≡ none
unfolding release_key
release_key-none key (a, ops) = elim (Option-cases (get_port a key)) [
  | inl gone ↦ rw (gone, release_key) gone
  | inr (q, found) ↦
      rw (found, release_key) (get_port-release_port a key key ∙ ground (arith, ==_refl key))
]

release_key-kept :
    (key j : String) (pool : Pool)
    → get_port pool.0 j ≡ none
    → get_port (release_key key pool).0 j ≡ none
unfolding release_key
release_key-kept key j (a, ops) h = ground (arith, release_port-none a key j h)

release_ops-none :
    (ops : List PortOperation) (j : String) (pool : Pool)
    → get_port pool.0 j ≡ none
    → get_port (release_ops ops pool).0 j ≡ none
unfolding release_ops
release_ops-none [] j pool h = h
release_ops-none (release key port ∷ ops) j pool h =
    release_ops-none ops j _ (release_port-none pool.0 key j h)
release_ops-none (allocate key port ∷ ops) j pool h = release_ops-none ops j pool h

stamp_internals-none :
    (rs : List InternalRoute) (j : String) (pool : Pool) (ports : List (String × ℕ))
    → All (λ r. (egress_key r == j) ≡ false) rs
    → get_port pool.0 j ≡ none
    → get_port (stamp_internals rs pool ports).1.0 j ≡ none
unfolding stamp_internals
stamp_internals-none [] j pool ports o h = h
stamp_internals-none (r ∷ rs) j (a, ops) ports o h = stamp_internals-none rs j _ _ o.1 (
    ap (λ b. get_port b j) (internal_result-allocator r ops ports (allocate_port a _))
    ∙ get_port-allocate_port a (egress_key r) j
    ∙ rw o.0 h)

-- To remove an internal route takes the port of the local route with its name away. If the only
-- change of a plan is that removal, all local routes of the new table carry ports, and no internal
-- route's egress key is that name, then the allocator has no port for the name afterwards, and yet
-- the local routes, one of that name among them or not, keep the ports that they carry.
pub removed_internal-frees_local :
    (plan : PlanResult) (a : Allocator) (r : InternalRoute)
    → plan.route_changes ≡ removed (internal r) ∷ []
    → All IsStamped (new_state plan).local_routes
    → All (λ q. (egress_key q == r.name) ≡ false) (new_state plan).internal_routes
    → (get_port (allocate_ports plan a).1 r.name ≡ none)
      × ((new_state (allocate_ports plan a).0).local_routes ≡ (new_state plan).local_routes)
unfolding allocate_ports release_changes release_change
removed_internal-frees_local plan a r only stamped other =
    let freed = release_ops plan.port_ops (release_changes plan.route_changes (a, [])) in
    let same = stamp_locals-stamped (new_state plan).local_routes freed [] stamped in
    let gone : get_port (release_changes plan.route_changes (a, [])).0 r.name ≡ none = rw only (
      release_key-kept (egress_key r) r.name (release_key r.name (a, []))
        (release_key-none r.name (a, []))) in
    (
      stamp_internals-none (new_state plan).internal_routes r.name _ [] other
          (ap (λ t. get_port t.1.0 r.name) same ∙ release_ops-none plan.port_ops r.name _ gone),
      ap (λ t. t.0) same,
    )

stamp_locals-append :
    (rs : List DataChannel) (d : DataChannel) (pool : Pool)
    → All IsStamped rs
    → (stamp_locals (rs ++ d ∷ []) pool []).0 ≡ rs ++ (stamp_local d pool []).0 ∷ []
unfolding stamp_locals stamp_local
stamp_locals-append [] d pool s = refl
stamp_locals-append (r ∷ rs) d (a, ops) s =
    rw (s.0, stamp_locals, stamp_local) (ap (◌∷◌ r) (stamp_locals-append rs d (a, ops) s.1))

first_port :
    (d : DataChannel) (a : Allocator) (q : ℕ) (rest : List ℕ)
    → a.available ≡ q ∷ rest
    → a.allocations ≡ []
    → d.envoy_port ≡ none
    → (stamp_local d (a, []) []).0 ≡ with_port d q
unfolding stamp_local allocate_port
first_port d a q rest free unused no_port = rw (no_port, stamp_local, unused, allocate_port, free)

-- A new allocator does not know the ports that a recovered table carries: it has no allocations and
-- its first free port is `q`. If all local routes carry ports, a new local route without one gets
-- `q`, whichever of the other routes carries it already.
pub new_allocator-collides :
    (state : RouteTable) (a : Allocator) (d : DataChannel) (q : ℕ) (rest : List ℕ)
    → a.available ≡ q ∷ rest
    → a.allocations ≡ []
    → All IsStamped state.local_routes
    → any (channel_named d.name) state.local_routes ≡ false
    → d.envoy_port ≡ none
    → (new_state (allocate_ports (plan_local_route_create d state) a).0).local_routes
      ≡ state.local_routes ++ with_port d q ∷ []
unfolding allocate_ports plan_local_route_create release_changes release_change release_ops
new_allocator-collides state a d q rest free unused stamped new no_port =
    rw (new, plan_local_route_create)
      (stamp_locals-append state.local_routes d (a, []) stamped
        ∙ ap (λ r. state.local_routes ++ r ∷ []) (first_port d a q rest free unused no_port))
