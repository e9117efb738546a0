-- ===== src/Bus/Stamps.antt =====
-- The ports that `planPortAllocations` of bus.ts stamps on the routes, against the allocator's.
use catalyst_router.Prelude.{
  ℕ, String, ◌≡◌, refl, ◌∙◌, sym, ap, List, [], ◌∷◌, none, some, arith, All, ◌==◌, string_key, inl,
  inr, Option-cases, Bool-cases, ==_refl, ==_eq,
}
use catalyst_router.Table.{InternalRoute, PortOperation, PlanResult, new_state}
use catalyst_router.Ports.{
  Allocator, AllocateResult, success, no_ports_available, allocate_port, get_port,
}
use catalyst_router.Ports.Sharing.{
  get_port-allocate_port, allocate_port-held, allocate_port-out, allocate_cases,
}
use catalyst_router.Ports.Laws.{map_get-map_set}
use catalyst_router.Bus.Allocation.{
  Pool, egress_key, release_changes, release_ops, stamp_locals, stamp_internals, allocate_ports,
  internal_result,
}

-- A channel that has a port keeps it when any channel is given one.
get_port-kept :
    (a : Allocator) (k j : String) (p : ℕ)
    → get_port a j ≡ some p
    → get_port (allocate_port a k).0 j ≡ some p
get_port-kept a k j p h = elim (Bool-cases (k == j)) [
  | inl t ↦ let same = ==_eq k j t in rw (allocate_port-held a k p (ap (get_port a) same ∙ h)) h
  | inr f ↦ get_port-allocate_port a k j ∙ rw f h
]

pub internal_result-allocator :
    (r : InternalRoute) (ops : List PortOperation) (ports : List (String × ℕ))
    (got : Allocator × AllocateResult)
    → (internal_result r ops ports got).1.0 ≡ got.0
internal_result-allocator r ops ports (a, success port) = refl
internal_result-allocator r ops ports (a, no_ports_available) = refl

stamp_internals-kept :
    (rs : List InternalRoute) (pool : Pool) (ports : List (String × ℕ)) (j : String) (p : ℕ)
    → get_port pool.0 j ≡ some p
    → get_port (stamp_internals rs pool ports).1.0 j ≡ some p
unfolding stamp_internals
stamp_internals-kept [] pool ports j p h = h
stamp_internals-kept (r ∷ rs) (a, ops) ports j p h = stamp_internals-kept rs _ _ j p (
    ap (λ b. get_port b j) (internal_result-allocator r ops ports (allocate_port a _))
    ∙ get_port-kept a (egress_key r) j p h)

-- A pool with no free port stays as it is.
allocate_port-empty : (a : Allocator) (k : String) → a.available ≡ [] → (allocate_port a k).0 ≡ a
allocate_port-empty a k e = elim (Option-cases (get_port a k)) [
  | inl new ↦ ap (λ r. r.0) (allocate_port-out a k new e)
  | inr (q, found) ↦ ap (λ r. r.0) (allocate_port-held a k q found)
]

stamp_internals-empty :
    (rs : List InternalRoute) (pool : Pool) (ports : List (String × ℕ))
    → pool.0.available ≡ []
    → (stamp_internals rs pool ports).1.0 ≡ pool.0
unfolding stamp_internals
stamp_internals-empty [] pool ports e = refl
stamp_internals-empty (r ∷ rs) (a, ops) ports e =
    let same =
      internal_result-allocator r ops ports (allocate_port a (egress_key r))
      ∙ allocate_port-empty a (egress_key r) e in
    stamp_internals-empty rs _ _ (ap (λ b. b.available) same ∙ e) ∙ same

-- The port on the route is the one that the allocator holds for its egress key, if it holds one.
abbrev pub Agrees : Allocator → InternalRoute → Type 0
Agrees a r = (p : ℕ) → get_port a (egress_key r) ≡ some p → r.envoy_port ≡ some p

-- The route at the head, in the allocator that the rest leaves.
head-Agrees :
    (r : InternalRoute) (rs : List InternalRoute) (a : Allocator) (ops : List PortOperation)
    (ports : List (String × ℕ))
    → Agrees
        (stamp_internals (r ∷ rs) (a, ops) ports).1.0
        (internal_result r ops ports (allocate_port a (egress_key r))).0
unfolding stamp_internals
head-Agrees r rs a ops ports =
    allocate_cases
      (λ got.
        Agrees
          (stamp_internals rs (internal_result r ops ports got).1
            (internal_result r ops ports got).2).1.0
          (internal_result r ops ports got).0)
      a (egress_key r) (λ q had p h. sym (stamp_internals-kept rs _ _ (egress_key r) q had) ∙ h)
      (λ new none_left p h. absurd (
        none-some (
          sym new
          ∙ ap (λ b. get_port b (egress_key r)) (sym (stamp_internals-empty rs _ _ none_left))
          ∙ h)))
      (λ q new p h.
        sym (
          stamp_internals-kept rs _ _ (egress_key r) q (
            map_get-map_set a.allocations (egress_key r) (egress_key r) q new
            ∙ ground (arith, ==_refl (egress_key r))))
        ∙ h)
  where
    none-some : {p : ℕ} → none ≡ some p → ⊥
    none-some e = cc

stamp_internals-Agrees :
    (rs : List InternalRoute) (pool : Pool) (ports : List (String × ℕ))
    → All (Agrees (stamp_internals rs pool ports).1.0) (stamp_internals rs pool ports).0
unfolding stamp_internals
stamp_internals-Agrees [] pool ports = tt
stamp_internals-Agrees (r ∷ rs) (a, ops) ports =
    (head-Agrees r rs a ops ports, stamp_internals-Agrees rs _ _)

-- After the port allocation of a plan, whatever ports its routes had before, every internal route of
-- the new table whose egress key has a port in the allocator carries exactly that port.
pub allocate_ports-Agrees :
    (plan : PlanResult) (a : Allocator)
    → All (Agrees (allocate_ports plan a).1) (new_state (allocate_ports plan a).0).internal_routes
unfolding allocate_ports
allocate_ports-Agrees plan a =
    stamp_internals-Agrees (new_state plan).internal_routes
      (stamp_locals (new_state plan).local_routes
        (release_ops plan.port_ops (release_changes plan.route_changes (a, []))) []).1
      []
