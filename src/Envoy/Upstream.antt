-- ===== src/Envoy/Upstream.antt =====
-- bus.ts and resources.ts together: the ports of remote clusters after a port allocation.
use catalyst_router.Prelude.{
  ℕ, zero, suc, String, ◌≡◌, refl, sym, ap, ap₂, ◌∙◌, List, [], ◌∷◌, ◌++◌, map, map-append, none,
  some, Option, Bool-cases, inl, inr, All, subst,
}
use catalyst_router.Table.{InternalRoute, PlanResult, new_state}
use catalyst_router.Ports.{Allocator, map_get}
use catalyst_router.Bus.Allocation.{allocate_ports, egress_key}
use catalyst_router.Bus.Stamps.{Agrees, allocate_ports-Agrees}
use catalyst_router.Envoy.Resources.{
  Platform, Listener, XdsCluster, is_tcp_protocol, build_remote_cluster,
}
use catalyst_router.Envoy.Snapshot.{
  SnapshotInput, XdsSnapshot, Resources, push, internal_listener, given_port, given_text,
  add_internal, add_locals, add_internals, build_xds_snapshot,
}
use catalyst_router.Envoy.Rows.{listener_address}

-- The ports that a cluster connects to, and the port of a listener in that form.
abbrev pub cluster_ports : XdsCluster → List (List ℕ)
cluster_ports c = map (map (λ at. at.port_value)) c.endpoints

abbrev pub own_ports : Listener → List (List ℕ)
own_ports l = ((listener_address l).port_value ∷ []) ∷ []

abbrev IsMirrored : Resources → Type 0
IsMirrored done = map cluster_ports done.pushed_clusters ≡ map own_ports done.pushed_listeners

module _ (env : Platform) (input : SnapshotInput) where
  listener-port :
      (r : InternalRoute) (port : ℕ)
      → own_ports (internal_listener env input r port) ≡ (port ∷ []) ∷ []
  listener-port r port = elim (Bool-cases (is_tcp_protocol r.protocol)) [
    | inl e ↦ simp e refl
    | inr e ↦ simp e refl
  ]

  abbrev pushed : InternalRoute → Resources → Option ℕ → Option String → Option ℕ → Resources
  pushed r done peer_port address port = elim (given_port peer_port) [
    | none ↦ done
    | some remote ↦ elim address [
      | none ↦ done
      | some at ↦ elim (given_port port) [
        | none ↦ done
        | some here ↦ push done (internal_listener env input r here) (
            build_remote_cluster env r.name r.peer.name
              (record { address = at; port_value = remote }) r.protocol)
      ]
    ]
  ]

  some-suc : {m n : ℕ} → some (suc m) ≡ some (suc n) → suc m ≡ suc n
  some-suc h = cc

  pushed-IsMirrored :
      (r : InternalRoute) (done : Resources) (peer_port : Option ℕ) (address : Option String)
      (port : Option ℕ)
      → ((p : ℕ) → port ≡ some p → peer_port ≡ some p)
      → IsMirrored done
      → IsMirrored (pushed r done peer_port address port)
  pushed-IsMirrored r done none address port h m = m
  pushed-IsMirrored r done (some zero) address port h m = m
  pushed-IsMirrored r done (some (suc p)) none port h m = m
  pushed-IsMirrored r done (some (suc p)) (some at) none h m = m
  pushed-IsMirrored r done (some (suc p)) (some at) (some zero) h m = m
  pushed-IsMirrored r done (some (suc p)) (some at) (some (suc q)) h m =
      map-append cluster_ports done.pushed_clusters _
      ∙ ap₂ ◌++◌ m (
          ap (λ n. ((n ∷ []) ∷ []) ∷ []) (some-suc (h (suc q) refl))
          ∙ ap (λ n. n ∷ []) (sym (listener-port r (suc q))))
      ∙ sym (map-append own_ports done.pushed_listeners _)

  add_internals-IsMirrored :
      (rs : List InternalRoute) (a : Allocator) (done : Resources)
      → input.port_allocations ≡ a.allocations
      → All (Agrees a) rs
      → IsMirrored done
      → IsMirrored (add_internals env input rs done)
  unfolding add_internals add_internal
  add_internals-IsMirrored [] a done same h m = m
  add_internals-IsMirrored (r ∷ rs) a done same h m =
      add_internals-IsMirrored rs a (add_internal env input r done) same h.1 (
        pushed-IsMirrored r done r.envoy_port (given_text r.peer.envoy_address)
          (map_get input.port_allocations (egress_key r))
          (λ p held. h.0 p (ap (λ entries. map_get entries (egress_key r)) (sym same) ∙ held)) m)

-- What the bus gives the proxy for the internal routes of a plan, after its port allocation.
abbrev pub internal_input : PlanResult → Allocator → (bind_address version : String) → SnapshotInput
internal_input plan a bind_address version = record {
  locals = [];
  internals = (new_state (allocate_ports plan a).0).internal_routes;
  port_allocations = (allocate_ports plan a).1.allocations;
  bind_address = bind_address;
  version = version;
}

-- Take the internal routes of a plan after the port allocation, with the allocator's ports, and
-- build a snapshot of them, without local routes. Then each remote cluster connects, at the peer, to
-- the very port on which this node's own listener for that cluster listens, whatever port the peer
-- had advertised.
pub build_xds_snapshot-allocate_ports :
    (env : Platform) (plan : PlanResult) (a : Allocator) (bind_address version : String)
    (snapshot : XdsSnapshot)
    → build_xds_snapshot env (internal_input plan a bind_address version) ≡ some snapshot
    → map cluster_ports snapshot.clusters ≡ map own_ports snapshot.listeners
unfolding build_xds_snapshot add_locals
build_xds_snapshot-allocate_ports env plan a bind_address version snapshot built =
    let empty : Resources = record { pushed_listeners = []; pushed_clusters = [] } in
    let same =
      add_internals-IsMirrored env (internal_input plan a bind_address version)
        (new_state (allocate_ports plan a).0).internal_routes (allocate_ports plan a).1 empty refl
        (allocate_ports-Agrees plan a) refl in
    subst (λ s. map cluster_ports s.clusters ≡ map own_ports s.listeners) (some-snapshot built) same
  where
    some-snapshot : {s t : XdsSnapshot} → some s ≡ some t → s ≡ t
    some-snapshot h = cc
