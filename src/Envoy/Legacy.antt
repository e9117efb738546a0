-- ===== src/Envoy/Legacy.antt =====
-- The legacy derivation of ports of apps/envoy/src/rpc/server.ts against ports that are sent.
use catalyst_router.Prelude.{
  ℕ, String, ◌≡◌, ◌∙◌, List, [], ◌∷◌, ◌++◌, none, some, Option, inl, inr, All, arith, Option-cases,
  map, All-append, All-map, subst,
}
use catalyst_router.Table.{DataChannel, InternalRoute}
use catalyst_router.Ports.{map_get}
use catalyst_router.Bus.Allocation.{egress_key}
use catalyst_router.Envoy.Resources.{Platform}
use catalyst_router.Envoy.Snapshot.{build_xds_snapshot}
use catalyst_router.Envoy.Derivation.{
  IsSame, Carries, put_all-All, put_all-locals, put_all-internals, local_ports, egress_ports,
  build_xds_snapshot-same,
}
use catalyst_router.Envoy.Server.{
  legacy_locals, legacy_internals, RouteConfig, EnvoyRpcServer, input_of, update_routes,
}

All-head : {A : Type 0} (P : A → Type 0) (xs ys : List A) → All P (xs ++ ys) → All P xs
All-head P [] ys h = tt
All-head P (x ∷ xs) ys h = (h.0, All-head P xs ys h.1)

All-rest : {A : Type 0} (P : A → Type 0) (xs ys : List A) → All P (xs ++ ys) → All P ys
All-rest P [] ys h = h
All-rest P (x ∷ xs) ys h = All-rest P xs ys h.1

All-unmap :
    {A B : Type 0} (P : B → Type 0) (f : A → B) (xs : List A)
    → All P (map f xs)
    → All (λ x. P (f x)) xs
All-unmap P f [] h = tt
All-unmap P f (x ∷ xs) h = (h.0, All-unmap P f xs h.1)

-- The routes carry the ports that are sent for them.
pub record CarriesPorts (sent : List (String × ℕ)) (config : RouteConfig) : Type 0 where
  pub locals_carry : All (λ (r : DataChannel). r.envoy_port ≡ map_get sent r.name) config.locals
  pub internals_carry :
      All (λ (r : InternalRoute). r.envoy_port ≡ map_get sent (egress_key r)) config.internals

abbrev pub sending : Option (List (String × ℕ)) → RouteConfig → RouteConfig
sending o config = record config { port_allocations = o }

module _ (sent : List (String × ℕ)) (config : RouteConfig)
    (carried : CarriesPorts sent config) where
  abbrev derived : List (String × ℕ)
  derived = legacy_internals config.internals (legacy_locals config.locals [])

  derived-IsSame :
      All
        (λ (c : String × Option ℕ). IsSame derived sent c.0)
        (local_ports sent config.locals ++ egress_ports sent config.internals)
  derived-IsSame =
      let cs = local_ports sent config.locals ++ egress_ports sent config.internals in
      subst (λ m. All (λ (c : String × Option ℕ). IsSame m sent c.0) cs)
        (put_all-locals sent config.locals (egress_ports sent config.internals) []
          ∙ put_all-internals sent config.internals (legacy_locals config.locals []))
        (put_all-All sent cs []
          (All-append (Carries sent) (local_ports sent config.locals)
            (egress_ports sent config.internals)
            (All-map (Carries sent) _ config.locals carried.locals_carry)
            (All-map (Carries sent) _ config.internals carried.internals_carry))
          (λ k p h. absurd (none-some h)))
    where
      none-some : {p : ℕ} → none ≡ some p → ⊥
      none-some e = cc

  pub legacy-same :
      {W : Type 0} (env : Platform) (show : ℕ → String) (s : EnvoyRpcServer W)
      → build_xds_snapshot env (input_of env show (sending none config) s)
        ≡ build_xds_snapshot env (input_of env show (sending (some sent) config) s)
  legacy-same env show s =
      let ls = local_ports sent config.locals in
      let rs = egress_ports sent config.internals in
      let P = λ (c : String × Option ℕ). IsSame derived sent c.0 in
      build_xds_snapshot-same env (input_of env show (sending none config) s) derived sent
        (All-unmap P _ config.locals (All-head P ls rs derived-IsSame))
        (All-unmap P _ config.internals (All-rest P ls rs derived-IsSame))

-- If the routes of a configuration carry the ports that would be sent for them, then to send no
-- ports gives the same answer, the same calls of the watchers, and the same snapshot in the cache.
pub update_routes-legacy :
    {W : Type 0} (env : Platform) (show : ℕ → String) (sent : List (String × ℕ))
    (config : RouteConfig) (s : EnvoyRpcServer W)
    → CarriesPorts sent config
    → ((update_routes env show (some (sending none config)) s).1
        ≡ (update_routes env show (some (sending (some sent) config)) s).1)
      × ((update_routes env show (some (sending none config)) s).0.snapshot_cache
          ≡ (update_routes env show (some (sending (some sent) config)) s).0.snapshot_cache)
unfolding update_routes
update_routes-legacy env show sent config s carried = elim (Option-cases s.snapshot_cache) [
  | inl e ↦ ground (arith, e)
  | inr (cache, e) ↦
      elim (Option-cases
        (build_xds_snapshot env (input_of env show (sending (some sent) config) s))) [
          | inl f ↦ ground (arith, e, f, legacy-same sent config carried env show s)
          | inr (snapshot, f) ↦ ground (arith, e, f, legacy-same sent config carried env show s)
        ]
]
