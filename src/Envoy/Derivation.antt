-- ===== src/Envoy/Derivation.antt =====
-- The ports that apps/envoy/src/rpc/server.ts derives from routes, against a map that holds them, and
-- what a snapshot reads of the ports (apps/envoy/src/xds/resources.ts).
use catalyst_router.Prelude.{
  ℕ, zero, suc, String, ◌≡◌, refl, ap, ◌∙◌, List, [], ◌∷◌, ◌++◌, none, some, Option, inl, inr, All,
  arith, string_key, ==_eq, ==_refl, Option-cases, map,
}
use catalyst_router.Table.{DataChannel, InternalRoute}
use catalyst_router.Ports.{map_get}
use catalyst_router.Ports.Entries.{map_get-map_set_any}
use catalyst_router.Bus.Allocation.{egress_key}
use catalyst_router.Envoy.Resources.{Platform}
use catalyst_router.Envoy.Snapshot.{
  SnapshotInput, Resources, given_port, given_text, add_local, add_internal, add_locals,
  add_internals, build_xds_snapshot,
}
use catalyst_router.Envoy.Server.{set_given, legacy_locals, legacy_internals}

-- What is derived is what is sent, and it is all of it for the keys of the routes.
abbrev pub IsPart : (derived sent : List (String × ℕ)) → Type 0
IsPart derived sent = (k : String) (p : ℕ) → map_get derived k ≡ some p → map_get sent k ≡ some p

abbrev pub IsSame : (derived sent : List (String × ℕ)) → String → Type 0
IsSame derived sent k = given_port (map_get derived k) ≡ given_port (map_get sent k)

module _ (sent : List (String × ℕ)) where
  abbrev put : List (String × ℕ) → String → Option ℕ → List (String × ℕ)
  put m key o = set_given m key (given_port o)

  put-IsPart :
      (m : List (String × ℕ)) (key : String) (o : Option ℕ)
      → o ≡ map_get sent key
      → IsPart m sent
      → IsPart (put m key o) sent
  put-IsPart m key none e part k p h = part k p h
  put-IsPart m key (some zero) e part k p h = part k p h
  put-IsPart m key (some (suc n)) e part k p h =
      ground (arith, map_get-map_set_any m key k (suc n), h, part k p, e, ==_eq key k)

  put-IsSame :
      (m : List (String × ℕ)) (key : String) (o : Option ℕ) (k : String)
      → o ≡ map_get sent key
      → IsSame m sent k
      → IsSame (put m key o) sent k
  put-IsSame m key none k e same = same
  put-IsSame m key (some zero) k e same = same
  put-IsSame m key (some (suc n)) k e same =
      ground (arith, map_get-map_set_any m key k (suc n), same, e, ==_eq key k)

  put-here :
      (m : List (String × ℕ)) (key : String) (o : Option ℕ)
      → o ≡ map_get sent key
      → IsPart m sent
      → IsSame (put m key o) sent key
  put-here m key none e part = elim (Option-cases (map_get m key)) [
    | inl f ↦ ground (arith, e, f)
    | inr (p, f) ↦ ground (arith, e, f, part key p f)
  ]
  put-here m key (some zero) e part = elim (Option-cases (map_get m key)) [
    | inl f ↦ ground (arith, e, f)
    | inr (p, f) ↦ ground (arith, e, f, part key p f)
  ]
  put-here m key (some (suc n)) e part =
      ground (arith, map_get-map_set_any m key key (suc n), e, ==_refl key)

  -- Both loops, on the keys of the routes and the ports that they carry.
  pub put_all : List (String × Option ℕ) → List (String × ℕ) → List (String × ℕ)
  put_all [] m = m
  put_all ((key, o) ∷ rest) m = put_all rest (put m key o)

  abbrev pub Carries : String × Option ℕ → Type 0
  Carries c = c.1 ≡ map_get sent c.0

  put_all-IsSame :
      (cs : List (String × Option ℕ)) (m : List (String × ℕ)) (k : String)
      → All Carries cs
      → IsSame m sent k
      → IsSame (put_all cs m) sent k
  unfolding put_all
  put_all-IsSame [] m k c same = same
  put_all-IsSame ((key, o) ∷ cs) m k c same =
      put_all-IsSame cs (put m key o) k c.1 (put-IsSame m key o k c.0 same)

  pub put_all-All :
      (cs : List (String × Option ℕ)) (m : List (String × ℕ))
      → All Carries cs
      → IsPart m sent
      → All (λ (c : String × Option ℕ). IsSame (put_all cs m) sent c.0) cs
  unfolding put_all
  put_all-All [] m c part = tt
  put_all-All ((key, o) ∷ cs) m c part = (
    put_all-IsSame cs (put m key o) key c.1 (put-here m key o c.0 part),
    put_all-All cs (put m key o) c.1 (put-IsPart m key o c.0 part),
  )

  abbrev pub local_ports : List DataChannel → List (String × Option ℕ)
  local_ports = map (λ r. (r.name, r.envoy_port))

  abbrev pub egress_ports : List InternalRoute → List (String × Option ℕ)
  egress_ports = map (λ r. (egress_key r, r.envoy_port))

  pub put_all-locals :
      (ls : List DataChannel) (cs : List (String × Option ℕ)) (m : List (String × ℕ))
      → put_all (local_ports ls ++ cs) m ≡ put_all cs (legacy_locals ls m)
  unfolding put_all legacy_locals
  put_all-locals [] cs m = refl
  put_all-locals (r ∷ ls) cs m = put_all-locals ls cs (put m r.name r.envoy_port)

  pub put_all-internals :
      (rs : List InternalRoute) (m : List (String × ℕ))
      → put_all (egress_ports rs) m ≡ legacy_internals rs m
  unfolding put_all legacy_internals
  put_all-internals [] m = refl
  put_all-internals (r ∷ rs) m = put_all-internals rs (put m (egress_key r) r.envoy_port)

-- An input that differs in the ports only.
abbrev pub with_ports : SnapshotInput → List (String × ℕ) → SnapshotInput
with_ports input m = record input { port_allocations = m }

module _ (env : Platform) (input : SnapshotInput) (m n : List (String × ℕ)) where
  add_local-same :
      (r : DataChannel) (done : Resources)
      → IsSame m n r.name
      → add_local env (with_ports input m) r done ≡ add_local env (with_ports input n) r done
  unfolding add_local
  add_local-same r done h = elim (Option-cases (given_text r.endpoint)) [
    | inl e ↦ ground (arith, e)
    | inr (endpoint, e) ↦ ground (arith, e, h)
  ]

  add_locals-same :
      (rs : List DataChannel) (done : Resources)
      → All (λ (r : DataChannel). IsSame m n r.name) rs
      → add_locals env (with_ports input m) rs done ≡ add_locals env (with_ports input n) rs done
  unfolding add_locals
  add_locals-same [] done h = refl
  add_locals-same (r ∷ rs) done h =
      elim (Option-cases (add_local env (with_ports input n) r done)) [
        | inl e ↦ ground (arith, add_local-same r done h.0, e)
        | inr (next, e) ↦ ground (arith, add_local-same r done h.0, e, add_locals-same rs next h.1)
      ]

  add_internal-same :
      (r : InternalRoute) (done : Resources)
      → IsSame m n (egress_key r)
      → add_internal env (with_ports input m) r done ≡ add_internal env (with_ports input n) r done
  unfolding add_internal
  add_internal-same r done h = elim (Option-cases (given_port r.envoy_port)) [
    | inl e ↦ ground (arith, e)
    | inr (p, e) ↦ elim (Option-cases (given_text r.peer.envoy_address)) [
      | inl f ↦ ground (arith, e, f)
      | inr (at, f) ↦ ground (arith, e, f, h)
    ]
  ]

  add_internals-same :
      (rs : List InternalRoute) (done : Resources)
      → All (λ (r : InternalRoute). IsSame m n (egress_key r)) rs
      → add_internals env (with_ports input m) rs done
        ≡ add_internals env (with_ports input n) rs done
  unfolding add_internals
  add_internals-same [] done h = refl
  add_internals-same (r ∷ rs) done h =
      ap (add_internals env (with_ports input m) rs) (add_internal-same r done h.0)
      ∙ add_internals-same rs (add_internal env (with_ports input n) r done) h.1

  pub build_xds_snapshot-same :
      All (λ (r : DataChannel). IsSame m n r.name) input.locals
      → All (λ (r : InternalRoute). IsSame m n (egress_key r)) input.internals
      → build_xds_snapshot env (with_ports input m) ≡ build_xds_snapshot env (with_ports input n)
  unfolding build_xds_snapshot
  build_xds_snapshot-same l h =
      let empty : Resources = record { pushed_listeners = []; pushed_clusters = [] } in
      elim (Option-cases (add_locals env (with_ports input n) input.locals empty)) [
        | inl e ↦ ground (arith, add_locals-same input.locals empty l, e)
        | inr (done, e) ↦ ground (
          arith,
          add_locals-same input.locals empty l,
          e,
          add_internals-same input.internals done h,
        )
      ]
