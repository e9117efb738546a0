-- ===== src/Envoy/Cache.antt =====
-- apps/envoy/src/xds/snapshot-cache.ts. A watcher is the callback, compared as a `Set` does; who is
-- called is a list, in order. A callback that throws is caught, and callbacks that subscribe or
-- unsubscribe while they are called are outside of the model.
use catalyst_router.Prelude.{
  not, ◌&&◌, ◌||◌, ap, ◌≡◌, refl, List, [], ◌∷◌, ◌++◌, Option, none, some, map, includes, Key, ◌==◌,
  arith, Bool-cases, inl, inr, ==_eq, ==_refl,
}
use catalyst_router.Ports.{set_add, set_delete}
use catalyst_router.Envoy.Snapshot.{XdsSnapshot}

pub record SnapshotCache (W : Type 0) : Type 0 where
  pub current : Option XdsSnapshot
  pub watchers : List W

abbrev pub create_snapshot_cache : {W : Type 0} → SnapshotCache W
create_snapshot_cache = record { current = none; watchers = [] }

-- The cache, and the calls: who is called with what.
unfoldable pub set_snapshot :
    {W : Type 0} → SnapshotCache W → XdsSnapshot → SnapshotCache W × List (W × XdsSnapshot)
set_snapshot cache snapshot = (
  record { current = some snapshot; watchers = cache.watchers },
  map (λ w. (w, snapshot)) cache.watchers,
)

module _ {W : Type 0} ⦃e : Key W⦄ where
  abbrev pub watch : SnapshotCache W → W → SnapshotCache W
  watch cache w = record { current = cache.current; watchers = set_add cache.watchers w }

  -- The function that `watch` returns.
  abbrev pub unwatch : SnapshotCache W → W → SnapshotCache W
  unwatch cache w = record { current = cache.current; watchers = set_delete cache.watchers w }

  abbrev pub notified : SnapshotCache W → XdsSnapshot → List W
  notified cache snapshot = map (λ (call : W × XdsSnapshot). call.0) (set_snapshot cache snapshot).1

  includes-calls :
      (ws : List W) (s : XdsSnapshot) (v : W)
      → includes (map (λ (call : W × XdsSnapshot). call.0) (map (λ w. (w, s)) ws)) v ≡ includes ws v
  includes-calls [] s v = refl
  includes-calls (w ∷ ws) s v = ap (λ b. w == v || b) (includes-calls ws s v)

  pub includes-push : (ws : List W) (w v : W) → includes (ws ++ w ∷ []) v ≡ includes ws v || w == v
  includes-push [] w v = ground arith
  includes-push (x ∷ ws) w v = ground (arith, includes-push ws w v)

  includes-add : (ws : List W) (w v : W) → includes (set_add ws w) v ≡ includes ws v || w == v
  includes-add ws w v = elim (Bool-cases (includes ws w)) [
    | inl h ↦ elim (Bool-cases (w == v)) [
      | inl k ↦ ground (arith, ==_eq w v k, h)
      | inr k ↦ ground arith
    ]
    | inr h ↦ ground (arith, includes-push ws w v)
  ]

  includes-delete :
      (ws : List W) (w v : W) → includes (set_delete ws w) v ≡ includes ws v && not (v == w)
  includes-delete [] w v = refl
  includes-delete (x ∷ ws) w v = elim (Bool-cases (x == v)) [
    | inl h ↦ elim (Bool-cases (x == w)) [
      | inl k ↦ ground (arith, ==_eq x v h, ==_eq x w k, ==_refl v, includes-delete ws w v)
      | inr k ↦ ground (arith, ==_eq x v h, includes-delete ws w v)
    ]
    | inr h ↦ ground (arith, includes-delete ws w v)
  ]

  -- A snapshot that is set is the current one, and it reaches exactly the watchers: after `watch`
  -- those of before and the new one, after an unsubscription those of before without that one.
  pub set_snapshot-notified :
      (cache : SnapshotCache W) (w v : W) (s : XdsSnapshot)
      → ((set_snapshot cache s).0.current ≡ some s)
        × ((includes (notified (watch cache w) s) v ≡ includes (notified cache s) v || w == v)
            × (includes (notified (unwatch cache w) s) v
                ≡ includes (notified cache s) v && not (v == w)))
  unfolding set_snapshot
  set_snapshot-notified cache w v s = ground (
    arith,
    includes-calls cache.watchers s v,
    includes-calls (set_add cache.watchers w) s v,
    includes-calls (set_delete cache.watchers w) s v,
    includes-add cache.watchers w v,
    includes-delete cache.watchers w v,
  )
