-- ===== src/Health/Telling.antt =====
-- What the updates of the health checks leave of the local routes: their names; and that they read no
-- other part of the table.
use catalyst_router.Prelude.{
  Option-cases, find_index, List, [], ◌∷◌, map, ◌≡◌, refl, sym, ap, ◌∙◌, subst, inl, inr,
  Bool-cases, Distinct, string_key,
}
use catalyst_router.Table.{RouteTable}
use catalyst_router.Action.{HealthUpdate}
use catalyst_router.Rib.Invariant.{channel_name}
use catalyst_router.Rib.Local.{channel_named, health_unchanged, plan_local_route_health_update}
use catalyst_router.Rib.Preservation.{health_update-names}
use catalyst_router.Health.Agreement.{after_update, tell}

pub tell-names :
    (us : List HealthUpdate) (table : RouteTable)
    → map channel_name (tell us table).local_routes ≡ map channel_name table.local_routes
tell-names [] table = refl
tell-names (u ∷ us) table = tell-names us (after_update u table) ∙ health_update-names u table

-- What updates make of the local routes depends on them alone.
abbrev bare : RouteTable → RouteTable
bare table = record { local_routes = table.local_routes; peers = []; internal_routes = [] }

bare-routes :
    (u : HealthUpdate) (table : RouteTable)
    → (after_update u table).local_routes ≡ (after_update u (bare table)).local_routes
unfolding plan_local_route_health_update
bare-routes u table = elim (Option-cases (find_index (channel_named u.name) table.local_routes)) [
  | inl e ↦ rw (e, plan_local_route_health_update) refl
  | inr ((i, r), e) ↦ elim (Bool-cases (health_unchanged r u)) [
    | inl same ↦ rw (e, same, plan_local_route_health_update) refl
    | inr news ↦ rw (e, news, plan_local_route_health_update) refl
  ]
]

after_update-routes :
    (u : HealthUpdate) (a b : RouteTable)
    → a.local_routes ≡ b.local_routes
    → (after_update u a).local_routes ≡ (after_update u b).local_routes
after_update-routes u a b e =
    bare-routes u a
    ∙ ap
        (λ rs.
          (after_update u
            (record { local_routes = rs; peers = []; internal_routes = [] })).local_routes)
        e
    ∙ sym (bare-routes u b)

pub tell-routes :
    (us : List HealthUpdate) (a b : RouteTable)
    → a.local_routes ≡ b.local_routes
    → (tell us a).local_routes ≡ (tell us b).local_routes
tell-routes [] a b e = e
tell-routes (u ∷ us) a b e =
    tell-routes us (after_update u a) (after_update u b) (after_update-routes u a b e)

pub tell-Distinct :
    (us : List HealthUpdate) (table : RouteTable)
    → Distinct (map channel_name table.local_routes)
    → Distinct (map channel_name (tell us table).local_routes)
tell-Distinct us table d = subst Distinct (sym (tell-names us table)) d
