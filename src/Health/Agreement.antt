-- ===== src/Health/Agreement.antt =====
-- The table and the checks: what the checks dispatch keeps the two alike, and only that.
use catalyst_router.Prelude.{
  String, true, false, ◌≡◌, refl, sym, ap, ◌∙◌, List, [], ◌∷◌, ◌++◌, Option, none, some, arith, map,
  filter, find_index, includes, inl, inr, Bool-cases, Option-cases, ◌==◌, string_key, ==_eq,
  ==_refl, lookup, lookup-set, lookup-none, subst, find_index-find, find_index-none, find_index-key,
  if◌then◌else◌,
}
use catalyst_router.Table.{DataChannel, HealthStatus, up, down, RouteTable, new_state}
use catalyst_router.Action.{HealthUpdate}
use catalyst_router.Rib.Local.{
  plan_local_route_health_update, channel_named, health_unchanged, with_health, opt_eq, same_health,
}
use catalyst_router.Health.{
  AdapterHealth, HealthMap, get_health, Checker, measured, same_status, is_news, update_of,
  check_one, check_each, current, check_all,
}

-- The table after the updates of some checks.
abbrev pub tell : List HealthUpdate → RouteTable → RouteTable
tell [] table = table
tell (u ∷ us) table = tell us (new_state (plan_local_route_health_update u table))

abbrev pub status_in : Option AdapterHealth → Option HealthStatus
status_in none = none
status_in (some h) = some h.health_status

abbrev route_name : DataChannel → String
route_name r = r.name

abbrev route_of : RouteTable → String → Option DataChannel
route_of table name = lookup route_name name table.local_routes

abbrev pub HasStatus : Option DataChannel → Option AdapterHealth → Type 0
HasStatus none h = Unit
HasStatus (some r) h = r.health_status ≡ status_in h

-- Under every name that has a route, the table has the status that the checks have.
abbrev pub Agree : HealthMap → RouteTable → Type 0
Agree m table = (name : String) → HasStatus (route_of table name) (get_health m name)

same_status-eq : (a b : HealthStatus) → same_status a b ≡ true → a ≡ b
same_status-eq up up h = refl
same_status-eq up down h = absurd (ground arith)
same_status-eq down up h = absurd (ground arith)
same_status-eq down down h = refl

same_health-eq : (a b : HealthStatus) → same_health a b ≡ true → a ≡ b
same_health-eq up up h = refl
same_health-eq up down h = absurd (ground arith)
same_health-eq down up h = absurd (ground arith)
same_health-eq down down h = refl

opt_eq-some :
    (o : Option HealthStatus) (a : HealthStatus) → opt_eq same_health o a ≡ true → o ≡ some a
opt_eq-some none a h = absurd (ground arith)
opt_eq-some (some b) a h = ap some (same_health-eq b a h)

abbrev pub after_update : HealthUpdate → RouteTable → RouteTable
after_update u table = new_state (plan_local_route_health_update u table)

-- An update leaves the routes under other names.
route_of-other :
    (u : HealthUpdate) (table : RouteTable) (name : String)
    → (u.name == name) ≡ false
    → route_of (after_update u table) name ≡ route_of table name
unfolding plan_local_route_health_update
route_of-other u table name n =
    elim (Option-cases (find_index (channel_named u.name) table.local_routes)) [
      | inl e ↦ rw (e, plan_local_route_health_update) refl
      | inr ((i, r), e) ↦ elim (Bool-cases (health_unchanged r u)) [
        | inl same ↦ rw (e, same, plan_local_route_health_update) refl
        | inr news ↦
            rw (e, news, plan_local_route_health_update)
              (lookup-set route_name u.name name table.local_routes (with_health r u) e
                  (find_index-key route_name u.name table.local_routes e)
                ∙ ap (λ b. if b then some (with_health r u) else route_of table name) n)
      ]
    ]

-- And gives the route under its own name its status.
route_of-own :
    (u : HealthUpdate) (table : RouteTable) (h : Option AdapterHealth)
    → status_in h ≡ some u.health_status
    → HasStatus (route_of (after_update u table) u.name) h
unfolding plan_local_route_health_update
route_of-own u table h s =
    elim (Option-cases (find_index (channel_named u.name) table.local_routes)) [
      | inl e ↦
          let absent = find_index-none route_name (channel_named u.name) table.local_routes e in
          rw (e, absent, plan_local_route_health_update) tt
      | inr ((i, r), e) ↦ elim (Bool-cases (health_unchanged r u)) [
        | inl same ↦
            let found = find_index-find route_name (channel_named u.name) table.local_routes e in
            let old : r.health_status ≡ some u.health_status =
              opt_eq-some r.health_status u.health_status (ground arith) in
            rw (e, same, found, plan_local_route_health_update) (old ∙ sym s)
        | inr news ↦
            let written =
              lookup-set route_name u.name u.name table.local_routes (with_health r u) e
                (find_index-key route_name u.name table.local_routes e) in
            rw (e, news, written, ==_refl u.name, plan_local_route_health_update) (sym s)
      ]
    ]

HasStatus-same :
    (r : Option DataChannel) (g h : Option AdapterHealth)
    → status_in g ≡ status_in h
    → HasStatus r g
    → HasStatus r h
HasStatus-same none g h e s = tt
HasStatus-same (some r) g h e s = s ∙ e

-- A status that is no news is the one before.
is_news-status :
    (old : Option AdapterHealth) (h : AdapterHealth)
    → is_news old h ≡ false
    → status_in old ≡ some h.health_status
is_news-status none h n = absurd (ground arith)
is_news-status (some old) h n =
    ap some (same_status-eq old.health_status h.health_status (ground arith))

pub check_one-Agree :
    (c : Checker) (r : DataChannel) (m : HealthMap) (table : RouteTable)
    → c.has_dispatch ≡ true
    → Agree m table
    → Agree (check_one c r m).0 (tell (check_one c r m).1 table)
unfolding check_one
check_one-Agree c r m table d a name =
    let h = measured c r in
    elim (Bool-cases (is_news (get_health m r.name) h)) [
      | inl news ↦ elim (Bool-cases (r.name == name)) [
        | inl own ↦
            rw (news, d, own, sym (==_eq r.name name own))
              (route_of-own (update_of r.name h) table (some h) refl)
        | inr other ↦
            rw (news, d, other, route_of-other (update_of r.name h) table name other) (a name)
      ]
      | inr old ↦ elim (Bool-cases (r.name == name)) [
        | inl own ↦
            rw (old, d, own)
              (HasStatus-same (route_of table name) (get_health m name) (some h)
                (ap (λ n. status_in (get_health m n)) (sym (==_eq r.name name own))
                  ∙ is_news-status (get_health m r.name) h old)
                (a name))
        | inr other ↦ rw (old, d, other) (a name)
      ]
    ]

pub tell-append :
    (us vs : List HealthUpdate) (table : RouteTable)
    → tell (us ++ vs) table ≡ tell vs (tell us table)
tell-append [] vs table = refl
tell-append (u ∷ us) vs table = tell-append us vs (after_update u table)

check_each-Agree :
    (c : Checker) (rs : List DataChannel) (m : HealthMap) (table : RouteTable)
    → c.has_dispatch ≡ true
    → Agree m table
    → Agree (check_each c rs m).0 (tell (check_each c rs m).1 table)
unfolding check_each
check_each-Agree c [] m table d a = a
check_each-Agree c (r ∷ rs) m table d a =
    let (next, told) = check_one c r m in
    let rest = check_each-Agree c rs next (tell told table) d (check_one-Agree c r m table d a) in
    subst (λ t. Agree (check_each c rs next).0 t)
      (sym (tell-append told (check_each c rs next).1 table)) rest

-- What is kept of the map is what it has under the names of the routes.
get_health-current :
    (names : List String) (m : HealthMap) (name : String)
    → includes names name ≡ true
    → get_health (filter (λ e. includes names e.0) m) name ≡ get_health m name
get_health-current names [] name h = refl
get_health-current names (e ∷ m) name h =
    ground (arith, get_health-current names m name, ==_eq e.0 name)

pub current-Agree :
    (m : HealthMap) (table : RouteTable)
    → Agree m table
    → Agree (current table.local_routes m) table
current-Agree m table a name =
    elim (Bool-cases (includes (map route_name table.local_routes) name)) [
      | inl there ↦
          HasStatus-same (route_of table name) (get_health m name) _
            (ap status_in
              (sym (get_health-current (map route_name table.local_routes) m name there)))
            (a name)
      | inr gone ↦
          subst (λ r. HasStatus r (get_health (current table.local_routes m) name))
            (sym (lookup-none route_name name table.local_routes gone)) tt
    ]

-- Let a round of checks of all local routes dispatch what it finds, and let the table take the
-- updates in. If before the round every route had the status that the checks had noted under its
-- name, none where nothing was noted, then it is so after the round.
pub check_all-Agree :
    (c : Checker) (m : HealthMap) (table : RouteTable)
    → c.has_dispatch ≡ true
    → Agree m table
    → Agree (check_all c table.local_routes m).0 (tell (check_all c table.local_routes m).1 table)
unfolding check_all
check_all-Agree c m table d a =
    check_each-Agree c table.local_routes (current table.local_routes m) table d
      (current-Agree m table a)
