-- ===== src/Health.antt =====
-- apps/orchestrator/src/v2/adapter-health.ts: the checks of the services behind the local routes. The
-- URL of a check, its outcome and the time are arguments. The checks of one round, which overlap, are
-- taken one after another here, where each reads and writes the entry of its route only, and in any
-- order in Health/Rounds.
mod Agreement
mod Overlap
mod Rounds
mod Shown
mod Telling
mod Tests
use catalyst_router.Prelude.{
  ℕ, String, Bool, true, false, not, ◌&&◌, List, [], ◌∷◌, ◌++◌, Option, none, some, map, filter,
  find, includes, if◌then◌else◌, ◌==◌, string_key,
}
use catalyst_router.Table.{
  DataChannel, Protocol, http, http_graphql, http_gql, http_grpc, tcp, HealthStatus, up, down,
}
use catalyst_router.Action.{HealthUpdate}

pub record AdapterHealth : Type 0 where
  pub health_status : HealthStatus
  pub response_time_ms : Option ℕ
  pub last_checked : String

-- `healthMap`; of two entries with one name the first counts.
abbrev pub HealthMap : Type 0
HealthMap = List (String × AdapterHealth)

abbrev pub named_entry : String → String × AdapterHealth → Bool
named_entry name e = e.0 == name

abbrev value_of : Option (String × AdapterHealth) → Option AdapterHealth
value_of none = none
value_of (some e) = some e.1

-- `getHealth`
abbrev pub get_health : HealthMap → String → Option AdapterHealth
get_health m name = value_of (find (named_entry name) m)

-- What a request for a health URL comes to: an answer that is ok, or any other, or none.
pub data Probed : Type 0 where
  ok_after : (elapsed_ms : ℕ) → Probed
  not_ok : Probed

pub record Checker : Type 0 where
  pub build_health_url : String → Option String
  pub fetch : String → Probed
  pub stamp : String
  pub has_dispatch : Bool

abbrev pub is_http_protocol : Protocol → Bool
is_http_protocol tcp = false
is_http_protocol _ = true

abbrev pub health_at : Checker → HealthStatus → Option ℕ → AdapterHealth
health_at c status ms = record {
  health_status = status;
  response_time_ms = ms;
  last_checked = c.stamp;
}

abbrev of_probe : Checker → Probed → AdapterHealth
of_probe c (ok_after ms) = health_at c up (some ms)
of_probe c not_ok = health_at c down none

abbrev at_url : Checker → Option String → AdapterHealth
at_url c none = health_at c down none
at_url c (some url) = of_probe c (c.fetch url)

abbrev at_endpoint : Checker → DataChannel → Option String → AdapterHealth
at_endpoint c route none = health_at c down none
at_endpoint c route (some endpoint) =
    if endpoint == ""
    then health_at c down none
    else (if is_http_protocol route.protocol
        then at_url c (c.build_health_url endpoint)
        else health_at c down none)

-- What `checkOne` finds out of a route.
abbrev pub measured : Checker → DataChannel → AdapterHealth
measured c route = at_endpoint c route route.endpoint

abbrev pub same_status : HealthStatus → HealthStatus → Bool
same_status up up = true
same_status down down = true
same_status _ _ = false

abbrev pub is_news : Option AdapterHealth → AdapterHealth → Bool
is_news none h = true
is_news (some old) h = not (same_status old.health_status h.health_status)

abbrev pub update_of : String → AdapterHealth → HealthUpdate
update_of name h = record {
  name = name;
  health_status = h.health_status;
  response_time_ms = h.response_time_ms;
  last_checked = h.last_checked;
}

-- `maybeDispatch`
abbrev pub maybe_dispatch :
    Checker → String → Option AdapterHealth → AdapterHealth → List HealthUpdate
maybe_dispatch c name old h = if c.has_dispatch && is_news old h then update_of name h ∷ [] else []

-- `checkOne`: the map, and the action that is dispatched.
unfoldable pub check_one : Checker → DataChannel → HealthMap → HealthMap × List HealthUpdate
check_one c route m =
    let h = measured c route in
    ((route.name, h) ∷ m, maybe_dispatch c route.name (get_health m route.name) h)

unfoldable pub check_each : Checker → List DataChannel → HealthMap → HealthMap × List HealthUpdate
check_each c [] m = (m, [])
check_each c (r ∷ rs) m =
    let (next, told) = check_one c r m in
    let (last, more) = check_each c rs next in (last, told ++ more)

-- The entries of routes that are gone are dropped.
abbrev pub current : List DataChannel → HealthMap → HealthMap
current routes m = filter (λ e. includes (map (λ r. r.name) routes) e.0) m

-- `checkAll`
unfoldable pub check_all : Checker → List DataChannel → HealthMap → HealthMap × List HealthUpdate
unfolding check_each check_one
check_all c routes m = check_each c routes (current routes m)

abbrev pub shown : DataChannel → Option AdapterHealth → DataChannel
shown route none = route
shown route (some h) = record route {
  health_status = some h.health_status;
  response_time_ms = some h.response_time_ms;
  last_checked = some h.last_checked;
}

-- `applyHealth`
unfoldable pub apply_health : HealthMap → List DataChannel → List DataChannel
apply_health m routes = map (λ r. shown r (get_health m r.name)) routes
