-- ===== src/Health/Rounds.antt =====
-- The interval of apps/orchestrator/src/v2/adapter-health.ts and its rounds, whose checks end in any
-- order, as a step relation.
use catalyst_router.Prelude.{
  ℕ, Bool, true, false, List, [], ◌∷◌, ◌++◌, ◌-◌, ◌<◌, suc, Option, map, nat_beq, ◌≡◌,
  if◌then◌else◌,
}
use catalyst_router.Table.{DataChannel, RouteTable}
use catalyst_router.Action.{HealthUpdate}
use catalyst_router.Health.{
  AdapterHealth, HealthMap, get_health, Checker, measured, maybe_dispatch, current,
}
use catalyst_router.Health.Agreement.{tell, after_update}

-- A check that has not ended, with what was noted of the route when it began. One that needs no
-- request ends as soon as it has begun, which is one of the orders.
pub record Pending : Type 0 where
  pub route : DataChannel
  pub noted : Option AdapterHealth

-- `has_interval` tells whether `interval` is set; `intervals` are those that are not cleared, of
-- which `interval` is the last. `rounds` are the calls of `checkAll` that have not ended.
pub record Monitor : Type 0 where
  pub interval_ms : ℕ
  pub has_interval : Bool
  pub intervals : ℕ
  pub running : Bool
  pub health : HealthMap
  pub rounds : List (List Pending)

-- `start`
abbrev pub start_checks : Monitor → Monitor
start_checks m =
    if nat_beq m.interval_ms 0
    then m
    else record m { has_interval = true; intervals = suc m.intervals }

-- `stop`
abbrev pub stop_checks : Monitor → Monitor
stop_checks m =
    if m.has_interval then record m { has_interval = false; intervals = m.intervals - 1 } else m

abbrev pub pending_of : HealthMap → DataChannel → Pending
pending_of health r = record { route = r; noted = get_health health r.name }

-- `checkAll` up to the first answer: every check begins.
abbrev pub begin_round : List DataChannel → Monitor → Monitor
begin_round routes m =
    let health = current routes m.health in
    record m {
      running = true;
      health = health;
      rounds = m.rounds ++ map (pending_of health) routes ∷ [];
    }

-- What the interval runs.
unfoldable pub interval_fires : List DataChannel → Monitor → Monitor
interval_fires routes m = if m.running then m else begin_round routes m

-- The end of a check: what it notes, and what it dispatches.
abbrev pub note : Checker → Pending → HealthMap → HealthMap
note c p health = (p.route.name, measured c p.route) ∷ health

abbrev pub told : Checker → Pending → List HealthUpdate
told c p = maybe_dispatch c p.route.name p.noted (measured c p.route)

-- The checker, the updates that it has dispatched and that wait in the queue of the bus, and the table
-- of the node.
pub record Watch : Type 0 where
  pub monitor : Monitor
  pub queue : List HealthUpdate
  pub table : RouteTable

abbrev pub on_monitor : (Monitor → Monitor) → Watch → Watch
on_monitor f x = record x { monitor = f x.monitor }

-- The table once the updates that wait are in.
abbrev pub settled : Watch → RouteTable
settled x = tell x.queue x.table

-- A check of one of the rounds ends: it notes what it found and dispatches it, without waiting for the
-- bus.
abbrev pub end_check : Checker → Pending → List (List Pending) → Watch → Watch
end_check c p rounds x = record {
  monitor = record x.monitor { health = note c p x.monitor.health; rounds = rounds };
  queue = x.queue ++ told c p;
  table = x.table;
}

-- The `finally` of `checkAll`.
abbrev pub end_round : List (List Pending) → Watch → Watch
end_round rounds x = on_monitor (λ m. record m { running = false; rounds = rounds }) x

pub data Step : Watch → Watch → Type 0 where
  started : (x : Watch) → Step x (on_monitor start_checks x)
  stopped : (x : Watch) → Step x (on_monitor stop_checks x)
  fired :
      (x : Watch)
      → 0 < x.monitor.intervals
      → Step x (on_monitor (interval_fires x.table.local_routes) x)
  answered :
      (x : Watch) (c : Checker) (before after : List (List Pending)) (ps qs : List Pending)
      (p : Pending)
      → c.has_dispatch ≡ true
      → x.monitor.rounds ≡ before ++ (ps ++ p ∷ qs) ∷ after
      → Step x (end_check c p (before ++ (ps ++ qs) ∷ after) x)
  ended :
      (x : Watch) (before after : List (List Pending))
      → x.monitor.rounds ≡ before ++ [] ∷ after
      → Step x (end_round (before ++ after) x)
  -- The bus comes to an update.
  taken_in :
      (x : Watch) (u : HealthUpdate) (us : List HealthUpdate)
      → x.queue ≡ u ∷ us
      → Step x (record x { queue = us; table = after_update u x.table })
  -- And to any other action, after which the local routes are as before.
  peers_changed :
      (x : Watch) (table : RouteTable)
      → table.local_routes ≡ x.table.local_routes
      → Step x (record x { table = table })

pub data Reaches (x : Watch) : Watch → Type 0 where
  here : Reaches x x
  after : {y z : Watch} → Reaches x y → Step y z → Reaches x z
