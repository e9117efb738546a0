-- ===== src/Bus/Outcome.antt =====
-- The outcomes of a dispatch: what it keeps, what it changes, and when it changes nothing.
use catalyst_router.Prelude.{
  Bool, true, false, ◌≡◌, refl, List, Option, none, some, inl, inr, Bool-cases, if◌then◌else◌,
}
use catalyst_router.Table.{PlanResult, new_state}
use catalyst_router.Action.{Action}
use catalyst_router.Rib.Machine.{plan, state_changed}
use catalyst_router.Rib.Invariant.{IsValid}
use catalyst_router.Rib.Preservation.{plan-IsValid}
use catalyst_router.Journal.{commit, journal_action}
use catalyst_router.Ports.{PortEntry, Allocator}
use catalyst_router.Ports.Laws.{IsBalanced}
use catalyst_router.Bus.Config.{Config}
use catalyst_router.Bus.Allocation.{plan_port_allocations}
use catalyst_router.Bus.Propagation.{apply_inbound_policy}
use catalyst_router.Bus.Stamping.{allocate_ports-IsBalanced, allocate_ports-IsValid}
use catalyst_router.Bus.Dispatch.{
  Bus, World, Outcome, StateResult, succeeded, dispatch, complete, unchanged, planned, is_refused,
}

abbrev pub PoolIsBalanced : List PortEntry → Option Allocator → Type 0
PoolIsBalanced entries none = Unit
PoolIsBalanced entries (some a) = IsBalanced entries a

-- A bus with a valid table and a balanced pool.
pub record IsSound (c : Config) (entries : List PortEntry) (bus : Bus) : Type 0 where
  pub table : IsValid c.node_name bus.rib.table
  pub pool : PoolIsBalanced entries bus.port_allocator

module _ (c : Config) (entries : List PortEntry) where
  allocations-IsSound :
      (p : PlanResult) (a : Option Allocator)
      → IsValid c.node_name (new_state p)
      → PoolIsBalanced entries a
      → IsValid c.node_name (new_state (plan_port_allocations p a).0)
        × PoolIsBalanced entries (plan_port_allocations p a).1
  unfolding plan_port_allocations
  allocations-IsSound p none v b = (v, tt)
  allocations-IsSound p (some a) v b =
      (allocate_ports-IsValid c.node_name p a v, allocate_ports-IsBalanced entries p a b)

  complete-IsSound :
      (w : World) (action : Action) (p : PlanResult) (bus : Bus)
      → IsValid c.node_name (new_state p)
      → PoolIsBalanced entries bus.port_allocator
      → IsSound c entries (complete c w action p bus).0
  unfolding complete commit
  complete-IsSound w action p bus v b =
      let done = allocations-IsSound p bus.port_allocator v b in
      record { table = done.0; pool = done.1 }

  planned-IsSound :
      (w : World) (action : Action) (filtered : Option Action) (bus : Bus)
      → IsSound c entries bus
      → IsSound c entries (planned c w action filtered bus).0
  unfolding unchanged
  planned-IsSound w action none bus s = s
  planned-IsSound w action (some filtered) bus s =
      let p = plan w.clock c.node_name filtered bus.rib.table in
      elim (Bool-cases (state_changed p)) [
        | inl yes_changed ↦ rw yes_changed (
            complete-IsSound w action p bus
              (plan-IsValid w.clock c.node_name filtered bus.rib.table s.table) s.pool)
        | inr idle ↦ rw idle (record { table = s.table; pool = s.pool })
      ]

-- Every dispatch, with any policy, clock and deliveries, keeps the table valid and the pool of ports
-- balanced.
pub dispatch-IsSound :
    (c : Config) (entries : List PortEntry) (w : World) (action : Action) (bus : Bus)
    → IsSound c entries bus
    → IsSound c entries (dispatch c w action bus).0
unfolding dispatch
dispatch-IsSound c entries w action bus s = elim (Bool-cases (is_refused c action)) [
  | inl refused ↦ rw (refused, dispatch) s
  | inr fine ↦
      rw (fine, dispatch)
        (planned-IsSound c entries w action (apply_inbound_policy c bus.rib.table action) bus s)
]

abbrev pub is_success : StateResult → Bool
is_success (succeeded state action) = true
is_success _ = false

allocations-changed :
    (p : PlanResult) (a : Option Allocator)
    → state_changed p ≡ true
    → state_changed (plan_port_allocations p a).0 ≡ true
unfolding plan_port_allocations
allocations-changed p none h = h
allocations-changed p (some a) h = refl

-- The effect of an outcome on the table, the log and the allocator.
abbrev Records : Config → World → Action → Bus → Outcome → Type 0
Records c w action bus r =
    (r.0.rib.journal ≡ (
      if is_success r.1
      then journal_action bus.rib.journal action c.node_name w.stamp
      else bus.rib.journal))
    × ((if is_success r.1 then bus.rib.table else r.0.rib.table) ≡ bus.rib.table)
    × ((if is_success r.1 then bus.port_allocator else r.0.port_allocator) ≡ bus.port_allocator)

planned-Records :
    (c : Config) (w : World) (action : Action) (filtered : Option Action) (bus : Bus)
    → Records c w action bus (planned c w action filtered bus)
unfolding unchanged complete commit
planned-Records c w action none bus = (refl, refl, refl)
planned-Records c w action (some filtered) bus =
    let p = plan w.clock c.node_name filtered bus.rib.table in
    elim (Bool-cases (state_changed p)) [
      | inl yes_changed ↦
          rw (yes_changed, allocations-changed p bus.port_allocator yes_changed) (refl, refl, refl)
      | inr idle ↦ rw idle (refl, refl, refl)
    ]

-- A dispatch appends the action to the log exactly when it succeeds, once; one that fails leaves the
-- table and the allocator as well as the log.
pub dispatch-records :
    (c : Config) (w : World) (action : Action) (bus : Bus)
    → ((dispatch c w action bus).0.rib.journal ≡ (
        if is_success (dispatch c w action bus).1
        then journal_action bus.rib.journal action c.node_name w.stamp
        else bus.rib.journal))
      × ((if is_success (dispatch c w action bus).1
            then bus.rib.table
            else (dispatch c w action bus).0.rib.table)
          ≡ bus.rib.table)
      × ((if is_success (dispatch c w action bus).1
            then bus.port_allocator
            else (dispatch c w action bus).0.port_allocator)
          ≡ bus.port_allocator)
unfolding dispatch
dispatch-records c w action bus = elim (Bool-cases (is_refused c action)) [
  | inl refused ↦ rw (refused, dispatch) (refl, refl, refl)
  | inr fine ↦
      rw (fine, dispatch)
        (planned-Records c w action (apply_inbound_policy c bus.rib.table action) bus)
]
