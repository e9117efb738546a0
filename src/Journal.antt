-- ===== src/Journal.antt =====
-- packages/routing/src/v2/journal/in-memory-action-log.ts and action-log.ts: the log of committed
-- actions with its snapshot; and `commit` of rib/rib.ts, which writes to it. A time stamp
-- (`new Date().toISOString()`) is an argument.
pub mod Laws
pub mod Interface
pub mod Sqlite
mod Undated
mod Refinement
mod Tests
use catalyst_router.Prelude.{
  ℕ, suc, String, ◌+◌, ◌-◌, List, [], ◌∷◌, ◌++◌, Option, none, some, filter, length, ltb, leb,
  if◌then◌else◌,
}
use catalyst_router.Table.{RouteTable, PlanResult, new_state}
use catalyst_router.Action.{Action}
use catalyst_router.Rib.Machine.{state_changed}

pub record Entry : Type 0 where
  pub seq : ℕ
  pub action : Action
  pub node_id : String
  pub recorded_at : String

pub record Snapshot : Type 0 where
  pub at_seq : ℕ
  pub state : RouteTable
  pub taken_at : String

pub record ActionLog : Type 0 where
  pub entries : List Entry
  pub next_seq : ℕ
  pub snapshot : Option Snapshot

unfoldable pub empty_log : ActionLog
empty_log = record { entries = []; next_seq = 1; snapshot = none }

unfoldable pub append : ActionLog → Action → String → String → ActionLog × ℕ
append log action node_id stamp = (
  record log {
    entries =
        log.entries
        ++ record { seq = log.next_seq; action = action; node_id = node_id; recorded_at = stamp }
          ∷ [];
    next_seq = log.next_seq + 1;
  },
  log.next_seq,
)

unfoldable pub replay : ActionLog → ℕ → List Entry
replay log after_seq = filter (λ e. ltb after_seq e.seq) log.entries

abbrev pub last_of : List Entry → ℕ
last_of [] = 0
last_of (e ∷ []) = e.seq
last_of (e ∷ d ∷ es) = last_of (d ∷ es)

unfoldable pub last_seq : ActionLog → ℕ
last_seq log = last_of log.entries

unfoldable pub take_snapshot : ActionLog → ℕ → RouteTable → String → ActionLog
take_snapshot log at_seq state stamp = record log {
  snapshot = some (record { at_seq = at_seq; state = state; taken_at = stamp });
}

unfoldable pub prune : ActionLog → ℕ → ActionLog × ℕ
prune log before_seq =
    let kept = filter (λ e. leb before_seq e.seq) log.entries in
    (record log { entries = kept }, length log.entries - length kept)

-- `RoutingInformationBase`: the table, and the log if there is one.
pub record RibState : Type 0 where
  pub table : RouteTable
  pub journal : Option ActionLog

abbrev pub journal_action : Option ActionLog → Action → String → String → Option ActionLog
journal_action none action node_id stamp = none
journal_action (some log) action node_id stamp = some (append log action node_id stamp).0

unfoldable pub commit : RibState → PlanResult → Action → String → String → RibState
unfolding append
commit rib plan action node_id stamp = record {
  table = new_state plan;
  journal =
      if state_changed plan then journal_action rib.journal action node_id stamp else rib.journal;
}
