-- ===== src/Recovery.antt =====
-- apps/orchestrator/src/v2/compaction.ts, and the recovery of the table from the log in the
-- constructor of service.ts. The log is the one of `Journal`, which has no `vacuum`.
mod Tests
pub mod History
pub mod Service
pub mod Divergence
pub mod Timer
use catalyst_router.Prelude.{
  ℕ, suc, String, Bool, true, false, ◌+◌, ◌-◌, List, [], ◌∷◌, Option, none, some, ltb, nat_beq, max,
  if◌then◌else◌,
}
use catalyst_router.Table.{RouteTable, new_route_table, new_state, PlanResult}
use catalyst_router.Rib.Machine.{plan, state_changed}
use catalyst_router.Journal.{Entry, Snapshot, ActionLog, replay, last_seq, take_snapshot, prune}

pub data CompactionResult : Type 0 where
  empty_journal : CompactionResult
  too_few : (entries_since_snapshot : ℕ) → CompactionResult
  compacted : (snapshot_at_seq pruned : ℕ) → CompactionResult

-- `existingSnapshot ? lastSeq - existingSnapshot.atSeq : lastSeq`; in a log in order the snapshot is
-- not above the last entry unless pruning took them all.
abbrev pub entries_since : ℕ → Option Snapshot → ℕ
entries_since last none = last
entries_since last (some s) = last - s.at_seq

-- `compact`, with the thresholds `min_entries` and `tail_size`.
unfoldable pub compact :
    (min_entries tail_size : ℕ) → ActionLog → RouteTable → String → ActionLog × CompactionResult
compact min_entries tail_size journal state stamp =
    let last = last_seq journal in
    let since = entries_since last journal.snapshot in
    let snapped = take_snapshot journal last state stamp in
    let (pruned_log, pruned) = prune snapped (max 1 (last + 1 - tail_size)) in
    if nat_beq last 0
    then (journal, empty_journal)
    else (if ltb since min_entries
        then (journal, too_few since)
        else (pruned_log, compacted last pruned))

-- One entry of the replay: the plan is committed if it changes the state. `plan` reads the clock, which
-- is `now`, the time of the restart; it is taken to stand still during the replay.
abbrev pub replay_entry : ℕ → String → Entry → RouteTable → RouteTable
replay_entry now node_id e state =
    let p = plan now node_id e.action state in if state_changed p then new_state p else state

unfoldable pub replay_entries : ℕ → String → List Entry → RouteTable → RouteTable
replay_entries now node_id [] state = state
replay_entries now node_id (e ∷ es) state =
    replay_entries now node_id es (replay_entry now node_id e state)

abbrev pub replay_start : Option Snapshot → ℕ
replay_start none = 0
replay_start (some s) = s.at_seq

abbrev pub start_state : Option Snapshot → RouteTable
start_state none = new_route_table
start_state (some s) = s.state

-- Snapshot first, then the entries after it.
unfoldable pub recover : ℕ → String → ActionLog → RouteTable
unfolding replay_entries
recover now node_id journal =
    replay_entries now node_id (replay journal (replay_start journal.snapshot))
      (start_state journal.snapshot)
