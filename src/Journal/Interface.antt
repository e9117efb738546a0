-- ===== src/Journal/Interface.antt =====
-- packages/routing/src/v2/journal/action-log.ts: what every log of actions offers, and the in-memory
-- log as one. `at` is the time at which an entry or a snapshot is written, in milliseconds.
use catalyst_router.Prelude.{ℕ, String, List, [], ◌∷◌, Option, none, some, map}
use catalyst_router.Table.{RouteTable}
use catalyst_router.Action.{Action}
use catalyst_router.Journal.{
  Entry, Snapshot, ActionLog, append, replay, last_seq, take_snapshot, prune,
}

-- A log whose state is an `S`; `none` is an exception.
pub record LogApi {ℓ} (S : Type ℓ) : Type ℓ where
  pub append_action : S → Action → String → ℕ → S × ℕ
  pub replay_after : S → ℕ → Option (List Entry)
  pub last_number : S → ℕ
  pub write_snapshot : S → ℕ → RouteTable → ℕ → S
  pub get_snapshot : S → Option (Option Snapshot)
  pub prune_before : S → ℕ → S × ℕ

-- `InMemoryActionLog`; `to_iso_string` is the text of a time, which ends in `Z`.
abbrev pub memory_log : (ℕ → String) → LogApi ActionLog
memory_log to_iso_string = record {
  append_action = λ log action node_id at. append log action node_id (to_iso_string at);
  replay_after = λ log after. some (replay log after);
  last_number = last_seq;
  write_snapshot = λ log at_seq state at. take_snapshot log at_seq state (to_iso_string at);
  get_snapshot = λ log. some log.snapshot;
  prune_before = prune;
}

-- A call of a log, and its answer.
pub data LogCall : Type 0 where
  call_append : Action → (node_id : String) → (at : ℕ) → LogCall
  call_replay : (after_seq : ℕ) → LogCall
  call_last_seq : LogCall
  call_snapshot : (at_seq : ℕ) → RouteTable → (at : ℕ) → LogCall
  call_get_snapshot : LogCall
  call_prune : (before_seq : ℕ) → LogCall

pub data LogAnswer : Type 0 where
  a_number : ℕ → LogAnswer
  some_entries : Option (List Entry) → LogAnswer
  a_snapshot : Option (Option Snapshot) → LogAnswer
  nothing : LogAnswer

module _ {ℓ} {S : Type ℓ} (log : LogApi S) where
  abbrev numbered : S × ℕ → S × LogAnswer
  numbered (s, n) = (s, a_number n)

  abbrev pub log_call : LogCall → S → S × LogAnswer
  log_call (call_append action node_id at) s = numbered (log.append_action s action node_id at)
  log_call (call_replay after) s = (s, some_entries (log.replay_after s after))
  log_call call_last_seq s = (s, a_number (log.last_number s))
  log_call (call_snapshot at_seq state at) s = (log.write_snapshot s at_seq state at, nothing)
  log_call call_get_snapshot s = (s, a_snapshot (log.get_snapshot s))
  log_call (call_prune before) s = numbered (log.prune_before s before)

  -- What a user of the log sees.
  abbrev pub log_answers : List LogCall → S → List LogAnswer
  log_answers [] s = []
  log_answers (k ∷ ks) s = (log_call k s).1 ∷ log_answers ks (log_call k s).0

-- An answer without the texts of the times.
abbrev pub undated_entry : Entry → Entry
undated_entry e = record e { recorded_at = "" }

abbrev pub undated_snapshot : Option Snapshot → Option Snapshot
undated_snapshot none = none
undated_snapshot (some s) = some (record s { taken_at = "" })

abbrev undated_entries : Option (List Entry) → Option (List Entry)
undated_entries none = none
undated_entries (some es) = some (map undated_entry es)

abbrev undated_read : Option (Option Snapshot) → Option (Option Snapshot)
undated_read none = none
undated_read (some s) = some (undated_snapshot s)

abbrev pub undated : LogAnswer → LogAnswer
undated (a_number n) = a_number n
undated (some_entries es) = some_entries (undated_entries es)
undated (a_snapshot s) = a_snapshot (undated_read s)
undated nothing = nothing
