-- ===== src/Journal/Tests.antt =====
-- A log that is written, compacted and written again.
use catalyst_router.Prelude.{
  ℕ, String, map, ◌≡◌, refl, List, [], ◌∷◌, none, some, if◌then◌else◌, ◌==◌, string_key,
}
use catalyst_router.Table.{RouteTable}
use catalyst_router.Action.{Action, action_type, local_route_create}
use catalyst_router.Samples.{books, linked}
use catalyst_router.Journal.{empty_log}
use catalyst_router.Journal.Interface.{
  memory_log, undated, LogCall, log_answers, call_append, call_replay, call_last_seq, call_snapshot,
  call_get_snapshot, call_prune,
}
use catalyst_router.Journal.Sqlite.{Json, empty_database, sqlite_log}
use catalyst_router.Journal.Refinement.{sqlite_log-refines}

-- Texts for the one action and the one table of these calls.
abbrev actions : Json Action
actions = record {
  stringify = action_type;
  parse = λ text. if text == "local:route:create" then some (local_route_create books) else none;
}

abbrev tables : Json RouteTable
tables = record {
  stringify = λ state. "linked";
  parse = λ text. if text == "linked" then some linked else none;
}

abbrev compaction : List LogCall
compaction =
    call_append (local_route_create books) "node-a" 1
    ∷ call_append (local_route_create books) "node-a" 2
    ∷ call_last_seq
    ∷ call_snapshot 2 linked 3
    ∷ call_prune 2
    ∷ call_append (local_route_create books) "node-a" 4
    ∷ call_get_snapshot
    ∷ call_replay 2
    ∷ []

-- Both texts of a time.
abbrev without_zone : ℕ → String
without_zone at = "2026-01-01T00:00:00.000"

abbrev with_zone : ℕ → String
with_zone at = "2026-01-01T00:00:00.000Z"

sqlite_log-refines_example :
    map undated (log_answers (sqlite_log without_zone actions tables) compaction empty_database)
    ≡ map undated (log_answers (memory_log with_zone) compaction empty_log)
sqlite_log-refines_example =
    sqlite_log-refines without_zone with_zone actions tables compaction
      (refl, (refl, (tt, (refl, (tt, (refl, (tt, (tt, tt))))))))
