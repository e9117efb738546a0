-- ===== src/Journal/Refinement.antt =====
-- The database answers as the log in memory does.
use catalyst_router.Prelude.{
  sym, ℕ, ◌+◌, ◌-◌, ◌<◌, String, Bool, ◌≡◌, refl, ap, ◌∙◌, List, [], ◌∷◌, Option, none, some, map,
  map-append, arith, filter, ltb, leb, length, All, All-append, All-filter,
}
use catalyst_router.Table.{RouteTable}
use catalyst_router.Action.{Action, action_type}
use catalyst_router.Journal.{
  Entry, Snapshot, ActionLog, empty_log, append, replay, last_of, last_seq, take_snapshot, prune,
}
use catalyst_router.Journal.Laws.{Ascends, Ascends-filter, Ascends-push, All-seq_mono, last_of-max}
use catalyst_router.Journal.Interface.{
  undated, memory_log, LogCall, LogAnswer, log_call, log_answers, call_append, call_replay,
  call_last_seq, call_snapshot, call_get_snapshot, call_prune, a_number, some_entries, a_snapshot,
}
use catalyst_router.Journal.Undated.{log_answers-undated}
use catalyst_router.Journal.Sqlite.{
  Json, Reads, Row, SnapshotRow, Database, empty_database, insert_row, order_by_seq, max_seq,
  sql_append, entries_of, sql_replay, sql_last_seq, sql_snapshot, sql_get_snapshot, sql_prune,
  sqlite_log,
}

-- Ascending numbers, all below the next.
pub record IsSequenced (log : ActionLog) : Type 0 where
  pub ascending : Ascends 0 log.entries
  pub below : All (λ e. e.seq < log.next_seq) log.entries
  pub positive : 0 < log.next_seq

log_call-IsSequenced :
    (stamp : ℕ → String) (k : LogCall) (log : ActionLog)
    → IsSequenced log
    → IsSequenced (log_call (memory_log stamp) k log).0
unfolding append take_snapshot prune
log_call-IsSequenced stamp (call_append action node_id at) log o = record {
  ascending = Ascends-push 0 log.next_seq log.entries _ o.ascending o.below o.positive refl;
  below =
      All-append (λ e. e.seq < log.next_seq + 1) log.entries _
        (All-seq_mono {m = log.next_seq} {n = log.next_seq + 1} log.entries (omega arith) o.below)
        (omega arith, tt);
  positive = omega arith;
}
log_call-IsSequenced stamp (call_replay after) log o = o
log_call-IsSequenced stamp call_last_seq log o = o
log_call-IsSequenced stamp (call_snapshot at_seq state at) log o = record {
  ascending = o.ascending;
  below = o.below;
  positive = o.positive;
}
log_call-IsSequenced stamp call_get_snapshot log o = o
log_call-IsSequenced stamp (call_prune before) log o = record {
  ascending = Ascends-filter (λ e. leb before e.seq) 0 log.entries o.ascending;
  below = All-filter (λ e. e.seq < log.next_seq) (λ e. leb before e.seq) log.entries o.below;
  positive = o.positive;
}

-- The database, and a log in memory with the texts that the database has for times.
module _ (stamp : ℕ → String) (actions : Json Action) (tables : Json RouteTable) where
  -- The database that holds a log.
  abbrev row_of : Entry → Row
  row_of e = record {
    seq = e.seq;
    recorded_at = e.recorded_at;
    action = action_type e.action;
    payload = actions.stringify e.action;
    node_id = e.node_id;
  }

  abbrev snapshot_row : Option Snapshot → Option SnapshotRow
  snapshot_row none = none
  snapshot_row (some s) =
      some
        (record { at_seq = s.at_seq; state_json = tables.stringify s.state; taken_at = s.taken_at })

  abbrev stored : ActionLog → Database
  stored log = record {
    action_log = map row_of log.entries;
    sequence = log.next_seq - 1;
    snapshot = snapshot_row log.snapshot;
  }

  filter-rows :
      (p : ℕ → Bool) (es : List Entry)
      → filter (λ r. p r.seq) (map row_of es) ≡ map row_of (filter (λ e. p e.seq) es)
  filter-rows p [] = refl
  filter-rows p (e ∷ es) = ground (arith, filter-rows p es)

  length-rows : (es : List Entry) → length (map row_of es) ≡ length es
  length-rows [] = refl
  length-rows (e ∷ es) = omega (arith, length-rows es)

  order-rows :
      (lo : ℕ) (es : List Entry) → Ascends lo es → order_by_seq (map row_of es) ≡ map row_of es
  order-rows lo [] a = refl
  order-rows lo (e ∷ []) a = refl
  order-rows lo (e ∷ d ∷ es) a =
      ap (insert_row (row_of e)) (order-rows e.seq (d ∷ es) a.1) ∙ ground arith

  -- The actions of entries, a snapshot's table and what a call writes can be read back.
  abbrev AllRead : List Entry → Type 0
  AllRead = All (λ e. Reads actions e.action)

  abbrev SnapshotReads : Option Snapshot → Type 0
  SnapshotReads none = Unit
  SnapshotReads (some s) = Reads tables s.state

  abbrev pub CallReads : LogCall → Type 0
  CallReads (call_append action node_id at) = Reads actions action
  CallReads (call_snapshot at_seq state at) = Reads tables state
  CallReads _ = Unit

  abbrev IsReadable : ActionLog → Type 0
  IsReadable log = AllRead log.entries × SnapshotReads log.snapshot

  log_call-IsReadable :
      (k : LogCall) (log : ActionLog)
      → CallReads k
      → IsReadable log
      → IsReadable (log_call (memory_log stamp) k log).0
  unfolding append take_snapshot prune
  log_call-IsReadable (call_append action node_id at) log q (es, s) =
      (All-append (λ e. Reads actions e.action) log.entries _ es (q, tt), s)
  log_call-IsReadable (call_replay after) log q h = h
  log_call-IsReadable call_last_seq log q h = h
  log_call-IsReadable (call_snapshot at_seq state at) log q (es, s) = (es, q)
  log_call-IsReadable call_get_snapshot log q h = h
  log_call-IsReadable (call_prune before) log q (es, s) =
      (All-filter (λ e. Reads actions e.action) (λ e. leb before e.seq) log.entries es, s)

  entries-rows :
      (es : List Entry) → AllRead es → entries_of stamp actions tables (map row_of es) ≡ some es
  entries-rows [] h = refl
  entries-rows (e ∷ es) h = rw (h.0, entries-rows es h.1) refl

  max-rows : (lo : ℕ) (es : List Entry) → Ascends lo es → max_seq (map row_of es) ≡ last_of es
  max-rows lo [] a = refl
  max-rows lo (e ∷ []) a = omega arith
  max-rows lo (e ∷ d ∷ es) a =
      let rest = max-rows e.seq (d ∷ es) a.1 in
      let top = last_of-max e.seq (d ∷ es) a.1 in omega (arith, rest, top.0)

  append-stored :
      (log : ActionLog) (action : Action) (node_id : String) (at : ℕ)
      → 0 < log.next_seq
      → sql_append stamp actions tables (stored log) action node_id at
        ≡ (stored (append log action node_id (stamp at)).0, log.next_seq)
  unfolding sql_append append
  append-stored log action node_id at h =
      let back : log.next_seq - 1 + 1 ≡ log.next_seq = omega arith in
      let next : log.next_seq + 1 - 1 ≡ log.next_seq = omega arith in
      rw
        (
          back,
          next,
          map-append row_of log.entries (
              record {
                seq = log.next_seq;
                action = action;
                node_id = node_id;
                recorded_at = stamp at;
              }
              ∷ []),
        )
        refl

  replay-stored :
      (log : ActionLog) (after : ℕ)
      → IsSequenced log
      → AllRead log.entries
      → sql_replay stamp actions tables (stored log) after ≡ some (replay log after)
  unfolding sql_replay replay
  replay-stored log after o h =
      ap (λ rs. entries_of stamp actions tables (order_by_seq rs))
        (filter-rows (λ n. ltb after n) log.entries)
      ∙ ap (entries_of stamp actions tables) (
          order-rows 0 (replay log after)
            (Ascends-filter (λ e. ltb after e.seq) 0 log.entries o.ascending))
      ∙ entries-rows (replay log after)
          (All-filter (λ e. Reads actions e.action) (λ e. ltb after e.seq) log.entries h)

  snapshot-stored :
      (snap : Option Snapshot) (db : Database)
      → db.snapshot ≡ snapshot_row snap
      → SnapshotReads snap
      → sql_get_snapshot stamp actions tables db ≡ some snap
  unfolding sql_get_snapshot
  snapshot-stored none db h q = rw h refl
  snapshot-stored (some s) db h q = rw (h, q) refl

  prune-stored :
      (log : ActionLog) (before : ℕ)
      → sql_prune stamp actions tables (stored log) before
        ≡ (stored (prune log before).0, (prune log before).1)
  unfolding sql_prune prune
  prune-stored log before =
      rw
        (
          filter-rows (λ n. leb before n) log.entries,
          length-rows log.entries,
          length-rows (filter (λ e. leb before e.seq) log.entries),
        )
        refl

  abbrev counted : Database × ℕ → Database × LogAnswer
  counted (db, n) = (db, a_number n)

  -- A call of the database that holds a log leaves the database that holds the log after the call,
  -- and the answer is the same.
  log_call-stored :
      (k : LogCall) (log : ActionLog)
      → IsSequenced log
      → IsReadable log
      → log_call (sqlite_log stamp actions tables) k (stored log)
        ≡ (stored (log_call (memory_log stamp) k log).0, (log_call (memory_log stamp) k log).1)
  unfolding sqlite_log append take_snapshot prune last_seq sql_last_seq sql_snapshot
  log_call-stored (call_append action node_id at) log o h =
      ap counted (append-stored log action node_id at o.positive)
  log_call-stored (call_replay after) log o h =
      ap (λ es. (stored log, some_entries es)) (replay-stored log after o h.0)
  log_call-stored call_last_seq log o h =
      ap (λ n. (stored log, a_number n)) (max-rows 0 log.entries o.ascending)
  log_call-stored (call_snapshot at_seq state at) log o h = refl
  log_call-stored call_get_snapshot log o h =
      ap (λ r. (stored log, a_snapshot r)) (snapshot-stored log.snapshot (stored log) refl h.1)
  log_call-stored (call_prune before) log o h = ap counted (prune-stored log before)

  answers-stored :
      (ks : List LogCall) (log : ActionLog)
      → All CallReads ks
      → IsSequenced log
      → IsReadable log
      → log_answers (sqlite_log stamp actions tables) ks (stored log)
        ≡ log_answers (memory_log stamp) ks log
  answers-stored [] log q o h = refl
  answers-stored (k ∷ ks) log q o h =
      let step = log_call-stored k log o h in
      ap
        (λ (out : Database × LogAnswer).
          out.1 ∷ log_answers (sqlite_log stamp actions tables) ks out.0)
        step
      ∙ ap (◌∷◌ (log_call (memory_log stamp) k log).1) (
          answers-stored ks (log_call (memory_log stamp) k log).0 q.1
            (log_call-IsSequenced stamp k log o) (log_call-IsReadable k log q.0 h))

-- If `JSON.parse` reads what `JSON.stringify` writes of the actions and tables in some calls, then a
-- new log in a database and a new log in memory, whatever texts each of them has for times, give
-- the same answers to the calls but for these texts: the numbers, the entries of each replay and
-- their order, the snapshots, and how many entries a pruning removes; and no read of the database
-- throws.
pub sqlite_log-refines :
    (strftime to_iso_string : ℕ → String) (actions : Json Action) (tables : Json RouteTable)
    (ks : List LogCall)
    → All (CallReads strftime actions tables) ks
    → map undated (log_answers (sqlite_log strftime actions tables) ks empty_database)
      ≡ map undated (log_answers (memory_log to_iso_string) ks empty_log)
unfolding empty_database empty_log
sqlite_log-refines strftime to_iso_string actions tables ks q =
    ap (map undated) (
      answers-stored strftime actions tables ks empty_log q
        (record { ascending = tt; below = tt; positive = omega arith }) (tt, tt))
    ∙ sym (log_answers-undated strftime ks empty_log)
    ∙ log_answers-undated to_iso_string ks empty_log
