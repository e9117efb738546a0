-- ===== src/Recovery/History.antt =====
-- What recovery gives, in terms of what happened to the node: the table of the last compaction and
-- the actions that were recorded since.
use catalyst_router.Prelude.{
  Bool-cases, inl, inr, ap, sym, ◌∙◌, map, map-append, nat_beq, ltb, ℕ, String, ◌+◌, ◌-◌, ◌≤◌, ◌<◌,
  ◌≡◌, refl, List, [], ◌∷◌, ◌++◌, arith, max,
}
use catalyst_router.Table.{RouteTable, new_route_table, new_state}
use catalyst_router.Action.{Action}
use catalyst_router.Rib.Machine.{plan, state_changed, run}
use catalyst_router.Rib.Previous.{plan-unchanged}
use catalyst_router.Journal.{
  Entry, ActionLog, empty_log, append, replay, last_seq, take_snapshot, prune,
}
use catalyst_router.Journal.Laws.{
  IsOrdered, append-IsOrdered, take_snapshot-IsOrdered, prune-IsOrdered, replay-prune,
  replay-last_seq, replay-append, empty_log-IsOrdered, replay-take_snapshot, append-snapshot,
  prune-snapshot,
}
use catalyst_router.Recovery.{
  CompactionResult, compacted, entries_since, compact, replay_entry, replay_entries, replay_start,
  recover,
}

replay_entries-append :
    (now : ℕ) (node_id : String) (es : List Entry) (e : Entry) (s : RouteTable)
    → replay_entries now node_id (es ++ e ∷ []) s
      ≡ replay_entry now node_id e (replay_entries now node_id es s)
unfolding replay_entries
replay_entries-append now node_id [] e s = refl
replay_entries-append now node_id (d ∷ es) e s =
    replay_entries-append now node_id es e (replay_entry now node_id d s)

module _ (now : ℕ) (node_id : String) where
  covered-start : (log : ActionLog) → IsOrdered log → replay_start log.snapshot < log.next_seq
  covered-start log o = ground (arith, o.covered)

  append-recover :
      (log : ActionLog) (action : Action) (stamp : String)
      → IsOrdered log
      → recover now node_id (append log action node_id stamp).0
        ≡ replay_entry now node_id
            (record { seq = log.next_seq; action = action; node_id = node_id; recorded_at = stamp })
            (recover now node_id log)
  unfolding recover
  append-recover log action stamp o =
      rw
        (
          append-snapshot log action node_id stamp,
          replay-append log action node_id stamp _ (covered-start log o),
        )
        (replay_entries-append now node_id (replay log (replay_start log.snapshot)) _ _)

  snapshot-recover :
      (log : ActionLog) (state : RouteTable) (stamp : String) (before : ℕ)
      → IsOrdered log
      → before ≤ last_seq log + 1
      → recover now node_id (prune (take_snapshot log (last_seq log) state stamp) before).0 ≡ state
  unfolding recover
  snapshot-recover log state stamp before o h = rw (
    prune-snapshot log (last_seq log) state stamp before,
    replay-prune (take_snapshot log (last_seq log) state stamp) before (last_seq log) h,
    replay-take_snapshot log (last_seq log) (last_seq log) state stamp,
    replay-last_seq log o,
  )

-- What a log stands for: the table of the last compaction, and the actions that were recorded since,
-- each with a time.
pub record Past : Type 0 where
  pub base : RouteTable
  pub since : List (ℕ × Action)

abbrev pub lived : String → Past → RouteTable
lived node_id past = run node_id past.since past.base

abbrev pub retime : ℕ → ℕ × Action → ℕ × Action
retime now e = (now, e.1)

-- The same actions, all at one time.
abbrev pub retimed : ℕ → Past → Past
retimed now past = record past { since = map (retime now) past.since }

abbrev pub recorded : ℕ → Action → Past → Past
recorded at action past = record past { since = past.since ++ (at, action) ∷ [] }

-- At every time recovery from the log plans the actions at that time.
pub record Faithful (node_id : String) (log : ActionLog) (past : Past) : Type 0 where
  pub ordered : IsOrdered log
  pub recovered : (now : ℕ) → recover now node_id log ≡ lived node_id (retimed now past)

pub run-append :
    (node_id : String) (es : List (ℕ × Action)) (at : ℕ) (action : Action) (s : RouteTable)
    → run node_id (es ++ (at, action) ∷ []) s
      ≡ new_state (plan at node_id action (run node_id es s))
unfolding run
run-append node_id [] at action s = refl
run-append node_id ((t, a) ∷ es) at action s =
    run-append node_id es at action (new_state (plan t node_id a s))

replay_entry-table :
    (now : ℕ) (node_id : String) (e : Entry) (state : RouteTable)
    → replay_entry now node_id e state ≡ new_state (plan now node_id e.action state)
replay_entry-table now node_id e state =
    elim (Bool-cases (state_changed (plan now node_id e.action state))) [
      | inl changed ↦ rw changed
      | inr idle ↦ rw idle (sym (plan-unchanged now node_id e.action state idle))
    ]

-- What an entry adds to recovery.
pub append-table :
    (now : ℕ) (node_id : String) (log : ActionLog) (action : Action) (stamp : String)
    → IsOrdered log
    → recover now node_id (append log action node_id stamp).0
      ≡ new_state (plan now node_id action (recover now node_id log))
append-table now node_id log action stamp o =
    append-recover now node_id log action stamp o
    ∙ replay_entry-table now node_id
        (record { seq = log.next_seq; action = action; node_id = node_id; recorded_at = stamp })
        (recover now node_id log)

retimed-recorded :
    (now at : ℕ) (node_id : String) (action : Action) (past : Past)
    → lived node_id (retimed now (recorded at action past))
      ≡ new_state (plan now node_id action (lived node_id (retimed now past)))
retimed-recorded now at node_id action past =
    ap (λ es. run node_id es past.base) (map-append (retime now) past.since ((at, action) ∷ []))
    ∙ run-append node_id (map (retime now) past.since) now action past.base

module _ (node_id : String) where
  pub append-Faithful :
      (at : ℕ) (action : Action) (stamp : String) (log : ActionLog) (past : Past)
      → Faithful node_id log past
      → Faithful node_id (append log action node_id stamp).0 (recorded at action past)
  append-Faithful at action stamp log past f = record {
    ordered = append-IsOrdered log action node_id stamp f.ordered;
    recovered = λ now.
        append-table now node_id log action stamp f.ordered
        ∙ ap (λ t. new_state (plan now node_id action t)) (f.recovered now)
        ∙ sym (retimed-recorded now at node_id action past);
  }

  snapped-Faithful :
      (log : ActionLog) (state : RouteTable) (stamp : String) (tail_size : ℕ) (past : Past)
      → Faithful node_id log past
      → Faithful node_id
          (prune
            (take_snapshot log (last_seq log) state stamp)
            (max 1 (last_seq log + 1 - tail_size))).0
          (record { base = state; since = [] })
  unfolding run
  snapped-Faithful log state stamp tail_size past f =
      let before = max 1 (last_seq log + 1 - tail_size) in
      record {
        ordered =
            prune-IsOrdered (take_snapshot log (last_seq log) state stamp) before
              (take_snapshot-IsOrdered log state stamp f.ordered);
        recovered =
            λ now. snapshot-recover now node_id log state stamp before f.ordered (omega arith);
      }

  -- What a compaction makes of the past.
  abbrev pub compacted_past : CompactionResult → RouteTable → Past → Past
  compacted_past (compacted at_seq pruned) state past = record { base = state; since = [] }
  compacted_past _ state past = past

  pub compact-Faithful :
      (min_entries tail_size : ℕ) (log : ActionLog) (state : RouteTable) (stamp : String)
      (past : Past)
      → Faithful node_id log past
      → Faithful node_id
          (compact min_entries tail_size log state stamp).0
          (compacted_past (compact min_entries tail_size log state stamp).1 state past)
  unfolding compact
  compact-Faithful min_entries tail_size log state stamp past f =
      elim (Bool-cases (nat_beq (last_seq log) 0)) [
        | inl empty ↦ rw (empty, compact) f
        | inr some_there ↦
            elim (Bool-cases (ltb (entries_since (last_seq log) log.snapshot) min_entries)) [
              | inl few ↦ rw (some_there, few, compact) f
              | inr enough ↦
                  rw (some_there, enough, compact)
                    (snapped-Faithful log state stamp tail_size past f)
            ]
      ]

-- A new log with a new table.
pub empty-Faithful :
    (node_id : String) → Faithful node_id empty_log (record { base = new_route_table; since = [] })
unfolding recover empty_log replay run
empty-Faithful node_id = record { ordered = empty_log-IsOrdered; recovered = λ now. refl }
