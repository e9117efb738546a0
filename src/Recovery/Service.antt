-- ===== src/Recovery/Service.antt =====
-- A node over its whole life, as service.ts composes it: dispatches of the bus, compactions of the
-- log, and restarts that recover the table. The node has no port allocator and no route policy.
use catalyst_router.Prelude.{
  map, sym, ◌∙◌, Option, if◌then◌else◌, ℕ, String, Bool, true, ◌≡◌, refl, ap, List, [], ◌∷◌, none,
  some, arith, inl, inr, Bool-cases,
}
use catalyst_router.Table.{new_state, RouteTable, PeerRecord, new_route_table}
use catalyst_router.Action.{Action, internal_protocol_update}
use catalyst_router.Rib.Machine.{plan, state_changed, run}
use catalyst_router.Journal.{ActionLog, append, empty_log, commit}
use catalyst_router.Journal.Laws.{IsOrdered}
use catalyst_router.Bus.Config.{Config}
use catalyst_router.Bus.Allocation.{plan_port_allocations}
use catalyst_router.Bus.Propagation.{apply_inbound_policy}
use catalyst_router.Bus.Dispatch.{
  Outcome, Bus, World, dispatch, planned, complete, unchanged, is_refused,
}
use catalyst_router.Recovery.{CompactionResult, empty_journal, too_few, compacted, compact, recover}
use catalyst_router.Bus.Outcome.{is_success}
use catalyst_router.Recovery.History.{
  Past, lived, retime, retimed, recorded, Faithful, append-Faithful, compacted_past,
  compact-Faithful, empty-Faithful, run-append,
}

abbrev pub journal_log : Option ActionLog → ActionLog
journal_log none = empty_log
journal_log (some log) = log

abbrev pub log_of : Bus → ActionLog
log_of bus = journal_log bus.rib.journal

-- What happens to a node, and when.
pub data Event : Type 0 where
  dispatched : Action → (at : ℕ) → (stamp : String) → (delivers : PeerRecord → Bool) → Event
  compacts : (min_entries tail_size : ℕ) → (stamp : String) → Event
  restarts : (at : ℕ) → Event

-- The bus on a log, with nothing else in memory.
abbrev pub boot : RouteTable → ActionLog → Bus
boot table log = record {
  rib = record { table = table; journal = some log };
  port_allocator = none;
  last_keepalive_sent = [];
}

abbrev world_at : ℕ → String → (PeerRecord → Bool) → World
world_at at stamp delivers = record { clock = at; stamp = stamp; delivers = delivers }

unfoldable pub step : Config → Event → Bus → Bus
step c (dispatched action at stamp delivers) bus =
    (dispatch c (world_at at stamp delivers) action bus).0
step c (compacts min_entries tail_size stamp) bus = record bus {
  rib = record {
    table = bus.rib.table;
    journal = some (compact min_entries tail_size (log_of bus) bus.rib.table stamp).0;
  };
}
step c (restarts at) bus = boot (recover at c.node_name (log_of bus)) (log_of bus)

-- What is to be remembered of an event on a bus: an action that a dispatch succeeds with, at its time;
-- the table of a compaction that is not skipped, in place of all before it; and a restart, which makes
-- its own time that of all actions since.
pub remember : Config → Event → Bus → Past → Past
remember c (dispatched action at stamp delivers) bus past =
    if is_success (dispatch c (world_at at stamp delivers) action bus).1
    then recorded at action past
    else past
remember c (compacts min_entries tail_size stamp) bus past =
    compacted_past c.node_name (compact min_entries tail_size (log_of bus) bus.rib.table stamp).1
      bus.rib.table past
remember c (restarts at) bus past = retimed at past

unfoldable pub history : Config → List Event → Bus → Bus
history c [] bus = bus
history c (e ∷ es) bus = history c es (step c e bus)

pub remembered : Config → List Event → Bus → Past → Past
remembered c [] bus past = past
remembered c (e ∷ es) bus past = remembered c es (step c e bus) (remember c e bus past)

abbrev pub new_node : Bus
new_node = boot new_route_table empty_log

abbrev pub new_past : Past
new_past = record { base = new_route_table; since = [] }

-- The bus writes to a log that stands for the past, of which the table is what was lived.
record IsRecoverable (c : Config) (bus : Bus) (past : Past) : Type 0 where
  log : ActionLog
  journal : bus.rib.journal ≡ some log
  pool : bus.port_allocator ≡ none
  faithful : Faithful c.node_name log past
  table : bus.rib.table ≡ lived c.node_name past

-- With no policy every action passes.
apply_inbound_policy-none :
    (c : Config) (state : RouteTable) (action : Action)
    → c.route_policy ≡ none
    → apply_inbound_policy c state action ≡ some action
unfolding apply_inbound_policy
apply_inbound_policy-none c state (internal_protocol_update d) h = ground arith
apply_inbound_policy-none c state _ h = refl

map-again :
    (now at : ℕ) (es : List (ℕ × Action))
    → map (retime now) (map (retime at) es) ≡ map (retime now) es
map-again now at [] = refl
map-again now at (e ∷ es) = ap (λ rest. retime now e ∷ rest) (map-again now at es)

module _ (c : Config) where
  -- The past after a dispatch with a result.
  abbrev past_after : ℕ → Action → Outcome → Past → Past
  past_after at action out past = if is_success out.1 then recorded at action past else past

  complete-IsRecoverable :
      (w : World) (action : Action) (bus : Bus) (past : Past) (v : IsRecoverable c bus past)
      → state_changed (plan w.clock c.node_name action bus.rib.table) ≡ true
      → IsRecoverable c
          (complete c w action (plan w.clock c.node_name action bus.rib.table) bus).0
          (recorded w.clock action past)
  unfolding complete commit plan_port_allocations
  complete-IsRecoverable w action bus past v changed = record {
    log = (append v.log action c.node_name w.stamp).0;
    journal = rw (v.pool, plan_port_allocations) (rw (changed, v.journal));
    pool = rw (v.pool, plan_port_allocations);
    faithful = append-Faithful c.node_name w.clock action w.stamp v.log past v.faithful;
    table =
        rw (v.pool, plan_port_allocations)
          (ap (λ t. new_state (plan w.clock c.node_name action t)) v.table
            ∙ sym (run-append c.node_name past.since w.clock action past.base));
  }

  planned-IsRecoverable :
      (w : World) (action : Action) (bus : Bus) (past : Past)
      → IsRecoverable c bus past
      → IsRecoverable c
          (planned c w action (some action) bus).0
          (past_after w.clock action (planned c w action (some action) bus) past)
  unfolding unchanged complete
  planned-IsRecoverable w action bus past v =
      elim (Bool-cases (state_changed (plan w.clock c.node_name action bus.rib.table))) [
        | inl changed ↦ rw changed (complete-IsRecoverable w action bus past v changed)
        | inr idle ↦ rw idle (record {
          log = v.log;
          journal = v.journal;
          pool = v.pool;
          faithful = v.faithful;
          table = v.table;
        })
      ]

  dispatch-IsRecoverable :
      (w : World) (action : Action) (bus : Bus) (past : Past)
      → c.route_policy ≡ none
      → IsRecoverable c bus past
      → IsRecoverable c
          (dispatch c w action bus).0
          (past_after w.clock action (dispatch c w action bus) past)
  unfolding dispatch
  dispatch-IsRecoverable w action bus past open_policy v = elim (Bool-cases (is_refused c action)) [
    | inl refused ↦ rw (refused, dispatch) v
    | inr fine ↦
        rw (fine, dispatch, apply_inbound_policy-none c bus.rib.table action open_policy)
          (planned-IsRecoverable w action bus past v)
  ]

  log_of-eq : (bus : Bus) (past : Past) (v : IsRecoverable c bus past) → log_of bus ≡ v.log
  log_of-eq bus past v = rw v.journal

  log_of-Faithful :
      (bus : Bus) (past : Past) → IsRecoverable c bus past → Faithful c.node_name (log_of bus) past
  log_of-Faithful bus past v = rw (log_of-eq bus past v) v.faithful

  compacted-table :
      (r : CompactionResult) (bus : Bus) (past : Past)
      → IsRecoverable c bus past
      → bus.rib.table ≡ lived c.node_name (compacted_past c.node_name r bus.rib.table past)
  unfolding run
  compacted-table empty_journal bus past v = v.table
  compacted-table (too_few n) bus past v = v.table
  compacted-table (compacted at_seq pruned) bus past v = refl

  step-IsRecoverable :
      (e : Event) (bus : Bus) (past : Past)
      → c.route_policy ≡ none
      → IsRecoverable c bus past
      → IsRecoverable c (step c e bus) (remember c e bus past)
  unfolding step remember
  step-IsRecoverable (dispatched action at stamp delivers) bus past open_policy v =
      dispatch-IsRecoverable (world_at at stamp delivers) action bus past open_policy v
  step-IsRecoverable (compacts min_entries tail_size stamp) bus past open_policy v = record {
    log = (compact min_entries tail_size (log_of bus) bus.rib.table stamp).0;
    journal = refl;
    pool = v.pool;
    faithful =
        compact-Faithful c.node_name min_entries tail_size (log_of bus) bus.rib.table stamp past
          (log_of-Faithful bus past v);
    table = compacted-table _ bus past v;
  }
  step-IsRecoverable (restarts at) bus past open_policy v =
      let f = log_of-Faithful bus past v in
      record {
        log = log_of bus;
        journal = refl;
        pool = refl;
        faithful = record {
          ordered = f.ordered;
          recovered = λ now. f.recovered now ∙ sym (retimed-again now at past);
        };
        table = f.recovered at;
      }
    where
      retimed-again :
          (now at : ℕ) (past : Past)
          → lived c.node_name (retimed now (retimed at past)) ≡ lived c.node_name (retimed now past)
      retimed-again now at past =
          ap (λ es. run c.node_name es past.base) (map-again now at past.since)

  history-IsRecoverable :
      (es : List Event) (bus : Bus) (past : Past)
      → c.route_policy ≡ none
      → IsRecoverable c bus past
      → IsRecoverable c (history c es bus) (remembered c es bus past)
  unfolding history remembered
  history-IsRecoverable [] bus past open_policy v = v
  history-IsRecoverable (e ∷ es) bus past open_policy v =
      history-IsRecoverable es (step c e bus) (remember c e bus past) open_policy
        (step-IsRecoverable e bus past open_policy v)

-- On a node with no route policy and no port allocator, after any history of dispatches, compactions
-- with any thresholds and restarts, at any times, take the table of the last compaction that was not
-- skipped, and the actions that dispatches since then succeeded with. The table in memory is that
-- table after those actions, each planned at the time of its dispatch, or of the last restart after
-- it; and recovery at any time gives that table after the same actions, all planned at that time.
-- The log's numbers ascend below the next one.
pub recover-history :
    (c : Config) (events : List Event) (now : ℕ)
    → c.route_policy ≡ none
    → ((history c events new_node).rib.table
        ≡ lived c.node_name (remembered c events new_node new_past))
      × (recover now c.node_name (log_of (history c events new_node))
          ≡ lived c.node_name (retimed now (remembered c events new_node new_past)))
      × IsOrdered (log_of (history c events new_node))
unfolding run
recover-history c events now open_policy =
    let v = history-IsRecoverable c events new_node new_past open_policy (record {
      log = empty_log;
      journal = refl;
      pool = refl;
      faithful = empty-Faithful c.node_name;
      table = refl;
    }) in
    let f = log_of-Faithful c _ _ v in (v.table, f.recovered now, f.ordered)
