-- ===== src/Orchestrator/Lifecycle.antt =====
-- `start` and `stop` of apps/orchestrator/src/v2/service.ts, with the timers of the managers.
use catalyst_router.Prelude.{
  Bool, true, false, not, ◌≡◌, refl, ap₂, [], none, is_some, nat_beq, inl, inr, Bool-cases,
  Option-cases,
}
use catalyst_router.Recovery.Timer.{
  CompactionManager, is_running, start_compaction, stop_compaction,
}
use catalyst_router.Timers.Interval.{TickManager, start, stop}
use catalyst_router.Timers.Reconnect.{stop_all}
use catalyst_router.Orchestrator.{OrchestratorService, recalculate_tick_interval}

-- The service with its compaction manager.
abbrev pub Running : Type 0
Running = OrchestratorService × CompactionManager

unfoldable pub start_service : Running → Running
start_service (s, m) =
    let timed = recalculate_tick_interval s in
    (record timed { ticks = start timed.ticks }, start_compaction m)

unfoldable pub stop_service : Running → Running
stop_service (s, m) =
    (record s { ticks = stop s.ticks; reconnects = stop_all s.reconnects }, stop_compaction m)

-- Which timers run: that of the Ticks, and that of the compaction.
abbrev pub timers_run : Running → Bool × Bool
timers_run (s, m) = (is_some s.ticks.timer, is_running m)

start-runs : (t : TickManager) → is_some (start t).timer ≡ true
unfolding start
start-runs t = elim (Option-cases t.timer) [
  | inl idle ↦ rw (idle, start) refl
  | inr (period, runs) ↦ rw (runs, start) (rw runs refl)
]

start_compaction-runs :
    (m : CompactionManager)
    → m.timer ≡ none
    → is_running (start_compaction m) ≡ not (nat_beq m.interval_ms 0)
unfolding start_compaction
start_compaction-runs m idle = elim (Bool-cases (nat_beq m.interval_ms 0)) [
  | inl off ↦ rw (idle, off, start_compaction) refl
  | inr on ↦ rw (idle, on, start_compaction) refl
]

-- After a start the Ticks run, and the compaction unless its interval is 0; after a stop neither does,
-- and no reconnection is pending.
pub start_service-runs :
    (s : OrchestratorService) (m : CompactionManager)
    → m.timer ≡ none
    → timers_run (start_service (s, m)) ≡ (true, not (nat_beq m.interval_ms 0))
unfolding start_service
start_service-runs s m idle =
    ap₂ (λ a b. (a, b)) (start-runs (recalculate_tick_interval s).ticks)
      (start_compaction-runs m idle)

pub stop_service-idle :
    (r : Running)
    → (timers_run (stop_service r) ≡ (false, false)) × ((stop_service r).0.reconnects.timers ≡ [])
unfolding stop_service
stop_service-idle (s, m) = (refl, refl)
