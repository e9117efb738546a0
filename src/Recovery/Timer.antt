-- ===== src/Recovery/Timer.antt =====
-- The timer of apps/orchestrator/src/v2/compaction.ts: whether it runs, and with what period.
use catalyst_router.Prelude.{ℕ, Bool, Option, none, some, is_some, nat_beq, if◌then◌else◌}

pub record CompactionManager : Type 0 where
  pub interval_ms : ℕ
  pub timer : Option ℕ

abbrev pub is_running : CompactionManager → Bool
is_running m = is_some m.timer

abbrev start_idle : CompactionManager → Option ℕ → CompactionManager
start_idle m (some period) = m
start_idle m none =
    if nat_beq m.interval_ms 0
    then m
    else record { interval_ms = m.interval_ms; timer = some m.interval_ms }

-- `start`
unfoldable pub start_compaction : CompactionManager → CompactionManager
start_compaction m = start_idle m m.timer

-- `stop`
abbrev pub stop_compaction : CompactionManager → CompactionManager
stop_compaction m = record { interval_ms = m.interval_ms; timer = none }
