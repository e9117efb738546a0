-- ===== src/Timers/Tests.antt =====
-- The timers at concrete inputs.
use catalyst_router.Prelude.{◌≡◌, refl, [], some}
use catalyst_router.Samples.{session_b}
use catalyst_router.Timers.Reconnect.{
  ReconnectManager, schedule_reconnect, attempt_failed, stop_all, pending_count,
}
use catalyst_router.Timers.Backoff.{failures, failures-delay, stop_all-attempt_failed}
use catalyst_router.Timers.Interval.{TickManager}

abbrev idle : ReconnectManager
idle = record { timers = []; attempts = []; max_backoff_ms = 60000 }

abbrev ticking : TickManager
ticking = record { timer = some 30000; interval_ms = 30000 }

failures-delay_example : (failures 3 session_b (schedule_reconnect idle session_b)).1 ≡ some 8000
failures-delay_example = failures-delay idle session_b 3 refl refl

stop_all-attempt_failed_example :
    (pending_count (stop_all idle) ≡ 0)
    × (pending_count (attempt_failed (stop_all idle) session_b).0 ≡ 1)
stop_all-attempt_failed_example = stop_all-attempt_failed idle session_b
