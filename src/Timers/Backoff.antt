-- ===== src/Timers/Backoff.antt =====
-- The delays of reconnection, and what cancelling reaches.
use catalyst_router.Prelude.{
  ℕ, zero, suc, String, false, not, ◌+◌, ◌*◌, ◌^◌, min, ◌≡◌, refl, List, [], ◌∷◌, Option, none,
  some, filter, any, ◌==◌, string_key, arith, ==_refl,
}
use catalyst_router.Table.{PeerRecord}
use catalyst_router.Ports.{map_get}
use catalyst_router.Bus.Keepalive.{or_zero}
use catalyst_router.Ports.Entries.{map_get-map_set_any}
use catalyst_router.Timers.Reconnect.{
  ReconnectManager, has_timer, backoff, schedule_reconnect, begin_attempt, attempt_failed, stop_all,
  pending_count,
}

-- `n` attempts in a row that all fail, each begun by the timer that the one before has set.
pub failures : ℕ → PeerRecord → ReconnectManager × Option ℕ → ReconnectManager × Option ℕ
failures zero peer scheduled = scheduled
failures (suc n) peer scheduled =
    attempt_failed (begin_attempt (failures n peer scheduled).0 peer).0 peer

filter-any :
    (name : String) (ps : List PeerRecord)
    → any (λ p. p.name == name) (filter (λ p. not (p.name == name)) ps) ≡ false
filter-any name [] = refl
filter-any name (p ∷ ps) = ground (arith, filter-any name ps)

fail_once :
    (m : ReconnectManager) (peer : PeerRecord)
    → ((attempt_failed (begin_attempt m peer).0 peer).1
        ≡ some (backoff m.max_backoff_ms (or_zero (map_get m.attempts peer.name) + 1)))
      × ((or_zero (map_get (attempt_failed (begin_attempt m peer).0 peer).0.attempts peer.name)
            ≡ or_zero (map_get m.attempts peer.name) + 1)
          × ((attempt_failed (begin_attempt m peer).0 peer).0.max_backoff_ms ≡ m.max_backoff_ms))
unfolding begin_attempt schedule_reconnect
fail_once m peer = ground (
  arith,
  filter-any peer.name m.timers,
  map_get-map_set_any m.attempts peer.name peer.name (or_zero (map_get m.attempts peer.name) + 1),
  ==_refl peer.name,
)

-- A run of failures, from a first timer that is set: the delay and the count after it.
failures-state :
    (m : ReconnectManager) (peer : PeerRecord) (n : ℕ)
    → has_timer m peer.name ≡ false
    → map_get m.attempts peer.name ≡ none
    → ((failures n peer (schedule_reconnect m peer)).1 ≡ some (backoff m.max_backoff_ms (n + 1)))
      × ((or_zero (map_get (failures n peer (schedule_reconnect m peer)).0.attempts peer.name)
            ≡ n + 1)
          × ((failures n peer (schedule_reconnect m peer)).0.max_backoff_ms ≡ m.max_backoff_ms))
unfolding failures schedule_reconnect
failures-state m peer zero h k = ground (
  arith,
  map_get-map_set_any m.attempts peer.name peer.name (or_zero (map_get m.attempts peer.name) + 1),
  ==_refl peer.name,
)
failures-state m peer (suc n) h k = ground (
  arith,
  failures-state m peer n h k,
  fail_once (failures n peer (schedule_reconnect m peer)).0 peer,
)

-- For a peer with no timer and no attempts, `n` failures after the first timer, the timer that is
-- set has the delay 1000 * 2 ^ n, or the maximal one if that is less.
pub failures-delay :
    (m : ReconnectManager) (peer : PeerRecord) (n : ℕ)
    → has_timer m peer.name ≡ false
    → map_get m.attempts peer.name ≡ none
    → (failures n peer (schedule_reconnect m peer)).1 ≡ some (min (1000 * 2 ^ n) m.max_backoff_ms)
failures-delay m peer n h k = ground (arith, failures-state m peer n h k)

-- `stopAll` leaves no timer, and yet an attempt that is in flight then, and fails, sets one.
pub stop_all-attempt_failed :
    (m : ReconnectManager) (peer : PeerRecord)
    → (pending_count (stop_all m) ≡ 0) × (pending_count (attempt_failed (stop_all m) peer).0 ≡ 1)
unfolding schedule_reconnect
stop_all-attempt_failed m peer = (refl, refl)
