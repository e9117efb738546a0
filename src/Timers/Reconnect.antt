-- ===== src/Timers/Reconnect.antt =====
-- apps/orchestrator/src/v2/reconnect.ts. A pending timer is the peer that its closure holds. The
-- callback awaits twice, so it is three operations between which others may run: it begins, and it
-- ends in success or failure. What the transport and the dispatch answer is the choice of the end.
use catalyst_router.Prelude.{
  ℕ, String, Bool, false, not, ◌+◌, ◌-◌, ◌*◌, ◌^◌, min, List, [], ◌∷◌, ◌++◌, Option, none, some,
  filter, any, length, if◌then◌else◌, ◌==◌, string_key,
}
use catalyst_router.Table.{PeerRecord}
use catalyst_router.Ports.{map_get, map_set, map_delete}
use catalyst_router.Bus.Keepalive.{or_zero}

pub record ReconnectManager : Type 0 where
  pub timers : List PeerRecord
  pub attempts : List (String × ℕ)
  pub max_backoff_ms : ℕ

abbrev pub has_timer : ReconnectManager → String → Bool
has_timer m name = any (λ p. p.name == name) m.timers

-- `Math.min(1000 * Math.pow(2, attempt - 1), this.maxBackoffMs)`
abbrev pub backoff : (max attempt : ℕ) → ℕ
backoff max attempt = min (1000 * 2 ^ (attempt - 1)) max

-- The manager, and the delay of the timer that is set.
unfoldable pub schedule_reconnect : ReconnectManager → PeerRecord → ReconnectManager × Option ℕ
schedule_reconnect m peer = if has_timer m peer.name then (m, none) else (
  record {
    timers = m.timers ++ peer ∷ [];
    attempts = map_set m.attempts peer.name (or_zero (map_get m.attempts peer.name) + 1);
    max_backoff_ms = m.max_backoff_ms;
  },
  some (backoff m.max_backoff_ms (or_zero (map_get m.attempts peer.name) + 1)),
)

abbrev pub has_token : PeerRecord → Bool
has_token peer = elim peer.peer_token [ none ↦ false | some t ↦ not (t == "") ]

-- The timer fires: it is forgotten, and the peer is opened if there is a token.
unfoldable pub begin_attempt : ReconnectManager → PeerRecord → ReconnectManager × Bool
begin_attempt m peer = (
  record {
    timers = filter (λ p. not (p.name == peer.name)) m.timers;
    attempts = m.attempts;
    max_backoff_ms = m.max_backoff_ms;
  },
  has_token peer,
)

-- The peer was opened and the dispatch succeeded.
abbrev pub attempt_succeeded : ReconnectManager → PeerRecord → ReconnectManager
attempt_succeeded m peer = record {
  timers = m.timers;
  attempts = map_delete m.attempts peer.name;
  max_backoff_ms = m.max_backoff_ms;
}

-- One of the two threw.
abbrev pub attempt_failed : ReconnectManager → PeerRecord → ReconnectManager × Option ℕ
attempt_failed m peer = schedule_reconnect m peer

unfoldable pub cancel_reconnect : ReconnectManager → String → ReconnectManager
cancel_reconnect m name = record {
  timers = filter (λ p. not (p.name == name)) m.timers;
  attempts = map_delete m.attempts name;
  max_backoff_ms = m.max_backoff_ms;
}

abbrev pub stop_all : ReconnectManager → ReconnectManager
stop_all m = record { timers = []; attempts = []; max_backoff_ms = m.max_backoff_ms }

abbrev pub pending_count : ReconnectManager → ℕ
pending_count m = length m.timers
