-- ===== src/Bus/Keepalive.antt =====
-- `handleKeepalives` of bus.ts. Times are whole milliseconds, and `x > holdTime / 3` is
-- `holdTime < 3 * x`.
use catalyst_router.Prelude.{
  ℕ, String, Bool, ◌&&◌, ◌-◌, ◌*◌, List, [], ◌∷◌, Option, none, some, map, filter, ltb,
  if◌then◌else◌,
}
use catalyst_router.Table.{PeerRecord, RouteTable, is_connected}
use catalyst_router.Ports.{map_get, map_set}
use catalyst_router.Bus.Config.{Call, send_keepalive}

abbrev pub or_zero : Option ℕ → ℕ
or_zero none = 0
or_zero (some n) = n

abbrev pub needs_keepalive : List (String × ℕ) → ℕ → PeerRecord → Bool
needs_keepalive last_sent now p =
    is_connected p.connection_status
    && (ltb 0 p.hold_time && ltb p.hold_time (3 * (now - or_zero (map_get last_sent p.name))))

-- The sends, of which `delivers` says which succeed: the new times, and the number sent.
unfoldable pub send_keepalives :
    (PeerRecord → Bool) → ℕ → List PeerRecord → List (String × ℕ) → List (String × ℕ)
send_keepalives delivers now [] last_sent = last_sent
send_keepalives delivers now (p ∷ ps) last_sent =
    send_keepalives delivers now ps (if delivers p then map_set last_sent p.name now else last_sent)

-- The calls and the new times.
unfoldable pub handle_keepalives :
    (PeerRecord → Bool) → RouteTable → ℕ → List (String × ℕ) → List Call × List (String × ℕ)
unfolding send_keepalives
handle_keepalives delivers state now last_sent =
    let needing = filter (needs_keepalive last_sent now) state.peers in
    (map send_keepalive needing, send_keepalives delivers now needing last_sent)
