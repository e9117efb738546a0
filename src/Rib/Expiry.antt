-- ===== src/Rib/Expiry.antt =====
-- `planTick` of rib.ts: hold timers, and stale routes whose grace period is over.
use catalyst_router.Prelude.{
  ℕ, String, Bool, true, false, not, ◌&&◌, ◌-◌, List, [], ◌∷◌, ◌++◌, map, filter, any, includes,
  if◌then◌else◌, ltb, string_key,
}
use catalyst_router.Table.{
  RouteTable, PeerRecord, PlanResult, fresh, closed, is_connected, is_closed, InternalRoute,
  is_true,
}
use catalyst_router.Rib.Plans.{no_change, from_peer, releases, removals}

-- `p.holdTime > 0 && p.lastReceived > 0 && now - p.lastReceived > p.holdTime`. The difference stops
-- at 0 here; a negative one is not above a hold time either.
abbrev pub is_overdue : ℕ → PeerRecord → Bool
is_overdue now p =
    ltb 0 p.hold_time && (ltb 0 p.last_received && ltb p.hold_time (now - p.last_received))

abbrev pub is_expired : ℕ → PeerRecord → Bool
is_expired now p = is_connected p.connection_status && is_overdue now p

-- One round of the `map` over the peers.
abbrev pub expire : ℕ → PeerRecord → PeerRecord
expire now p = if is_expired now p then record p { connection_status = closed } else p

abbrev pub names : List PeerRecord → List String
names = map (λ p. p.name)

abbrev pub has_stale_routes : List InternalRoute → PeerRecord → Bool
has_stale_routes routes p = any (λ r. from_peer p.name r && is_true r.is_stale) routes

abbrev pub is_lapsed : ℕ → List InternalRoute → PeerRecord → Bool
is_lapsed now routes p =
    is_closed p.connection_status && (is_overdue now p && has_stale_routes routes p)

-- The names of `purgedPeerNames`; only membership in it and its being empty are read.
abbrev pub purged : ℕ → RouteTable → List String
purged now state =
    names (filter (is_expired now) state.peers)
    ++ names (filter (is_lapsed now state.internal_routes) (map (expire now) state.peers))

abbrev pub is_purged : List String → InternalRoute → Bool
is_purged gone r = includes gone r.peer.name

abbrev pub is_empty : List String → Bool
is_empty [] = true
is_empty (x ∷ xs) = false

unfoldable pub plan_tick : ℕ → RouteTable → PlanResult
plan_tick now state =
    let gone = purged now state in
    let lost = filter (is_purged gone) state.internal_routes in
    if is_empty gone then no_change state else record {
      prev_state = state;
      state = fresh (record state {
        peers = map (expire now) state.peers;
        internal_routes = filter (λ r. not (is_purged gone r)) state.internal_routes;
      });
      port_ops = releases lost;
      route_changes = removals lost;
    }
