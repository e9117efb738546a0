-- ===== src/Orchestrator.antt =====
-- apps/orchestrator/src/v2/service.ts: the dispatch that the constructor puts in the place of the
-- bus's, with the interval of the Ticks and the dialling of new peers. The recovery of the
-- constructor is `Recovery`. Other dispatches may run while the transport is opening a peer; here
-- none does.
mod Peers
mod Session
mod Dial
mod Lifecycle
pub mod Attribution
mod Tests
use catalyst_router.Prelude.{
  String, Bool, true, false, not, ◌||◌, ◌&&◌, List, [], ◌∷◌, ◌++◌, Option, none, some, map, find,
  if◌then◌else◌, ◌==◌, string_key,
}
use catalyst_router.Table.{PeerInfo, PeerRecord, RouteTable}
use catalyst_router.Action.{
  Action, local_peer_create, internal_protocol_open, internal_protocol_connected, ProtocolOpen,
}
use catalyst_router.Bus.Config.{Config, Call}
use catalyst_router.Bus.Dispatch.{Bus, World, StateResult, succeeded, dispatch}
use catalyst_router.Timers.Reconnect.{ReconnectManager, schedule_reconnect, has_token}
use catalyst_router.Timers.Interval.{TickManager, recalculate}

pub record OrchestratorService : Type 0 where
  pub bus : Bus
  pub ticks : TickManager
  pub reconnects : ReconnectManager

abbrev pub Answered : Type 0
Answered = OrchestratorService × StateResult × List Call

-- `recalculateTickInterval`
abbrev pub recalculate_tick_interval : OrchestratorService → OrchestratorService
recalculate_tick_interval s = record s {
  ticks = recalculate s.ticks (map (λ p. p.hold_time) s.bus.rib.table.peers);
}

abbrev pub is_peer_action : Action → Bool
is_peer_action (internal_protocol_open d) = true
is_peer_action (internal_protocol_connected info) = true
is_peer_action _ = false

abbrev pub is_succeeded : StateResult → Bool
is_succeeded (succeeded state action) = true
is_succeeded _ = false

-- The bus's own dispatch, and the new interval after an action on a session.
unfoldable pub dispatch_session : Config → World → Action → OrchestratorService → Answered
dispatch_session c w action s =
    let out = dispatch c w action s.bus in
    let moved = record s { bus = out.0 } in
    (
      if is_succeeded out.1 && is_peer_action action
          then recalculate_tick_interval moved
          else moved,
      out.1,
      out.2,
    )

abbrev pub has_endpoint : PeerRecord → Bool
has_endpoint peer = elim peer.endpoint [ none ↦ false | some e ↦ not (e == "") ]

abbrev pub connection_of : PeerRecord → PeerInfo
connection_of peer = record {
  name = peer.name;
  domains = peer.domains;
  endpoint = none;
  labels = none;
  peer_token = none;
  envoy_address = none;
}

-- `dialPeer`: `opens` says whether the transport reaches the peer, `w` is the time after it has.
unfoldable pub dial_peer :
    Config
    → World
    → (opens : PeerRecord → Bool) → PeerRecord
    → OrchestratorService
    → OrchestratorService × List Call
unfolding dispatch_session
dial_peer c w opens peer s =
    let called = dispatch_session c w (internal_protocol_connected (connection_of peer)) s in
    let retried = record s { reconnects = (schedule_reconnect s.reconnects peer).0 } in
    if has_endpoint peer && has_token peer
    then (if opens peer then (called.0, called.2) else (retried, []))
    else (s, [])

abbrev pub find_peer : String → RouteTable → Option PeerRecord
find_peer name state = find (λ p. p.name == name) state.peers

-- A peer that was created is dialled.
abbrev pub dialled : Action → StateResult → Option PeerRecord
dialled (local_peer_create info) (succeeded state action) = find_peer info.name state
dialled _ _ = none

abbrev pub after_dial :
    Config → World → (PeerRecord → Bool) → Option PeerRecord → Answered → Answered
after_dial c w opens none done = done
after_dial c w opens (some peer) done =
    let rung = dial_peer c w opens peer done.0 in (rung.0, done.1, done.2 ++ rung.1)

-- The dispatch of the service.
unfoldable pub service_dispatch :
    Config
    → (now later : World) → (opens : PeerRecord → Bool) → Action
    → OrchestratorService
    → Answered
unfolding dispatch_session dial_peer
service_dispatch c now later opens action s =
    let done = dispatch_session c now action s in
    after_dial c later opens (dialled action done.1) done
