-- ===== src/Orchestrator/Session.antt =====
-- A peer that is new to the service of apps/orchestrator/src/v2/service.ts: it is dialled, and its
-- session starts or a retry is due.
use catalyst_router.Prelude.{
  String, Bool, true, false, ◌≡◌, refl, ap, ◌∙◌, ◌&&◌, List, [], ◌∷◌, ◌++◌, Option, none, some, any,
  find, if◌then◌else◌, string_key, arith, inl, inr, Bool-cases, lookup-push, ==_refl,
}
use catalyst_router.Table.{PeerInfo, PeerRecord, is_connected}
use catalyst_router.Action.{Action, local_peer_create, internal_protocol_connected}
use catalyst_router.Rib.Plans.{named, with_peers}
use catalyst_router.Rib.Local.{new_peer}
use catalyst_router.Timers.Reconnect.{has_timer, has_token}
use catalyst_router.Bus.Config.{Config}
use catalyst_router.Bus.Dispatch.{Bus, World, Outcome, dispatch, complete, is_refused}
use catalyst_router.Orchestrator.{
  OrchestratorService, service_dispatch, dispatch_session, dial_peer, has_endpoint, find_peer,
  connection_of, is_succeeded, is_peer_action, Answered, recalculate_tick_interval, after_dial,
  dialled,
}
use catalyst_router.Orchestrator.Peers.{
  complete-peers, found_index, schedule-has_timer, created, connected-live,
}

abbrev pub is_live : Option PeerRecord → Bool
is_live none = false
is_live (some p) = is_connected p.connection_status

-- The session of the peer with a name has started, or else a retry is due.
abbrev pub is_pursued : Bool → String → OrchestratorService → Bool
is_pursued opened name s =
    if opened then is_live (find_peer name s.bus.rib.table) else has_timer s.reconnects name

session-bus :
    (c : Config) (w : World) (action : Action) (s : OrchestratorService)
    → (dispatch_session c w action s).0.bus ≡ (dispatch c w action s.bus).0
unfolding dispatch_session
session-bus c w action s =
    elim (Bool-cases (is_succeeded (dispatch c w action s.bus).1 && is_peer_action action)) [
      | inl e ↦ simp e refl
      | inr e ↦ simp e refl
    ]

opened-live :
    (c : Config) (w : World) (peer : PeerRecord) (s : OrchestratorService)
    → find_peer peer.name s.bus.rib.table ≡ some peer
    → is_live (
        find_peer peer.name
          (dispatch_session c w
            (internal_protocol_connected (connection_of peer))
            s).0.bus.rib.table)
      ≡ true
opened-live c w peer s h =
    ap (λ (b : Bus). is_live (find_peer peer.name b.rib.table))
      (session-bus c w (internal_protocol_connected (connection_of peer)) s)
    ∙ ap is_live (
        connected-live c w s.bus (connection_of peer)
          (found_index peer.name s.bus.rib.table.peers h).1)

dial_peer-pursued :
    (c : Config) (w : World) (opens : PeerRecord → Bool) (peer : PeerRecord)
    (s : OrchestratorService)
    → has_endpoint peer ≡ true
    → has_token peer ≡ true
    → find_peer peer.name s.bus.rib.table ≡ some peer
    → is_pursued (opens peer) peer.name (dial_peer c w opens peer s).0 ≡ true
unfolding dial_peer
dial_peer-pursued c w opens peer s e t h = elim (Bool-cases (opens peer)) [
  | inl reached ↦ ground (arith, e, t, reached, opened-live c w peer s h)
  | inr failed ↦ ground (arith, e, t, failed, schedule-has_timer s.reconnects peer)
]

module _ (c : Config) (now later : World) (opens : PeerRecord → Bool) (info : PeerInfo)
    (s : OrchestratorService) where
  abbrev committed : Outcome
  committed =
      complete c now (local_peer_create info)
        (with_peers s.bus.rib.table (s.bus.rib.table.peers ++ new_peer info ∷ [])) s.bus

  committed-found :
      any (named info.name) s.bus.rib.table.peers ≡ false
      → find_peer info.name committed.0.rib.table ≡ some (new_peer info)
  committed-found new =
      ap (find (named info.name)) (complete-peers c now (local_peer_create info) _ s.bus)
      ∙ lookup-push (λ (q : PeerRecord). q.name) info.name s.bus.rib.table.peers (new_peer info)
          (find_none info.name s.bus.rib.table.peers new)
      ∙ ground (arith, ==_refl info.name)
    where
      find_none :
          (name : String) (ps : List PeerRecord)
          → any (named name) ps ≡ false
          → find (named name) ps ≡ none
      find_none name [] h = refl
      find_none name (p ∷ ps) h = ground (arith, h, find_none name ps)

  -- What the service makes of the bus's answer.
  abbrev followed : Outcome → Answered
  followed out =
      let action = local_peer_create info in
      let moved = record s { bus = out.0 } in
      let settled =
        if is_succeeded out.1 && is_peer_action action
        then recalculate_tick_interval moved
        else moved in
      after_dial c later opens (dialled action out.1) (settled, out.1, out.2)

  service_dispatch-dials :
      is_refused c (local_peer_create info) ≡ false
      → any (named info.name) s.bus.rib.table.peers ≡ false
      → (service_dispatch c now later opens (local_peer_create info) s).0
        ≡ (dial_peer c later opens (new_peer info) (record s { bus = committed.0 })).0
  unfolding service_dispatch dispatch_session complete
  service_dispatch-dials fine new =
      ap (λ (out : Outcome). (followed out).0) (created c now s.bus info fine new)
      ∙ ap
          (λ (o : Option PeerRecord).
            (after_dial c later opens o
              (record s { bus = committed.0 }, committed.1, committed.2)).0)
          (committed-found new)

-- A peer with an endpoint and a token, which the bus does not refuse and whose name no peer of the
-- table has, is created. Afterwards its session has started if the transport opens it, and a retry
-- is due otherwise.
pub service_dispatch_new :
    (c : Config) (now later : World) (opens : PeerRecord → Bool) (info : PeerInfo)
    (s : OrchestratorService)
    → is_refused c (local_peer_create info) ≡ false
    → any (named info.name) s.bus.rib.table.peers ≡ false
    → has_endpoint (new_peer info) ≡ true
    → has_token (new_peer info) ≡ true
    → is_pursued
        (opens (new_peer info))
        info.name
        (service_dispatch c now later opens (local_peer_create info) s).0
      ≡ true
service_dispatch_new c now later opens info s fine new e t =
    ap (is_pursued (opens (new_peer info)) info.name)
      (service_dispatch-dials c now later opens info s fine new)
    ∙ dial_peer-pursued c later opens (new_peer info)
        (record s { bus = (committed c now later opens info s).0 }) e t
        (committed-found c now later opens info s new)
