-- ===== src/Orchestrator/Attribution.antt =====
-- What every route says of its peer and its path, through a dispatch of the service.
use catalyst_router.Prelude.{String, List, Option, none, some, All, Bool, arith}
use catalyst_router.Table.{PeerRecord}
use catalyst_router.Action.{Action, internal_protocol_connected}
use catalyst_router.Rib.Attribution.{Attributes, Admits}
use catalyst_router.Bus.Config.{Config}
use catalyst_router.Bus.Dispatch.{World}
use catalyst_router.Bus.Attribution.{dispatch-Attributes}
use catalyst_router.Orchestrator.{
  OrchestratorService, Answered, dispatch_session, dial_peer, after_dial, dialled, service_dispatch,
  connection_of,
}

module _ (Q : String → List String → Type 0) (c : Config) where
  abbrev pub ServiceAttributes : OrchestratorService → Type 0
  ServiceAttributes s = All (Attributes Q) s.bus.rib.table.internal_routes

  session-Attributes :
      (w : World) (action : Action) (s : OrchestratorService)
      → Admits Q action
      → ServiceAttributes s
      → ServiceAttributes (dispatch_session c w action s).0
  unfolding dispatch_session
  session-Attributes w action s q h =
      let out = dispatch-Attributes Q c w action s.bus q h in ground (arith, out)

  dial-Attributes :
      (w : World) (opens : PeerRecord → Bool) (peer : PeerRecord) (s : OrchestratorService)
      → ServiceAttributes s
      → ServiceAttributes (dial_peer c w opens peer s).0
  unfolding dial_peer
  dial-Attributes w opens peer s h =
      let rung = session-Attributes w (internal_protocol_connected (connection_of peer)) s tt h in
      ground (arith, rung)

  after-Attributes :
      (w : World) (opens : PeerRecord → Bool) (peer : Option PeerRecord) (done : Answered)
      → ServiceAttributes done.0
      → ServiceAttributes (after_dial c w opens peer done).0
  after-Attributes w opens none done h = h
  after-Attributes w opens (some peer) done h = dial-Attributes w opens peer done.0 h

  -- A dispatch of the service keeps what all routes have, if the updates of its action have it.
  pub service-Attributes :
      (now later : World) (opens : PeerRecord → Bool) (action : Action) (s : OrchestratorService)
      → Admits Q action
      → ServiceAttributes s
      → ServiceAttributes (service_dispatch c now later opens action s).0
  unfolding service_dispatch
  service-Attributes now later opens action s q h =
      let done = dispatch_session c now action s in
      after-Attributes later opens (dialled action done.1) done
        (session-Attributes now action s q h)
