-- ===== src/Orchestrator/Dial.antt =====
-- When a peer is dialled by the service of apps/orchestrator/src/v2/service.ts.
use catalyst_router.Prelude.{Bool, true, ◌≡◌, [], any, string_key, arith, inl, inr, Bool-cases}
use catalyst_router.Table.{PeerInfo, PeerRecord}
use catalyst_router.Action.{local_peer_create}
use catalyst_router.Rib.Plans.{named}
use catalyst_router.Rib.Local.{plan_local_peer_create}
use catalyst_router.Rib.Machine.{plan}
use catalyst_router.Bus.Config.{Config}
use catalyst_router.Bus.Propagation.{apply_inbound_policy}
use catalyst_router.Bus.Dispatch.{World, dispatch, unchanged, is_refused}
use catalyst_router.Orchestrator.{OrchestratorService, service_dispatch, dispatch_session}

-- A peer of the table that is created again: whatever the transport, and in whatever state the peer's
-- session is, nothing is dialled, sent or retried, and the service is as before.
pub service_dispatch_known :
    (c : Config) (now later : World) (opens : PeerRecord → Bool) (info : PeerInfo)
    (s : OrchestratorService)
    → any (named info.name) s.bus.rib.table.peers ≡ true
    → ((service_dispatch c now later opens (local_peer_create info) s).0 ≡ s)
      × ((service_dispatch c now later opens (local_peer_create info) s).2 ≡ [])
unfolding service_dispatch dispatch_session dispatch unchanged plan plan_local_peer_create
    apply_inbound_policy
service_dispatch_known c now later opens info s known =
    elim (Bool-cases (is_refused c (local_peer_create info))) [
      | inl refused ↦ ground (arith, refused)
      | inr fine ↦ ground (arith, fine, known)
    ]
