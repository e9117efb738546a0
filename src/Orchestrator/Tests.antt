-- ===== src/Orchestrator/Tests.antt =====
-- A node with one peer, which is created again after a restart.
use catalyst_router.Prelude.{true, false, ◌≡◌, refl, [], none}
use catalyst_router.Action.{local_peer_create}
use catalyst_router.Samples.{node_b, linked}
use catalyst_router.Bus.Config.{Config}
use catalyst_router.Bus.Dispatch.{World}
use catalyst_router.Table.{new_route_table}
use catalyst_router.Rib.Machine.{plan}
use catalyst_router.Rib.Local.{plan_local_peer_create}
use catalyst_router.Journal.{commit}
use catalyst_router.Bus.Allocation.{plan_port_allocations}
use catalyst_router.Bus.Propagation.{apply_inbound_policy}
use catalyst_router.Bus.Dispatch.{dispatch, complete}
use catalyst_router.Timers.Reconnect.{schedule_reconnect}
use catalyst_router.Orchestrator.{
  OrchestratorService, service_dispatch, dispatch_session, dial_peer,
}
use catalyst_router.Orchestrator.Session.{is_pursued, service_dispatch_new}

abbrev node_a : Config
node_a = record {
  node_name = "node-a";
  envoy_address = none;
  route_policy = none;
  has_gateway = false;
  has_envoy = false;
  trim = λ s. s;
}

abbrev today : World
today = record { clock = 5; stamp = "2026-01-01"; delivers = λ p. true }

-- The service with the table that a restart recovers.
abbrev restarted : OrchestratorService
restarted = record {
  bus = record {
    rib = record { table = linked; journal = none };
    port_allocator = none;
    last_keepalive_sent = [];
  };
  ticks = record { timer = none; interval_ms = 30000 };
  reconnects = record { timers = []; attempts = []; max_backoff_ms = 60000 };
}

abbrev started : OrchestratorService
started = record restarted {
  bus = record restarted.bus { rib = record { table = new_route_table; journal = none } };
}

service_dispatch_new_example :
    is_pursued true "node-b"
      (service_dispatch node_a today today (λ p. true) (local_peer_create node_b) started).0
    ≡ true
unfolding new_route_table
service_dispatch_new_example =
    service_dispatch_new node_a today today (λ p. true) node_b started refl refl refl refl

-- The peer cannot be reached.
service_dispatch_new-failed :
    is_pursued false "node-b"
      (service_dispatch node_a today today (λ p. false) (local_peer_create node_b) started).0
    ≡ true
unfolding service_dispatch dispatch_session dial_peer dispatch complete plan plan_local_peer_create
    apply_inbound_policy plan_port_allocations commit schedule_reconnect new_route_table
service_dispatch_new-failed = refl
