-- ===== src/Rpc/Tests.antt =====
-- A node whose auth service knows one token, of the peer `node-b`.
use catalyst_router.Prelude.{
  String, true, false, ◌≡◌, refl, List, [], ◌∷◌, Option, none, some, All, if◌then◌else◌, ◌==◌,
  string_key,
}
use catalyst_router.Samples.{node_b, books, advert, linked}
use catalyst_router.Rib.Attribution.{Attributes}
use catalyst_router.Bus.Config.{Config}
use catalyst_router.Bus.Dispatch.{World}
use catalyst_router.Orchestrator.{OrchestratorService}
use catalyst_router.Rpc.Validator.{
  AuthClient, Authorization, authorized, denied, handlers, no_permissions, NodeContext,
  TokenValidator, valid, build_token_validator,
}
use catalyst_router.Rpc.Clients.{service_bus}
use catalyst_router.Rpc.Ibgp.{Decoded, claims, undecodable}
use catalyst_router.Rpc.Endpoint.{Request, call, answer_all, add_route_call, open_call, update_call}
use catalyst_router.Rpc.Gate.{IsUnheard, call-IsUnheard}
use catalyst_router.Rpc.Origin.{IsVouched, answer_all-IsVouched}

abbrev node_a : Config
node_a = record {
  node_name = "node-a";
  envoy_address = none;
  route_policy = none;
  has_gateway = false;
  has_envoy = false;
  trim = λ s. s;
}

abbrev today : World
today = record { clock = 5; stamp = "2026-01-01"; delivers = λ p. true }

abbrev running : OrchestratorService
running = record {
  bus = record {
    rib = record { table = linked; journal = none };
    port_allocator = none;
    last_keepalive_sent = [];
  };
  ticks = record { timer = none; interval_ms = 30000 };
  reconnects = record { timers = []; attempts = []; max_backoff_ms = 60000 };
}

-- The peer may connect, and nothing else.
abbrev permit : String → NodeContext → Option Authorization
permit action context =
    some (if action == "IBGP_CONNECT" then authorized true else denied "permission_denied")

abbrev auth_service : AuthClient
auth_service = record {
  permissions = λ token.
      if token == "jwt-of-b" then some (handlers permit) else some (no_permissions "Invalid token");
}

abbrev here : NodeContext
here = record { node_id = "node-a"; domains = "example.org" ∷ [] }

abbrev decode : String → Decoded
decode token = if token == "jwt-of-b" then claims (some "node-b") else undecodable "Invalid JWT"

abbrev accepting : TokenValidator
accepting = build_token_validator (some auth_service) false here

call-IsUnheard_example :
    IsUnheard
      (call
        (service_bus node_a today today (λ p. true))
        decode
        accepting
        "jwt-of-b"
        (add_route_call books))
      running
call-IsUnheard_example =
    call-IsUnheard (service_bus node_a today today (λ p. true)) decode (some auth_service) false
      here "jwt-of-b" (add_route_call books) running refl

abbrev calls : List Request
calls =
    record {
      token = "jwt-of-b";
      message = open_call (record { peer_info = node_b; hold_time = none });
      now = today;
      later = today;
      opens = λ p. true;
    }
    ∷ record {
      token = "jwt-of-b";
      message = update_call (record { peer_info = node_b; updates = advert ∷ [] });
      now = today;
      later = today;
      opens = λ p. true;
    }
    ∷ []

accepts_b : accepting.validate_token "jwt-of-b" "IBGP_CONNECT" ≡ valid
unfolding build_token_validator
accepts_b = refl

answer_all-IsVouched_example :
    All
      (Attributes (IsVouched decode accepting))
      (answer_all node_a decode accepting calls running).bus.rib.table.internal_routes
answer_all-IsVouched_example =
    answer_all-IsVouched node_a decode accepting calls running
      ((("jwt-of-b", accepts_b, refl), refl), tt)
