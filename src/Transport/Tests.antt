-- ===== src/Transport/Tests.antt =====
-- A node with a session that is lost, and two nodes that talk.
use catalyst_router.Prelude.{
  String, false, ◌≡◌, refl, List, [], ◌∷◌, none, some, if◌then◌else◌, nat_beq,
}
use catalyst_router.Table.{RouteTable, added, internal}
use catalyst_router.Action.{internal_protocol_update}
use catalyst_router.Samples.{node_b, session_b, linked, learned_films}
use catalyst_router.Bus.Config.{Config}
use catalyst_router.Bus.Dispatch.{no_state_change}
use catalyst_router.Bus.Propagation.{sync_updates, build_updates}
use catalyst_router.Rpc.Validator.{TokenValidator, valid}
use catalyst_router.Rpc.Clients.{BusApi, done, submit}
use catalyst_router.Rpc.Ibgp.{Decoded, claims}
use catalyst_router.Rpc.Endpoint.{call, update_call}
use catalyst_router.Table.{PeerInfo}
use catalyst_router.Transport.{Ask, lost, replied, Transport}
use catalyst_router.Transport.Pool.{Sending, opening, keeping, AllThrow, perform-AllThrow}
use catalyst_router.Transport.Peering.{updates-reach}

abbrev node_a : PeerInfo
node_a = record node_b { name = "node-a"; endpoint = some "ws://node-a:3000" }

-- The first session is lost; another would work.
abbrev first_lost : Ask
first_lost n token m = if nat_beq n 0 then lost else replied done

abbrev pooled : Transport
pooled = record { stubs = ("ws://node-b:3000", 0) ∷ []; created = 1 }

abbrev retries : List Sending
retries = keeping session_b ∷ opening session_b "token" ∷ opening session_b "token" ∷ []

perform-AllThrow_example : AllThrow node_a first_lost "ws://node-b:3000" retries pooled
perform-AllThrow_example =
    perform-AllThrow node_a first_lost "ws://node-b:3000" retries pooled (0, refl, λ token m. refl)

abbrev config_a : Config
config_a = record {
  node_name = "node-a";
  envoy_address = none;
  route_policy = none;
  has_gateway = false;
  has_envoy = false;
  trim = λ s. s;
}

abbrev idle_bus : BusApi RouteTable
idle_bus = record { dispatch = λ action s. (s, no_state_change, []); state = λ s. s }

abbrev decode : String → Decoded
decode token = claims (some "node-a")

abbrev trusting : TokenValidator
trusting = record { validate_token = λ token action. valid }

updates-reach_example :
    (call idle_bus decode trusting "jwt-of-a"
        (update_call
          (record { peer_info = node_a; updates = sync_updates config_a session_b linked }))
        linked
      ≡ submit idle_bus
          (internal_protocol_update
            (record { peer_info = node_a; updates = sync_updates config_a session_b linked }))
          linked)
    × (call idle_bus decode trusting "jwt-of-a"
          (update_call (record {
            peer_info = node_a;
            updates = build_updates config_a session_b (added (internal learned_films) ∷ []);
          }))
          linked
        ≡ submit idle_bus
            (internal_protocol_update (record {
              peer_info = node_a;
              updates = build_updates config_a session_b (added (internal learned_films) ∷ []);
            }))
            linked)
updates-reach_example =
    updates-reach idle_bus decode trusting "jwt-of-a" linked config_a node_a session_b linked
      (added (internal learned_films) ∷ []) refl refl refl refl refl
