-- ===== src/Auth/Tests.antt =====
-- An auth service with one node's token, before and after it is revoked.
use catalyst_router.Prelude.{
  String, Bool, false, ◌≡◌, refl, List, [], ◌∷◌, none, some, includes, if◌then◌else◌, ◌==◌,
  string_key,
}
use catalyst_router.Samples.{books}
use catalyst_router.Table.{new_route_table, RouteTable}
use catalyst_router.Bus.Dispatch.{no_state_change}
use catalyst_router.Auth.Models.{role_node}
use catalyst_router.Auth.Policy.{
  Payload, Query, CedarAnswer, cedar_response, policies_permit, jwt_to_entity,
}
use catalyst_router.Auth.Tokens.{
  TokenStore, MintOptions, verified, unverified, Signing, revoke, verify,
}
use catalyst_router.Auth.Server.{AuthServer, query_of}
use catalyst_router.Auth.Roles.{policies_permit-role, role_allows, client_of, call-needs_role}
use catalyst_router.Auth.Revocation.{
  token_minted, after_events, server_over, IsPowerless, revoke-IsPowerless,
}
use catalyst_router.Rpc.Validator.{NodeContext, build_token_validator}
use catalyst_router.Rpc.Clients.{BusApi}
use catalyst_router.Rpc.Ibgp.{Decoded, claims}
use catalyst_router.Rpc.Endpoint.{call, add_route_call}
use catalyst_router.Rpc.Gate.{IsUnheard}

-- The payload of a node's token.
abbrev node_payload : Payload
node_payload = record {
  sub = "node-b";
  jti = some "id-1";
  principal = some "CATALYST::NODE";
  entity = some (record {
    id = "node-b";
    name = "node-b";
    owner_type = "service";
    trusted_nodes = some [];
    trusted_domains = some ("example.org" ∷ []);
  });
  claims = [];
  nodes = none;
  domains = none;
}

abbrev cedar : Query → CedarAnswer
cedar q = cedar_response (policies_permit q) []

abbrev server : AuthServer
server = record {
  verify_token =
      λ token. if token == "jwt-of-b" then verified node_payload else unverified "Invalid token";
  policy_service = some cedar;
  node_id = "auth";
  domain_id = "example.org";
  action_id = λ action. action;
}

abbrev here : NodeContext
here = record { node_id = "node-a"; domains = "example.org" ∷ [] }

-- A bus that does nothing.
abbrev idle_bus : BusApi RouteTable
idle_bus = record { dispatch = λ action s. (s, no_state_change, []); state = λ s. s }

abbrev decode : String → Decoded
decode token = claims (some "node-b")

policies_permit-role_example :
    policies_permit (query_of server node_payload "IBGP_CONNECT" here)
    ≡ role_allows role_node (query_of server node_payload "IBGP_CONNECT" here)
unfolding jwt_to_entity
policies_permit-role_example =
    policies_permit-role role_node (query_of server node_payload "IBGP_CONNECT" here) refl

call-needs_role_example :
    IsUnheard
      (call idle_bus decode
        (build_token_validator (some (client_of server)) false here)
        "jwt-of-b"
        (add_route_call books))
      new_route_table
unfolding jwt_to_entity
call-needs_role_example =
    call-needs_role idle_bus decode server cedar node_payload role_node false here "jwt-of-b"
      (add_route_call books) new_route_table (λ q h. h) refl refl refl refl

abbrev signing : Signing
signing = record {
  sign = λ o. "jwt-of-b";
  verify_signature =
      λ token. if token == "jwt-of-b" then verified node_payload else unverified "Invalid token";
  decode_claims = λ token. (some "id-1", some 1800000000);
}

abbrev for_b : MintOptions
for_b = record {
  subject = "node-b";
  principal = "CATALYST::NODE";
  sans = none;
  certificate_fingerprint = none;
  expires_at = none;
  entity_id = "node-b";
  entity_name = "node-b";
  entity_type = "service";
}

abbrev recorded : TokenStore
recorded =
    record {
      jti = "id-1";
      expiry = 1800000000;
      cfn = none;
      sans = [];
      entity_id = "node-b";
      entity_name = "node-b";
      entity_type = "service";
      revoked = false;
    }
    ∷ []

abbrev like : List String → String → Bool
like sans san = includes sans san

revoke-IsPowerless_example :
    (verify signing
        (after_events signing like
          (token_minted for_b ∷ [])
          (revoke like recorded (some "id-1") none))
        "jwt-of-b"
      ≡ unverified "Token is revoked")
    × IsPowerless idle_bus decode
        (server_over signing
          (after_events signing like
            (token_minted for_b ∷ [])
            (revoke like recorded (some "id-1") none))
          server)
        false
        here
        "jwt-of-b"
        (add_route_call books)
        new_route_table
revoke-IsPowerless_example =
    revoke-IsPowerless idle_bus decode signing like server recorded "jwt-of-b" "id-1" node_payload
      (token_minted for_b ∷ []) false here (add_route_call books) new_route_table refl refl refl
      refl
