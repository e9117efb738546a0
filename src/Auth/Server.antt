-- ===== src/Auth/Server.antt =====
-- packages/authorization/src/service/rpc/server.ts: the entry points of the auth service and what
-- they let through. `action_id` is `action.toUpperCase().replace(/[:-]/g, '_')`.
use catalyst_router.Prelude.{ℕ, ◌*◌, String, true, false, List, [], ◌∷◌, Option, none, some}
use catalyst_router.Auth.Policy.{
  text, Entity, Payload, jwt_to_entity, Query, CedarAnswer, EngineResult, failure, evaluated,
  is_authorized,
}
use catalyst_router.Auth.Tokens.{VerifyResult, verified, unverified}
use catalyst_router.Rpc.Validator.{
  NodeContext, Authorization, authorized, denied, Permissions, handlers, no_permissions,
}

-- `AuthRpcServer`: the token factory's `verify`, and the policy service if there is one.
pub record AuthServer : Type 0 where
  pub verify_token : String → VerifyResult
  pub policy_service : Option (Query → CedarAnswer)
  pub node_id : String
  pub domain_id : String
  pub action_id : String → String

abbrev pub admin_panel : String → String → Entity
admin_panel node_id domain_id = record {
  entity_type = "CATALYST::AdminPanel";
  id = "admin-panel";
  attrs = ("nodeId", text node_id) ∷ ("domainId", text domain_id) ∷ [];
}

-- What `authorizeAction` makes of the engine's result.
abbrev pub authorization_of : EngineResult → Authorization
authorization_of (failure errors) = denied "system_error"
authorization_of (evaluated true reasons) = authorized true
authorization_of (evaluated false reasons) = denied "permission_denied"

-- `request.nodeContext.domains[0] || ''`
abbrev pub first_domain : List String → String
first_domain [] = ""
first_domain (d ∷ ds) = d

abbrev pub query_of : AuthServer → Payload → String → NodeContext → Query
query_of server payload action context = record {
  principal = jwt_to_entity payload;
  action_id = server.action_id action;
  resource = admin_panel context.node_id (first_domain context.domains);
}

abbrev pub authorize_action :
    AuthServer → (Query → CedarAnswer) → Payload → String → NodeContext → Option Authorization
authorize_action server cedar payload action context =
    some (authorization_of (is_authorized (cedar (query_of server payload action context))))

abbrev pub permissions_with : AuthServer → Option (Query → CedarAnswer) → VerifyResult → Permissions
permissions_with server cedar (unverified e) = no_permissions "Invalid token"
permissions_with server none (verified payload) = no_permissions "Policy service not configured"
permissions_with server (some cedar) (verified payload) =
    handlers (authorize_action server cedar payload)

-- `permissions`
unfoldable pub permissions : AuthServer → String → Permissions
permissions server token = permissions_with server server.policy_service (server.verify_token token)

-- What opens: the handlers, or an error.
pub data Admission : Type 0 where
  opened : Admission
  shut : (error : String) → Admission

abbrev pub entry_of : EngineResult → Admission
entry_of (failure errors) = shut "Error authorizing request"
entry_of (evaluated true reasons) = opened
entry_of (evaluated false reasons) = shut "Permission denied: ADMIN principal required"

abbrev pub manage_query : AuthServer → Payload → Query
manage_query server payload = record {
  principal = jwt_to_entity payload;
  action_id = "MANAGE";
  resource = admin_panel server.node_id server.domain_id;
}

abbrev pub entry_with : AuthServer → Option (Query → CedarAnswer) → VerifyResult → Admission
entry_with server cedar (unverified e) = shut "Invalid token"
entry_with server none (verified payload) = shut "Policy service not configured"
entry_with server (some cedar) (verified payload) =
    entry_of (is_authorized (cedar (manage_query server payload)))

-- `tokens`, which mints and revokes, and `certs`, which rotates the key.
unfoldable pub tokens : AuthServer → String → Admission
tokens server token = entry_with server server.policy_service (server.verify_token token)

unfoldable pub certs : AuthServer → String → Admission
certs server token = entry_with server server.policy_service (server.verify_token token)

abbrev pub validation_entry : VerifyResult → Admission
validation_entry (unverified e) = shut "Invalid token"
validation_entry (verified payload) = opened

-- `validation`
unfoldable pub validation : AuthServer → String → Admission
validation server token = validation_entry (server.verify_token token)

-- `parseDuration`, of the number and the unit that its regular expression finds.
pub data DurationUnit : Type 0 where
  unit_s unit_m unit_h unit_d unit_w : DurationUnit

abbrev pub duration_ms : ℕ → DurationUnit → ℕ
duration_ms value unit_s = value * 1000
duration_ms value unit_m = value * (60 * 1000)
duration_ms value unit_h = value * (60 * 60 * 1000)
duration_ms value unit_d = value * (24 * 60 * 60 * 1000)
duration_ms value unit_w = value * (7 * 24 * 60 * 60 * 1000)
