-- ===== src/Auth/Roles.antt =====
-- What a role can do at a node, from its token to the call: the auth server, the policies and the
-- gate of the node's RPC together.
use catalyst_router.Prelude.{
  String, Bool, true, false, ◌&&◌, ◌≡◌, refl, ap, ap₂, ◌∙◌, some, arith, includes, string_key,
}
use catalyst_router.Auth.Models.{
  Role, role_admin, role_node, role_node_custodian, role_data_custodian, role_user,
  role_to_principal, role_permissions,
}
use catalyst_router.Auth.Policy.{
  Payload, Query, CedarAnswer, cedar_failure, cedar_response, jwt_to_entity, policies_permit,
  admin_condition, member_condition, is_authorized, principal_or_user,
}
use catalyst_router.Auth.Tokens.{verified}
use catalyst_router.Auth.Server.{
  AuthServer, permissions, permissions_with, query_of, authorize_action, authorization_of,
}
use catalyst_router.Rpc.Validator.{NodeContext, denied, handlers, AuthClient, build_token_validator}
use catalyst_router.Rpc.Clients.{BusApi}
use catalyst_router.Rpc.Ibgp.{Decoded}
use catalyst_router.Rpc.Endpoint.{Message, call}
use catalyst_router.Rpc.Gate.{
  is_allowed, grants, says_yes, IsUnheard, permission_of, call-IsUnheard,
}

abbrev pub cedar_allows : CedarAnswer → Bool
cedar_allows (cedar_failure errors) = false
cedar_allows (cedar_response is_allow diagnostics) = is_allow

-- Cedar allows nothing that no policy permits.
abbrev pub Follows : (Query → CedarAnswer) → Type 0
Follows cedar = (q : Query) → policies_permit q ≡ false → cedar_allows (cedar q) ≡ false

-- What a role may do by `ROLE_PERMISSIONS`, for a holder that trusts the resource.
abbrev pub role_allows : Role → Query → Bool
role_allows role_admin q = admin_condition q.principal q.resource
role_allows r q =
    includes (role_permissions r) q.action_id && member_condition q.principal q.resource

-- The policies permit a principal of a role just what `ROLE_PERMISSIONS` lists for the role, to a
-- holder that trusts the node and its domain; an administrator may do anything there, and trusts
-- every domain if the token names none.
pub policies_permit-role :
    (r : Role) (q : Query)
    → q.principal.entity_type ≡ role_to_principal r
    → policies_permit q ≡ role_allows r q
unfolding policies_permit
policies_permit-role role_admin q h = rw h (ground arith)
policies_permit-role role_node q h = rw h (ground arith)
policies_permit-role role_node_custodian q h = rw h (ground arith)
policies_permit-role role_data_custodian q h = rw h (ground arith)
policies_permit-role role_user q h = rw h (ground arith)

-- The node's auth client is this server, over a connection that works.
abbrev pub client_of : AuthServer → AuthClient
client_of server = record { permissions = λ token. some (permissions server token) }

authorization-denied :
    (answer : CedarAnswer)
    → cedar_allows answer ≡ false
    → (e : String) × (authorization_of (is_authorized answer) ≡ denied e)
authorization-denied (cedar_failure errors) h = ("system_error", refl)
authorization-denied (cedar_response true diagnostics) h = absurd (ground arith)
authorization-denied (cedar_response false diagnostics) h = ("permission_denied", refl)

permissions-handlers :
    (server : AuthServer) (cedar : Query → CedarAnswer) (payload : Payload) (token : String)
    → server.policy_service ≡ some cedar
    → server.verify_token token ≡ verified payload
    → permissions server token ≡ handlers (authorize_action server cedar payload)
unfolding permissions
permissions-handlers server cedar payload token p v = ap₂ (permissions_with server) p v

-- A token whose holder the policies permit nothing of an action is not allowed it.
client-denied :
    (server : AuthServer) (cedar : Query → CedarAnswer) (payload : Payload) (allow : Bool)
    (context : NodeContext) (token action : String)
    → server.policy_service ≡ some cedar
    → server.verify_token token ≡ verified payload
    → cedar_allows (cedar (query_of server payload action context)) ≡ false
    → is_allowed (some (client_of server)) allow context token action ≡ false
client-denied server cedar payload allow context token action p v h =
    ap (λ granted. grants (some granted) action context)
      (permissions-handlers server cedar payload token p v)
    ∙ ap (λ answer. says_yes (some answer)) (authorization-denied _ h).1

role-principal : (r : Role) → principal_or_user (some (role_to_principal r)) ≡ role_to_principal r
role-principal role_admin = refl
role-principal role_node = refl
role-principal role_node_custodian = refl
role-principal role_data_custodian = refl
role-principal role_user = refl

-- A peer's or a user's token reaches no further than its role: with a policy service that allows
-- nothing that no policy permits, a call has no effect on the node and makes no call itself if the
-- role of its token is not the administrator's and does not have the permission of the call, or the
-- token does not trust this node and its first domain.
pub call-needs_role {ℓ} :
    {S : Type ℓ} (bus : BusApi S) (decode_jwt : String → Decoded) (server : AuthServer)
    (cedar : Query → CedarAnswer) (payload : Payload) (r : Role) (allow : Bool)
    (context : NodeContext) (token : String) (m : Message) (s : S)
    → Follows cedar
    → server.policy_service ≡ some cedar
    → server.verify_token token ≡ verified payload
    → payload.principal ≡ some (role_to_principal r)
    → role_allows r (query_of server payload (permission_of m) context) ≡ false
    → IsUnheard
        (call bus decode_jwt
          (build_token_validator (some (client_of server)) allow context)
          token
          m)
        s
unfolding jwt_to_entity
call-needs_role bus decode_jwt server cedar payload r allow context token m s f p v n h =
    let q = query_of server payload (permission_of m) context in
    let barred : policies_permit q ≡ false =
      policies_permit-role r q (ap principal_or_user n ∙ role-principal r) ∙ h in
    call-IsUnheard bus decode_jwt (some (client_of server)) allow context token m s
      (client-denied server cedar payload allow context token (permission_of m) p v (f q barred))
