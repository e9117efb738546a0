-- ===== src/Auth/Policy.antt =====
-- packages/authorization/src/policy/src/: entities (entity-builder.ts, jwt/index.ts), the engine
-- (authorization-engine.ts) and the five policies of definitions/*.cedar. Cedar itself is an
-- argument; `policies_permit` is what the policies say.
use catalyst_router.Prelude.{
  String, Bool, true, false, ◌&&◌, ◌||◌, List, [], ◌∷◌, ◌++◌, Option, none, some, find, includes,
  if◌then◌else◌, ◌==◌, string_key,
}

-- An attribute: a text, a set of texts, or anything else.
pub data Value : Type 0 where
  text : String → Value
  texts : List String → Value
  other_value : Value

-- The fields of an object; of two with one name the first counts, so that a later assignment and a
-- later spread stand in front.
abbrev pub AttributeList : Type 0
AttributeList = List (String × Value)

abbrev pub Found : Type 0
Found = Option (String × Value)

abbrev pub get_attribute : AttributeList → String → Found
get_attribute attrs name = find (λ a. a.0 == name) attrs

-- `PolicyEntity`, without parents.
pub record Entity : Type 0 where
  pub entity_type : String
  pub id : String
  pub attrs : AttributeList

-- The entity in a token's payload.
pub record TokenEntity : Type 0 where
  pub id : String
  pub name : String
  pub owner_type : String
  pub trusted_nodes : Option (List String)
  pub trusted_domains : Option (List String)

-- What is read of a payload.
pub record Payload : Type 0 where
  pub sub : String
  pub jti : Option String
  pub principal : Option String
  pub entity : Option TokenEntity
  pub claims : AttributeList
  pub nodes : Option (List String)
  pub domains : Option (List String)

-- `x || y` on texts
abbrev pub text_or : String → String → String
text_or x y = if x == "" then y else x

abbrev pub principal_or_user : Option String → String
principal_or_user none = "CATALYST::USER"
principal_or_user (some p) = text_or p "CATALYST::USER"

-- `xs || ys || []` on arrays, which are all truthy.
abbrev pub first_list : Option (List String) → Option (List String) → List String
first_list (some xs) ys = xs
first_list none (some ys) = ys
first_list none none = []

abbrev principal_id : Option TokenEntity → String → String
principal_id none sub = sub
principal_id (some e) sub = text_or e.name (text_or e.id sub)

abbrev entity_attributes : Option TokenEntity → Payload → AttributeList
entity_attributes none payload = []
entity_attributes (some e) payload =
    ("trustedDomains", texts (first_list e.trusted_domains payload.domains))
      ∷ ("trustedNodes", texts (first_list e.trusted_nodes payload.nodes))
      ∷ payload.claims
    ++ ("id", text e.id) ∷ ("name", text e.name) ∷ ("type", text e.owner_type) ∷ []

-- `jwtToEntity`
unfoldable pub jwt_to_entity : Payload → Entity
jwt_to_entity payload = record {
  entity_type = principal_or_user payload.principal;
  id = principal_id payload.entity payload.sub;
  attrs = entity_attributes payload.entity payload;
}

-- What Cedar is asked: the two entities with their attributes, and the id of a `CATALYST::Action`.
pub record Query : Type 0 where
  pub principal : Entity
  pub action_id : String
  pub resource : Entity

-- Cedar's answer.
pub data CedarAnswer : Type 0 where
  cedar_failure : (errors : List String) → CedarAnswer
  cedar_response : (is_allow : Bool) → (diagnostics : List String) → CedarAnswer

-- `AuthorizationEngineResult`
pub data EngineResult : Type 0 where
  failure : (errors : List String) → EngineResult
  evaluated : (allowed : Bool) → (reasons : List String) → EngineResult

-- `isAuthorized`
abbrev pub is_authorized : CedarAnswer → EngineResult
is_authorized (cedar_failure errors) = failure errors
is_authorized (cedar_response is_allow diagnostics) = evaluated is_allow diagnostics

-- `principal.x.contains(resource.y)`; an attribute that is not there is an error, and with an error
-- a policy does not apply.
abbrev pub contains : Found → Found → Bool
contains (some (_, texts xs)) (some (_, text y)) = includes xs y
contains _ _ = false

abbrev pub empty_set : Found → Bool
empty_set (some (_, texts [])) = true
empty_set _ = false

-- The conditions of admin.cedar, and of the other four.
abbrev pub trusts_nodes : Entity → Entity → Bool
trusts_nodes p r =
    empty_set (get_attribute p.attrs "trustedNodes")
    || contains (get_attribute p.attrs "trustedNodes") (get_attribute r.attrs "nodeId")

abbrev pub trusts_domain : Entity → Entity → Bool
trusts_domain p r =
    contains (get_attribute p.attrs "trustedDomains") (get_attribute r.attrs "domainId")

abbrev pub admin_condition : Entity → Entity → Bool
admin_condition p r =
    (empty_set (get_attribute p.attrs "trustedDomains") || trusts_domain p r) && trusts_nodes p r

abbrev pub member_condition : Entity → Entity → Bool
member_condition p r = trusts_domain p r && trusts_nodes p r

-- A policy of the shape `permit (principal is T, action in [...], resource) when { ... }`.
abbrev pub member_policy : String → List String → Query → Bool
member_policy principal_type actions q =
    q.principal.entity_type == principal_type
    && (includes actions q.action_id && member_condition q.principal q.resource)

abbrev pub admin_policy : Query → Bool
admin_policy q =
    q.principal.entity_type == "CATALYST::ADMIN" && admin_condition q.principal q.resource

abbrev pub node_actions : List String
node_actions =
    "IBGP_CONNECT" ∷ "IBGP_DISCONNECT" ∷ "IBGP_UPDATE" ∷ "IBGP_LIST" ∷ "GATEWAY_CONFIG_UPDATE" ∷ []

abbrev pub node_custodian_actions : List String
node_custodian_actions =
    "PEER_CREATE" ∷ "PEER_UPDATE" ∷ "PEER_DELETE" ∷ "IBGP_CONNECT" ∷ "IBGP_DISCONNECT"
    ∷ "IBGP_UPDATE" ∷ "PEER_LIST" ∷ "IBGP_LIST" ∷ []

abbrev pub data_custodian_actions : List String
data_custodian_actions = "ROUTE_CREATE" ∷ "ROUTE_DELETE" ∷ "ROUTE_LIST" ∷ []

abbrev pub user_actions : List String
user_actions = "LOGIN" ∷ "PEER_LIST" ∷ "ROUTE_LIST" ∷ []

-- `ALL_POLICIES`: some policy permits the query.
unfoldable pub policies_permit : Query → Bool
policies_permit q =
    admin_policy q
    || (member_policy "CATALYST::NODE" node_actions q
        || (member_policy "CATALYST::NODE_CUSTODIAN" node_custodian_actions q
            || (member_policy "CATALYST::DATA_CUSTODIAN" data_custodian_actions q
                || member_policy "CATALYST::USER" user_actions q)))
