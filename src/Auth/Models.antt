-- ===== src/Auth/Models.antt =====
-- packages/authorization/src/policy/src/definitions/models.ts: roles, their principals, and what
-- they may do.
use catalyst_router.Prelude.{String, List, [], ◌∷◌}

pub data Role : Type 0 where
  role_admin role_node role_node_custodian role_data_custodian role_user : Role

-- `Principal`, by `ROLE_TO_PRINCIPAL`.
abbrev pub role_to_principal : Role → String
role_to_principal role_admin = "CATALYST::ADMIN"
role_to_principal role_node = "CATALYST::NODE"
role_to_principal role_node_custodian = "CATALYST::NODE_CUSTODIAN"
role_to_principal role_data_custodian = "CATALYST::DATA_CUSTODIAN"
role_to_principal role_user = "CATALYST::USER"

-- `Action`
abbrev pub all_actions : List String
all_actions =
    "LOGIN" ∷ "MANAGE" ∷ "IBGP_CONNECT" ∷ "IBGP_DISCONNECT" ∷ "IBGP_UPDATE" ∷ "PEER_CREATE"
    ∷ "PEER_UPDATE" ∷ "PEER_DELETE" ∷ "ROUTE_CREATE" ∷ "ROUTE_DELETE" ∷ "TOKEN_CREATE"
    ∷ "TOKEN_REVOKE" ∷ "TOKEN_LIST" ∷ "PEER_LIST" ∷ "ROUTE_LIST" ∷ "IBGP_LIST"
    ∷ "GATEWAY_CONFIG_UPDATE" ∷ []

-- `ROLE_PERMISSIONS`
abbrev pub role_permissions : Role → List String
role_permissions role_admin = all_actions
role_permissions role_node =
    "IBGP_CONNECT" ∷ "IBGP_DISCONNECT" ∷ "IBGP_UPDATE" ∷ "IBGP_LIST" ∷ "GATEWAY_CONFIG_UPDATE" ∷ []
role_permissions role_node_custodian =
    "PEER_CREATE" ∷ "PEER_UPDATE" ∷ "PEER_DELETE" ∷ "IBGP_CONNECT" ∷ "IBGP_DISCONNECT"
    ∷ "IBGP_UPDATE" ∷ "PEER_LIST" ∷ "IBGP_LIST" ∷ []
role_permissions role_data_custodian = "ROUTE_CREATE" ∷ "ROUTE_DELETE" ∷ "ROUTE_LIST" ∷ []
role_permissions role_user = "LOGIN" ∷ "PEER_LIST" ∷ "ROUTE_LIST" ∷ []
