-- ===== src/Rpc/Validator.antt =====
-- `buildTokenValidator` of catalyst-service.ts. The auth service is remote: what it answers is the
-- argument `AuthClient`, and a call that throws is `none`.
use catalyst_router.Prelude.{String, Bool, true, false, List, Option, none, some}

-- The context that an action is authorized in: this node.
pub record NodeContext : Type 0 where
  pub node_id : String
  pub domains : List String

-- The answer of `authorizeAction`.
pub data Authorization : Type 0 where
  authorized : (allowed : Bool) → Authorization
  denied : (error_type : String) → Authorization

-- The answer of `permissions`: the handlers, or an error.
pub data Permissions : Type 0 where
  handlers : (authorize_action : String → NodeContext → Option Authorization) → Permissions
  no_permissions : (error : String) → Permissions

pub record AuthClient : Type 0 where
  pub permissions : String → Option Permissions

pub data Validation : Type 0 where
  valid : Validation
  invalid : (error : String) → Validation

pub record TokenValidator : Type 0 where
  pub validate_token : (token action : String) → Validation

abbrev pub authorization_failed : Validation
authorization_failed = invalid "Authorization failed"

abbrev of_authorization : Option Authorization → Validation
of_authorization none = authorization_failed
of_authorization (some (denied e)) = authorization_failed
of_authorization (some (authorized true)) = valid
of_authorization (some (authorized false)) = authorization_failed

abbrev of_permissions : Option Permissions → String → NodeContext → Validation
of_permissions none action context = authorization_failed
of_permissions (some (no_permissions e)) action context = authorization_failed
of_permissions (some (handlers authorize)) action context =
    of_authorization (authorize action context)

unfoldable pub build_token_validator : Option AuthClient → Bool → NodeContext → TokenValidator
build_token_validator none true context = record { validate_token = λ token action. valid }
build_token_validator none false context = record {
  validate_token = λ token action. invalid "Auth not configured";
}
build_token_validator (some client) allow_no_auth context = record {
  validate_token = λ token action. of_permissions (client.permissions token) action context;
}
