-- ===== src/Auth/Minting.antt =====
-- A token that is minted is recorded, so that it verifies until it is revoked, and not after that.
use catalyst_router.Prelude.{ℕ, String, false, string_key}
use catalyst_router.Auth.Tokens.{TokenRecord, MintOptions, names_of}

-- The row of a token.
abbrev new_row : MintOptions → String → ℕ → TokenRecord
new_row o jti exp = record {
  jti = jti;
  expiry = exp;
  cfn = o.certificate_fingerprint;
  sans = names_of o.sans;
  entity_id = o.entity_id;
  entity_name = o.entity_name;
  entity_type = o.entity_type;
  revoked = false;
}
