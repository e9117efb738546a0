-- ===== src/Auth/Tokens.antt =====
-- packages/authorization/src/jwt/local/: the tokens that were minted (sqlite-store.ts) and the
-- manager that mints, revokes and verifies them (index.ts). The signing of the key manager, the
-- reading of a token by jose and SQLite's LIKE are arguments.
use catalyst_router.Prelude.{
  ℕ, String, Bool, true, false, ◌||◌, ◌&&◌, List, [], ◌∷◌, ◌++◌, Option, none, some, map, filter,
  find, any, if◌then◌else◌, ◌==◌, string_key, ltb, nat_beq,
}
use catalyst_router.Auth.Policy.{Payload}

pub record TokenRecord : Type 0 where
  pub jti : String
  pub expiry : ℕ
  pub cfn : Option String
  pub sans : List String
  pub entity_id : String
  pub entity_name : String
  pub entity_type : String
  pub revoked : Bool

-- The rows of the table `token`, whose primary key is `jti`.
abbrev pub TokenStore : Type 0
TokenStore = List TokenRecord

abbrev pub has_jti : String → TokenRecord → Bool
has_jti jti r = r.jti == jti

-- `recordToken`: an insertion, which throws if the key is there.
unfoldable pub record_token : TokenStore → TokenRecord → Option TokenStore
record_token store r = if any (has_jti r.jti) store then none else some (store ++ r ∷ [])

abbrev pub find_token : TokenStore → String → Option TokenRecord
find_token store jti = find (has_jti jti) store

-- `UPDATE token SET is_revoked = 1 WHERE …`
abbrev pub revoke_where : (TokenRecord → Bool) → TokenStore → TokenStore
revoke_where p [] = []
revoke_where p (r ∷ rs) = (if p r then record r { revoked = true } else r) ∷ revoke_where p rs

unfoldable pub revoke_token : TokenStore → String → TokenStore
revoke_token store jti = revoke_where (has_jti jti) store

-- `LIKE '%san%'` on the JSON text of the names.
unfoldable pub revoke_by_san : (List String → String → Bool) → TokenStore → String → TokenStore
revoke_by_san like store san = revoke_where (λ r. like r.sans san) store

abbrev pub revoked_row : Option TokenRecord → Bool
revoked_row none = false
revoked_row (some r) = r.revoked

unfoldable pub is_revoked : TokenStore → String → Bool
is_revoked store jti = revoked_row (find (has_jti jti) store)

-- `getRevocationList`, at a time in seconds.
unfoldable pub get_revocation_list : TokenStore → ℕ → List String
get_revocation_list store now = map (λ r. r.jti) (filter (λ r. r.revoked && ltb now r.expiry) store)

pub record MintOptions : Type 0 where
  pub subject : String
  pub principal : String
  pub sans : Option (List String)
  pub certificate_fingerprint : Option String
  pub expires_at : Option ℕ
  pub entity_id : String
  pub entity_name : String
  pub entity_type : String

-- `VerifyResult`
pub data VerifyResult : Type 0 where
  verified : Payload → VerifyResult
  unverified : (error : String) → VerifyResult

-- What the manager uses: the key manager's `sign` and `verify`, and `decodeJwt` of jose, which
-- gives `jti` and `exp`.
pub record Signing : Type 0 where
  pub sign : MintOptions → String
  pub verify_signature : String → VerifyResult
  pub decode_claims : String → Option String × Option ℕ

-- The token, or an exception.
pub data Issued : Type 0 where
  issued : (token : String) → Issued
  missing_claims not_recorded : Issued

abbrev pub names_of : Option (List String) → List String
names_of none = []
names_of (some sans) = sans

abbrev pub stored_or_not : TokenStore → String → Option TokenStore → TokenStore × Issued
stored_or_not store token none = (store, not_recorded)
stored_or_not store token (some next) = (next, issued token)

abbrev pub keep_record :
    TokenStore → MintOptions → String → Option String × Option ℕ → TokenStore × Issued
keep_record store o token (some jti, some exp) =
    if jti == "" || nat_beq exp 0
    then (store, missing_claims)
    else stored_or_not store token (
        record_token store (record {
          jti = jti;
          expiry = exp;
          cfn = o.certificate_fingerprint;
          sans = names_of o.sans;
          entity_id = o.entity_id;
          entity_name = o.entity_name;
          entity_type = o.entity_type;
          revoked = false;
        }))
keep_record store o token _ = (store, missing_claims)

-- `mint`
unfoldable pub mint : Signing → TokenStore → MintOptions → TokenStore × Issued
unfolding record_token
mint signing store o =
    let token = signing.sign o in keep_record store o token (signing.decode_claims token)

-- `revoke`, by the token's id, by a name, or both; an empty text is falsy.
abbrev pub revoke_if : (TokenStore → String → TokenStore) → TokenStore → Option String → TokenStore
revoke_if by store none = store
revoke_if by store (some x) = if x == "" then store else by store x

unfoldable pub revoke :
    (List String → String → Bool) → TokenStore → (jti san : Option String) → TokenStore
unfolding revoke_token revoke_by_san
revoke like store jti san = revoke_if (revoke_by_san like) (revoke_if revoke_token store jti) san

abbrev pub unless_revoked : TokenStore → Payload → Option String → VerifyResult
unless_revoked store payload none = unverified "Token missing jti"
unless_revoked store payload (some jti) =
    if jti == ""
    then unverified "Token missing jti"
    else (if is_revoked store jti then unverified "Token is revoked" else verified payload)

abbrev pub check_store : TokenStore → VerifyResult → VerifyResult
check_store store (unverified e) = unverified e
check_store store (verified payload) = unless_revoked store payload payload.jti

-- `verify`
unfoldable pub verify : Signing → TokenStore → String → VerifyResult
unfolding is_revoked
verify signing store token = check_store store (signing.verify_signature token)
