-- ===== src/Auth/Revocation.antt =====
-- A token that was revoked stays so, and opens nothing.
use catalyst_router.Prelude.{
  String, Bool, true, false, ◌≡◌, refl, ap, ◌∙◌, List, [], ◌∷◌, ◌++◌, Option, none, some, arith,
  any, is_some, inl, inr, Bool-cases, ◌==◌, string_key, nat_beq, ◌||◌, ℕ,
}
use catalyst_router.Auth.Policy.{Payload}
use catalyst_router.Auth.Tokens.{
  TokenRecord, TokenStore, has_jti, record_token, find_token, revoke_where, revoke_token,
  revoke_by_san, is_revoked, MintOptions, verified, unverified, Signing, stored_or_not,
  unless_revoked, keep_record, mint, revoke_if, revoke, check_store, verify,
}
use catalyst_router.Auth.Server.{
  AuthServer, permissions, permissions_with, shut, tokens, certs, validation, entry_with,
  validation_entry,
}
use catalyst_router.Auth.Roles.{client_of}
use catalyst_router.Rpc.Validator.{NodeContext, no_permissions, build_token_validator}
use catalyst_router.Rpc.Clients.{BusApi}
use catalyst_router.Rpc.Ibgp.{Decoded}
use catalyst_router.Rpc.Endpoint.{Message, call}
use catalyst_router.Rpc.Gate.{grants, IsUnheard, permission_of, call-IsUnheard}

-- What happens to the tokens.
pub data TokenEvent : Type 0 where
  token_minted : MintOptions → TokenEvent
  token_revoked : (jti san : Option String) → TokenEvent

-- A store in which an id is revoked.
abbrev pub IsRevoked : String → TokenStore → Type 0
IsRevoked jti store = is_revoked store jti ≡ true

revoke_where-keeps :
    (p : TokenRecord → Bool) (jti : String) (store : TokenStore)
    → IsRevoked jti store
    → IsRevoked jti (revoke_where p store)
unfolding is_revoked
revoke_where-keeps p jti [] h = h
revoke_where-keeps p jti (r ∷ rs) h = ground (arith, revoke_where-keeps p jti rs)

revoke_where-revokes :
    (jti : String) (store : TokenStore)
    → is_some (find_token store jti) ≡ true
    → IsRevoked jti (revoke_where (has_jti jti) store)
unfolding is_revoked
revoke_where-revokes jti [] h = h
revoke_where-revokes jti (r ∷ rs) h = ground (arith, revoke_where-revokes jti rs)

push-keeps :
    (jti : String) (store more : TokenStore) → IsRevoked jti store → IsRevoked jti (store ++ more)
unfolding is_revoked
push-keeps jti [] more h = absurd (ground arith)
push-keeps jti (r ∷ rs) more h = ground (arith, push-keeps jti rs more)

record-keeps :
    (jti token : String) (store : TokenStore) (r : TokenRecord)
    → IsRevoked jti store
    → IsRevoked jti (stored_or_not store token (record_token store r)).0
unfolding record_token
record-keeps jti token store r h =
    let pushed = push-keeps jti store (r ∷ []) h in
    elim (Bool-cases (any (has_jti r.jti) store)) [
      | inl there ↦ rw there h
      | inr new ↦ rw new pushed
    ]

keep_record-keeps :
    (jti : String) (store : TokenStore) (o : MintOptions) (token : String)
    (decoded : Option String × Option ℕ)
    → IsRevoked jti store
    → IsRevoked jti (keep_record store o token decoded).0
keep_record-keeps jti store o token (none, none) h = h
keep_record-keeps jti store o token (none, some exp) h = h
keep_record-keeps jti store o token (some id, none) h = h
keep_record-keeps jti store o token (some id, some exp) h =
    elim (Bool-cases (id == "" || nat_beq exp 0)) [
      | inl falsy ↦ rw falsy h
      | inr fine ↦ rw fine (record-keeps jti token store _ h)
    ]

revoke_if-keeps :
    (by : TokenStore → String → TokenStore) (jti : String) (store : TokenStore) (x : Option String)
    → IsRevoked jti store
    → ((name : String) → IsRevoked jti (by store name))
    → IsRevoked jti (revoke_if by store x)
revoke_if-keeps by jti store none h g = h
revoke_if-keeps by jti store (some x) h g = let g_x = g x in ground arith

-- The tokens of a node.
module _ (signing : Signing) (like : List String → String → Bool) where
  abbrev pub after_event : TokenEvent → TokenStore → TokenStore
  after_event (token_minted o) store = (mint signing store o).0
  after_event (token_revoked jti san) store = revoke like store jti san

  abbrev pub after_events : List TokenEvent → TokenStore → TokenStore
  after_events [] store = store
  after_events (e ∷ es) store = after_events es (after_event e store)

  event-keeps :
      (jti : String) (e : TokenEvent) (store : TokenStore)
      → IsRevoked jti store
      → IsRevoked jti (after_event e store)
  unfolding mint revoke revoke_token revoke_by_san
  event-keeps jti (token_minted o) store h =
      keep_record-keeps jti store o (signing.sign o) (signing.decode_claims (signing.sign o)) h
  event-keeps jti (token_revoked id san) store h =
      let once =
        revoke_if-keeps revoke_token jti store id h
          (λ name. revoke_where-keeps (has_jti name) jti store h) in
      revoke_if-keeps (revoke_by_san like) jti (revoke_if revoke_token store id) san once (λ name.
        revoke_where-keeps (λ r. like r.sans name) jti (revoke_if revoke_token store id) once)

  pub events-keep :
      (jti : String) (es : List TokenEvent) (store : TokenStore)
      → IsRevoked jti store
      → IsRevoked jti (after_events es store)
  events-keep jti [] store h = h
  events-keep jti (e ∷ es) store h =
      events-keep jti es (after_event e store) (event-keeps jti e store h)

  pub revoke-IsRevoked :
      (jti : String) (store : TokenStore)
      → (jti == "") ≡ false
      → is_some (find_token store jti) ≡ true
      → IsRevoked jti (revoke like store (some jti) none)
  unfolding revoke revoke_token
  revoke-IsRevoked jti store n h = rw n (revoke_where-revokes jti store h)

  pub revoked-unverified :
      (store : TokenStore) (token jti : String) (payload : Payload)
      → signing.verify_signature token ≡ verified payload
      → payload.jti ≡ some jti
      → (jti == "") ≡ false
      → IsRevoked jti store
      → verify signing store token ≡ unverified "Token is revoked"
  unfolding verify
  revoked-unverified store token jti payload v j n h =
      ap (check_store store) v ∙ ap (unless_revoked store payload) j ∙ told
    where
      told : unless_revoked store payload (some jti) ≡ unverified "Token is revoked"
      told = rw (n, h) refl

-- A server whose tokens are verified against a store.
abbrev pub server_over : Signing → TokenStore → AuthServer → AuthServer
server_over signing store server = record server { verify_token = verify signing store }

-- Neither an entry of the server nor the node listens to a token.
abbrev pub IsPowerless {ℓ} :
    {S : Type ℓ}
    → BusApi S
    → (String → Decoded)
    → AuthServer
    → Bool
    → NodeContext
    → String
    → Message
    → S
    → Type ℓ
IsPowerless bus decode_jwt server allow context token m s =
    (permissions server token ≡ no_permissions "Invalid token")
    × (tokens server token ≡ shut "Invalid token")
    × (certs server token ≡ shut "Invalid token")
    × (validation server token ≡ shut "Invalid token")
    × IsUnheard
        (call bus decode_jwt (build_token_validator (some (client_of server)) allow context) token
          m)
        s

pub unverified-IsPowerless {ℓ} :
    {S : Type ℓ} (bus : BusApi S) (decode_jwt : String → Decoded) (server : AuthServer)
    (allow : Bool) (context : NodeContext) (token : String) (m : Message) (s : S) (e : String)
    → server.verify_token token ≡ unverified e
    → IsPowerless bus decode_jwt server allow context token m s
unfolding permissions tokens certs validation
unverified-IsPowerless bus decode_jwt server allow context token m s e h =
    let barred : permissions server token ≡ no_permissions "Invalid token" =
      ap (permissions_with server server.policy_service) h in
    (
      barred,
      ap (entry_with server server.policy_service) h,
      ap (entry_with server server.policy_service) h,
      ap validation_entry h,
      call-IsUnheard bus decode_jwt (some (client_of server)) allow context token m s
          (ap (λ granted. grants (some granted) (permission_of m) context) barred),
    )

-- A token that is signed and whose id is recorded is dead once its id is revoked: whatever tokens are
-- minted and revoked after that, it verifies no more, none of the server's four entries opens to it,
-- and a call with it has no effect on the node and makes no call itself.
pub revoke-IsPowerless {ℓ} :
    {S : Type ℓ} (bus : BusApi S) (decode_jwt : String → Decoded) (signing : Signing)
    (like : List String → String → Bool) (server : AuthServer) (store : TokenStore)
    (token jti : String) (payload : Payload) (es : List TokenEvent) (allow : Bool)
    (context : NodeContext) (m : Message) (s : S)
    → signing.verify_signature token ≡ verified payload
    → payload.jti ≡ some jti
    → (jti == "") ≡ false
    → is_some (find_token store jti) ≡ true
    → (verify signing (after_events signing like es (revoke like store (some jti) none)) token
        ≡ unverified "Token is revoked")
      × IsPowerless bus decode_jwt
          (server_over signing
            (after_events signing like es (revoke like store (some jti) none))
            server)
          allow
          context
          token
          m
          s
revoke-IsPowerless bus decode_jwt signing like server store token jti payload es allow context m s v
      j n h =
    let dead = after_events signing like es (revoke like store (some jti) none) in
    let gone = revoked-unverified signing like dead token jti payload v j n (
      events-keep signing like jti es (revoke like store (some jti) none)
        (revoke-IsRevoked signing like jti store n h)) in
    (
      gone,
      unverified-IsPowerless bus decode_jwt (server_over signing dead server) allow context token m
          s "Token is revoked" gone,
    )
