-- ===== src/Rpc/Gate.antt =====
-- Who gets through: no call reaches the bus without the permission that its client asks for, and a
-- peer speaks in its own name only.
use catalyst_router.Prelude.{
  String, Bool, true, false, ◌≡◌, refl, [], Option, none, some, arith, string_key,
}
use catalyst_router.Rpc.Validator.{
  NodeContext, Authorization, authorized, denied, Permissions, handlers, no_permissions, AuthClient,
  invalid, TokenValidator, build_token_validator,
}
use catalyst_router.Rpc.Clients.{
  BusApi, Step, failed, create_network_client, create_data_channel_client,
}
use catalyst_router.Rpc.Ibgp.{Decoded, create_ibgp_client}
use catalyst_router.Rpc.Endpoint.{
  Message, call, add_peer_call, update_peer_call, remove_peer_call, add_route_call,
  remove_route_call, open_call, close_call, update_call, keepalive_call,
}

-- The permission for a call.
abbrev pub permission_of : Message → String
permission_of (add_peer_call peer) = "PEER_CREATE"
permission_of (update_peer_call peer) = "PEER_CREATE"
permission_of (remove_peer_call peer) = "PEER_CREATE"
permission_of (add_route_call route) = "ROUTE_CREATE"
permission_of (remove_route_call route) = "ROUTE_CREATE"
permission_of _ = "IBGP_CONNECT"

abbrev pub says_yes : Option Authorization → Bool
says_yes none = false
says_yes (some (denied e)) = false
says_yes (some (authorized answer)) = answer

abbrev pub grants : Option Permissions → String → NodeContext → Bool
grants none action context = false
grants (some (no_permissions e)) action context = false
grants (some (handlers authorize)) action context = says_yes (authorize action context)

-- The auth service says yes, or there is none and none is asked for.
abbrev pub is_allowed : Option AuthClient → Bool → NodeContext → String → String → Bool
is_allowed none allow context token action = allow
is_allowed (some client) allow context token action =
    grants (client.permissions token) action context

pub validate-IsAllowed :
    (auth : Option AuthClient) (allow : Bool) (context : NodeContext) (token action : String)
    → is_allowed auth allow context token action ≡ false
    → (e : String) × ((build_token_validator auth allow context).validate_token token action
        ≡ invalid e)
unfolding build_token_validator
validate-IsAllowed none true context token action h = absurd (ground arith)
validate-IsAllowed none false context token action h = ("Auth not configured", refl)
validate-IsAllowed (some client) allow context token action h =
    ("Authorization failed", ground arith)

module _ {ℓ} {S : Type ℓ} (bus : BusApi S) (decode_jwt : String → Decoded)
    (validator : TokenValidator) where
  call-refused :
      (token : String) (m : Message) (s : S) (e : String)
      → validator.validate_token token (permission_of m) ≡ invalid e
      → call bus decode_jwt validator token m s ≡ (s, failed e, [])
  unfolding call create_network_client create_data_channel_client create_ibgp_client
  call-refused token (add_peer_call peer) s e h = rw h refl
  call-refused token (update_peer_call peer) s e h = rw h refl
  call-refused token (remove_peer_call peer) s e h = rw h refl
  call-refused token (add_route_call route) s e h = rw h refl
  call-refused token (remove_route_call route) s e h = rw h refl
  call-refused token (open_call d) s e h = rw h refl
  call-refused token (close_call d) s e h = rw h refl
  call-refused token (update_call d) s e h = rw h refl
  call-refused token (keepalive_call info) s e h = rw h refl

-- What a node asks for comes to nothing.
abbrev pub IsUnheard {ℓ} : {S : Type ℓ} → Step S → S → Type ℓ
IsUnheard step s = (e : String) × (step s ≡ (s, failed e, []))

-- With the validator that the service builds, a call has no effect on the node and makes no call
-- itself, unless the auth service, which may fail, allows the caller of this token the action, or
-- there is none and the node is configured to need none: the caller is told an error.
pub call-IsUnheard {ℓ} :
    {S : Type ℓ} (bus : BusApi S) (decode_jwt : String → Decoded) (auth : Option AuthClient)
    (allow : Bool) (context : NodeContext) (token : String) (m : Message) (s : S)
    → is_allowed auth allow context token (permission_of m) ≡ false
    → IsUnheard (call bus decode_jwt (build_token_validator auth allow context) token m) s
call-IsUnheard bus decode_jwt auth allow context token m s h =
    let told = validate-IsAllowed auth allow context token (permission_of m) h in
    (
      told.0,
      call-refused bus decode_jwt (build_token_validator auth allow context) token m s told.0
          told.1,
    )
