-- ===== src/Rpc/Ibgp.antt =====
-- `createIBGPClient`: the client of a peer, bound to the name in its token. `decode_jwt` is that of
-- the library jose.
use Prim.Native.String.{◌++◌ as str_append}
use catalyst_router.Prelude.{
  String, Bool, false, not, List, [], ◌∷◌, Option, none, some, if◌then◌else◌, ◌==◌, string_key, any,
}
use catalyst_router.Table.{PeerInfo}
use catalyst_router.Action.{
  Action, ProtocolOpen, ProtocolClose, ProtocolUpdate, internal_protocol_open,
  internal_protocol_close, internal_protocol_update, internal_protocol_keepalive,
}
use catalyst_router.Rpc.Validator.{TokenValidator}
use catalyst_router.Rpc.Clients.{
  BusApi, Reply, failed, Step, Gate, granted, rejected, behind, submit,
}

-- The payload's `sub`, if it is a string; or the message of the error that is thrown.
pub data Decoded : Type 0 where
  claims : (sub : Option String) → Decoded
  undecodable : (message : String) → Decoded

abbrev pub identity_of : Option String → Gate String
identity_of none = rejected "JWT missing sub claim"
identity_of (some sub) = if sub == "" then rejected "JWT missing sub claim" else granted sub

-- `extractPeerIdentity`
abbrev pub extract_peer_identity : Decoded → Gate String
extract_peer_identity (claims sub) = identity_of sub
extract_peer_identity (undecodable message) =
    rejected (str_append "Failed to decode peer JWT: " message)

-- `verifyPeerName`: the peer that a message names is the one that the token names.
abbrev pub names_peer : String → PeerInfo → Bool
names_peer identity info = info.name == identity

-- `entry.nodePath.length > 0 && entry.nodePath[0] !== peerIdentity`
abbrev pub is_forged : String → List String → Bool
is_forged identity [] = false
is_forged identity (first ∷ rest) = not (first == identity)

abbrev pub name_mismatch : Reply
name_mismatch = failed "Peer identity mismatch: peerInfo.name does not match authenticated identity"

abbrev pub origin_mismatch : Reply
origin_mismatch = failed "Route origin mismatch: nodePath[0] does not match authenticated identity"

pub record IbgpClient {ℓ} (S : Type ℓ) : Type ℓ where
  pub open_session : ProtocolOpen → Step S
  pub close_session : ProtocolClose → Step S
  pub update : ProtocolUpdate → Step S
  pub keepalive : PeerInfo → Step S

module _ {ℓ} {S : Type ℓ} (bus : BusApi S) where
  -- A message of the peer, dispatched if it names the peer.
  abbrev pub as_peer : String → PeerInfo → Action → Step S
  as_peer identity info action s =
      if names_peer identity info then submit bus action s else (s, name_mismatch, [])

  abbrev pub update_as : String → ProtocolUpdate → Step S
  update_as identity d s =
      if names_peer identity d.peer_info
      then (if any (λ item. is_forged identity item.node_path) d.updates
          then (s, origin_mismatch, [])
          else submit bus (internal_protocol_update d) s)
      else (s, name_mismatch, [])

  abbrev pub ibgp_client : String → IbgpClient S
  ibgp_client identity = record {
    open_session = λ d. as_peer identity d.peer_info (internal_protocol_open d);
    close_session = λ d. as_peer identity d.peer_info (internal_protocol_close d);
    update = update_as identity;
    keepalive = λ info. as_peer identity info (internal_protocol_keepalive info);
  }

  abbrev pub bound : Gate String → Gate (IbgpClient S)
  bound (granted identity) = granted (ibgp_client identity)
  bound (rejected e) = rejected e

  unfoldable pub create_ibgp_client :
      (decode_jwt : String → Decoded) → String → TokenValidator → Gate (IbgpClient S)
  create_ibgp_client decode_jwt token validator =
      behind (validator.validate_token token "IBGP_CONNECT")
        (bound (extract_peer_identity (decode_jwt token)))
