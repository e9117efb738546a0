-- ===== src/Transport/Peering.antt =====
-- Two nodes: what the bus of one sends (bus.ts) gets through the RPC of the other (rpc.ts).
use catalyst_router.Prelude.{
  String, true, false, not, ◌≡◌, refl, ap, ◌∙◌, List, [], ◌∷◌, some, All, any, ◌==◌, string_key,
  ==_refl,
}
use catalyst_router.Table.{PeerInfo, PeerRecord, RouteTable, RouteChange}
use catalyst_router.Action.{UpdateItem, ProtocolUpdate, internal_protocol_update}
use catalyst_router.Bus.Config.{Config}
use catalyst_router.Bus.Propagation.{sync_updates, build_updates}
use catalyst_router.Bus.Horizon.{IsNews, updates-IsNews}
use catalyst_router.Rpc.Validator.{TokenValidator, valid}
use catalyst_router.Rpc.Clients.{BusApi, granted, behind, submit}
use catalyst_router.Rpc.Ibgp.{
  Decoded, claims, identity_of, extract_peer_identity, is_forged, update_as, bound,
  create_ibgp_client,
}
use catalyst_router.Rpc.Endpoint.{through, call, update_call}

news-unforged :
    (c : Config) (peer : PeerRecord) (us : List UpdateItem)
    → All (IsNews c peer) us
    → any (λ item. is_forged c.node_name item.node_path) us ≡ false
news-unforged c peer [] n = refl
news-unforged c peer (u ∷ us) ((path, e, f), n) =
    let rest = news-unforged c peer us n in
    let own : is_forged c.node_name u.node_path ≡ false =
      ap (is_forged c.node_name) e ∙ ap not (==_refl c.node_name) in
    rw (own, rest) refl

-- The node that sends, and what the other takes a message with.
module _ {ℓ} {S : Type ℓ} (bus : BusApi S) (decode_jwt : String → Decoded)
    (validator : TokenValidator) (token : String) (s : S) where
  named_identity : (name : String) → (name == "") ≡ false → identity_of (some name) ≡ granted name
  named_identity name n = rw n refl

  call-update_as :
      (name : String) (d : ProtocolUpdate)
      → validator.validate_token token "IBGP_CONNECT" ≡ valid
      → decode_jwt token ≡ claims (some name)
      → (name == "") ≡ false
      → call bus decode_jwt validator token (update_call d) s ≡ update_as bus name d s
  unfolding call create_ibgp_client
  call-update_as name d v j n =
      ap
        (λ result.
          through (behind result (bound bus (extract_peer_identity (decode_jwt token))))
            (λ client. client.update d) s)
        v
      ∙ ap
          (λ decoded.
            through (bound bus (extract_peer_identity decoded)) (λ client. client.update d) s)
          j
      ∙ ap (λ gate. through (bound bus gate) (λ client. client.update d) s) (named_identity name n)

  accepted :
      (c : Config) (node : PeerInfo) (peer : PeerRecord) (us : List UpdateItem)
      → node.name ≡ c.node_name
      → All (IsNews c peer) us
      → update_as bus c.node_name (record { peer_info = node; updates = us }) s
        ≡ submit bus (internal_protocol_update (record { peer_info = node; updates = us })) s
  accepted c node peer us e n =
      let own : (node.name == c.node_name) ≡ true =
        ap (λ name. name == c.node_name) e ∙ ==_refl c.node_name in
      rw (own, news-unforged c peer us n) refl

  -- What the bus of a node tells a peer with another name, of the whole table when the session starts
  -- or of changes later, gets through the peer's RPC and reaches the peer's bus as it is, if the
  -- peer accepts the node's token and reads the node's name in it: the check of the sender's name
  -- and of the paths' first nodes stops none of it.
  pub updates-reach :
      (c : Config) (node : PeerInfo) (peer : PeerRecord) (state : RouteTable)
      (changes : List RouteChange)
      → node.name ≡ c.node_name
      → (c.node_name == peer.name) ≡ false
      → validator.validate_token token "IBGP_CONNECT" ≡ valid
      → decode_jwt token ≡ claims (some c.node_name)
      → (c.node_name == "") ≡ false
      → (call bus decode_jwt validator token
            (update_call (record { peer_info = node; updates = sync_updates c peer state }))
            s
          ≡ submit bus
              (internal_protocol_update
                (record { peer_info = node; updates = sync_updates c peer state }))
              s)
        × (call bus decode_jwt validator token
              (update_call (record { peer_info = node; updates = build_updates c peer changes }))
              s
            ≡ submit bus
                (internal_protocol_update
                  (record { peer_info = node; updates = build_updates c peer changes }))
                s)
  updates-reach c node peer state changes e other v j n =
      let news = updates-IsNews c peer state changes other in
      (
        call-update_as c.node_name
              (record { peer_info = node; updates = sync_updates c peer state }) v j n
            ∙ accepted c node peer (sync_updates c peer state) e news.0,
        call-update_as c.node_name
              (record { peer_info = node; updates = build_updates c peer changes }) v j n
            ∙ accepted c node peer (build_updates c peer changes) e news.1,
      )
