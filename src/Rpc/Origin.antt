-- ===== src/Rpc/Origin.antt =====
-- What the name in a peer's token is worth: over any calls, every route is told by the peer that it
-- is attributed to.
use catalyst_router.Prelude.{
  String, Bool, false, ◌≡◌, refl, some, none, List, [], ◌∷◌, arith, All, any, inl, inr, Bool-cases,
  ◌==◌, string_key, ==_eq, sym, subst,
}
use catalyst_router.Table.{PeerInfo, PeerRecord}
use catalyst_router.Action.{
  Action, UpdateItem, ProtocolUpdate, local_peer_create, local_peer_update, local_peer_delete,
  local_route_create, local_route_delete, internal_protocol_open, internal_protocol_close,
  internal_protocol_update, internal_protocol_keepalive,
}
use catalyst_router.Rib.Attribution.{Attributes, Admits}
use catalyst_router.Bus.Config.{Config}
use catalyst_router.Bus.Dispatch.{World}
use catalyst_router.Orchestrator.{OrchestratorService}
use catalyst_router.Orchestrator.Attribution.{ServiceAttributes, service-Attributes}
use catalyst_router.Rpc.Validator.{Validation, valid, invalid, TokenValidator}
use catalyst_router.Rpc.Clients.{
  BusApi, Step, Gate, granted, rejected, behind, submit, service_bus, create_network_client,
  create_data_channel_client,
}
use catalyst_router.Rpc.Ibgp.{
  Decoded, claims, undecodable, IbgpClient, ibgp_client, bound, is_forged, names_peer, as_peer,
  update_as, extract_peer_identity, create_ibgp_client,
}
use catalyst_router.Rpc.Endpoint.{
  Message, Request, answer, answer_all, through, call, add_peer_call, update_peer_call,
  remove_peer_call, add_route_call, remove_route_call, open_call, close_call, update_call,
  keepalive_call,
}

-- What a call leaves true, whether it gets through or not.
module _ {ℓ κ μ} {S : Type ℓ} {A : Type μ} (P : S → Type κ) where
  behind-keeps :
      (v : Validation) (gate : Gate A) (method : A → Step S) (s : S)
      → P s
      → (v ≡ valid → P (through gate method s).0)
      → P (through (behind v gate) method s).0
  behind-keeps valid gate method s h g = g refl
  behind-keeps (invalid e) gate method s h g = h

module _ {ℓ κ} {S : Type ℓ} (bus : BusApi S) (P : S → Type κ) where
  bound-keeps :
      (gate : Gate String) (method : IbgpClient S → Step S) (s : S)
      → P s
      → ((identity : String) → gate ≡ granted identity → P (method (ibgp_client bus identity) s).0)
      → P (through (bound bus gate) method s).0
  bound-keeps (granted identity) method s h g = g identity refl
  bound-keeps (rejected e) method s h g = h

  as_peer-keeps :
      (identity : String) (info : PeerInfo) (action : Action) (s : S)
      → P s
      → P (bus.dispatch action s).0
      → P (as_peer bus identity info action s).0
  as_peer-keeps identity info action s h g = ground arith

-- The identity of a token is its subject.
identity-claims :
    (d : Decoded) (identity : String)
    → extract_peer_identity d ≡ granted identity
    → d ≡ claims (some identity)
identity-claims (claims none) identity h = cc
identity-claims (claims (some sub)) identity h = elim (Bool-cases (sub == "")) [
  | inl empty ↦ ground arith
  | inr full ↦ ground arith
]
identity-claims (undecodable message) identity h = cc

-- How tokens are read and validated.
module _ (decode_jwt : String → Decoded) (validator : TokenValidator) where
  -- A token that the validator accepts from a peer names the peer.
  abbrev pub IsTrusted : String → Type 0
  IsTrusted name =
      (token : String) × (validator.validate_token token "IBGP_CONNECT" ≡ valid)
      × (decode_jwt token ≡ claims (some name))

  abbrev pub IsVouched : String → List String → Type 0
  IsVouched name path = IsTrusted name × (is_forged name path ≡ false)

-- A running service.
module _ (c : Config) (decode_jwt : String → Decoded) (validator : TokenValidator) where
  abbrev VouchedService : OrchestratorService → Type 0
  VouchedService = ServiceAttributes (IsVouched decode_jwt validator) c

  unforged :
      (name : String) (items : List UpdateItem)
      → IsTrusted decode_jwt validator name
      → any (λ item. is_forged name item.node_path) items ≡ false
      → All (λ u. IsVouched decode_jwt validator name u.node_path) items
  unforged name [] t h = tt
  unforged name (item ∷ items) t h = ((t, ground arith), unforged name items t (ground arith))

  -- With the times of a call and what the transport reaches.
  module _ (now later : World) (opens : PeerRecord → Bool) where
    abbrev live_bus : BusApi OrchestratorService
    live_bus = service_bus c now later opens

    submit-keeps :
        (action : Action) (s : OrchestratorService)
        → Admits (IsVouched decode_jwt validator) action
        → VouchedService s
        → VouchedService (submit live_bus action s).0
    unfolding service_bus
    submit-keeps action s q h =
        service-Attributes (IsVouched decode_jwt validator) c now later opens action s q h

    update_as-keeps :
        (identity : String) (d : ProtocolUpdate) (s : OrchestratorService)
        → IsTrusted decode_jwt validator identity
        → VouchedService s
        → VouchedService (update_as live_bus identity d s).0
    update_as-keeps identity d s t h = elim (Bool-cases (names_peer identity d.peer_info)) [
      | inr other ↦ rw other h
      | inl named ↦ elim (Bool-cases (any (λ item. is_forged identity item.node_path) d.updates)) [
        | inl forged ↦ rw (named, forged) h
        | inr fine ↦
            rw (named, fine)
              (submit-keeps (internal_protocol_update d) s
                (subst
                  (λ name. All (λ u. IsVouched decode_jwt validator name u.node_path) d.updates)
                  (sym (==_eq d.peer_info.name identity named))
                  (unforged identity d.updates t fine))
                h)
      ]
    ]

    module _ (token : String) (s : OrchestratorService) (h : VouchedService s) where
      -- What a call through the client of a peer leaves, if its method does.
      peer_call-keeps :
          (method : IbgpClient OrchestratorService → Step OrchestratorService)
          → ((identity : String)
              → IsTrusted decode_jwt validator identity
              → VouchedService (method (ibgp_client live_bus identity) s).0)
          → VouchedService
              (through (create_ibgp_client live_bus decode_jwt token validator) method s).0
      unfolding create_ibgp_client
      peer_call-keeps method g =
          behind-keeps VouchedService (validator.validate_token token "IBGP_CONNECT") _ method s h
            (λ accepted.
              bound-keeps live_bus VouchedService (extract_peer_identity (decode_jwt token)) method
                s h
                (λ identity e.
                  g identity (token, accepted, identity-claims (decode_jwt token) identity e)))

      message-keeps :
          (identity : String) (info : PeerInfo) (action : Action)
          → Admits (IsVouched decode_jwt validator) action
          → VouchedService (as_peer live_bus identity info action s).0
      message-keeps identity info action q =
          as_peer-keeps live_bus VouchedService identity info action s h (submit-keeps action s q h)

      -- A call for the node's own administration.
      own_call-keeps :
          {A : Type 0} (permission : String) (client : A) (method : A → Step OrchestratorService)
          → VouchedService (method client s).0
          → VouchedService
              (through
                (behind (validator.validate_token token permission) (granted client))
                method
                s).0
      own_call-keeps permission client method g =
          behind-keeps VouchedService (validator.validate_token token permission) (granted client)
            method s h (λ accepted. g)

      call-keeps : (m : Message) → VouchedService (call live_bus decode_jwt validator token m s).0
      unfolding call create_network_client create_data_channel_client
      call-keeps (add_peer_call peer) =
          own_call-keeps "PEER_CREATE" _ _ (submit-keeps (local_peer_create peer) s tt h)
      call-keeps (update_peer_call peer) =
          own_call-keeps "PEER_CREATE" _ _ (submit-keeps (local_peer_update peer) s tt h)
      call-keeps (remove_peer_call peer) =
          own_call-keeps "PEER_CREATE" _ _ (submit-keeps (local_peer_delete peer) s tt h)
      call-keeps (add_route_call route) =
          own_call-keeps "ROUTE_CREATE" _ _ (submit-keeps (local_route_create route) s tt h)
      call-keeps (remove_route_call route) =
          own_call-keeps "ROUTE_CREATE" _ _ (submit-keeps (local_route_delete route) s tt h)
      call-keeps (open_call d) =
          peer_call-keeps (λ client. client.open_session d)
            (λ identity t. message-keeps identity d.peer_info (internal_protocol_open d) tt)
      call-keeps (close_call d) =
          peer_call-keeps (λ client. client.close_session d)
            (λ identity t. message-keeps identity d.peer_info (internal_protocol_close d) tt)
      call-keeps (update_call d) =
          peer_call-keeps (λ client. client.update d)
            (λ identity t. update_as-keeps identity d s t h)
      call-keeps (keepalive_call info) =
          peer_call-keeps (λ client. client.keepalive info)
            (λ identity t. message-keeps identity info (internal_protocol_keepalive info) tt)

-- Whatever calls reach the service, with any tokens, validator and reading of tokens: if every
-- route of the other nodes is attributed to a peer that is the subject of a token which the
-- validator accepts from a peer, and has a path that is empty or begins with that peer, then it is
-- so after the calls.
pub answer_all-IsVouched :
    (c : Config) (decode_jwt : String → Decoded) (validator : TokenValidator) (rs : List Request)
    (s : OrchestratorService)
    → All (Attributes (IsVouched decode_jwt validator)) s.bus.rib.table.internal_routes
    → All
        (Attributes (IsVouched decode_jwt validator))
        (answer_all c decode_jwt validator rs s).bus.rib.table.internal_routes
unfolding answer
answer_all-IsVouched c decode_jwt validator [] s h = h
answer_all-IsVouched c decode_jwt validator (r ∷ rs) s h =
    answer_all-IsVouched c decode_jwt validator rs (answer c decode_jwt validator r s)
      (call-keeps c decode_jwt validator r.now r.later r.opens r.token s h r.message)
