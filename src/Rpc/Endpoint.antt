-- ===== src/Rpc/Endpoint.antt =====
-- The RPC route of catalyst-service.ts: a call with a token asks for a client and uses a method of it.
use catalyst_router.Prelude.{String, Bool, List, [], ◌∷◌}
use catalyst_router.Table.{DataChannel, PeerInfo, PeerRecord}
use catalyst_router.Action.{PeerDelete, ProtocolOpen, ProtocolClose, ProtocolUpdate}
use catalyst_router.Bus.Config.{Config}
use catalyst_router.Bus.Dispatch.{World}
use catalyst_router.Orchestrator.{OrchestratorService}
use catalyst_router.Rpc.Validator.{TokenValidator}
use catalyst_router.Rpc.Clients.{
  BusApi, service_bus, Step, Gate, granted, rejected, failed, create_network_client,
  create_data_channel_client,
}
use catalyst_router.Rpc.Ibgp.{Decoded, create_ibgp_client}

-- A call that may change the node, with its method.
pub data Message : Type 0 where
  add_peer_call update_peer_call : PeerInfo → Message
  remove_peer_call : PeerDelete → Message
  add_route_call remove_route_call : DataChannel → Message
  open_call : ProtocolOpen → Message
  close_call : ProtocolClose → Message
  update_call : ProtocolUpdate → Message
  keepalive_call : PeerInfo → Message

-- A method of the client, if there is one.
abbrev pub through {ℓ κ} : {A : Type ℓ} {S : Type κ} → Gate A → (A → Step S) → Step S
through (granted a) method s = method a s
through (rejected e) method s = (s, failed e, [])

module _ {ℓ} {S : Type ℓ} (bus : BusApi S) (decode_jwt : String → Decoded)
    (validator : TokenValidator) where
  unfoldable pub call : String → Message → Step S
  unfolding create_network_client create_data_channel_client create_ibgp_client
  call token (add_peer_call peer) =
      through (create_network_client bus token validator) (λ client. client.add_peer peer)
  call token (update_peer_call peer) =
      through (create_network_client bus token validator) (λ client. client.update_peer peer)
  call token (remove_peer_call peer) =
      through (create_network_client bus token validator) (λ client. client.remove_peer peer)
  call token (add_route_call route) =
      through (create_data_channel_client bus token validator) (λ client. client.add_route route)
  call token (remove_route_call route) =
      through (create_data_channel_client bus token validator) (λ client. client.remove_route route)
  call token (open_call d) =
      through (create_ibgp_client bus decode_jwt token validator) (λ client. client.open_session d)
  call token (close_call d) =
      through (create_ibgp_client bus decode_jwt token validator) (λ client. client.close_session d)
  call token (update_call d) =
      through (create_ibgp_client bus decode_jwt token validator) (λ client. client.update d)
  call token (keepalive_call info) =
      through (create_ibgp_client bus decode_jwt token validator) (λ client. client.keepalive info)

-- A call, with the times at which it is made and answered and what the transport reaches then.
pub record Request : Type 0 where
  pub token : String
  pub message : Message
  pub now : World
  pub later : World
  pub opens : PeerRecord → Bool

-- The service after some calls, of any callers.
module _ (c : Config) (decode_jwt : String → Decoded) (validator : TokenValidator) where
  unfoldable pub answer : Request → OrchestratorService → OrchestratorService
  unfolding call
  answer r s =
      (call (service_bus c r.now r.later r.opens) decode_jwt validator r.token r.message s).0

  abbrev pub answer_all : List Request → OrchestratorService → OrchestratorService
  answer_all [] s = s
  answer_all (r ∷ rs) s = answer_all rs (answer r s)
