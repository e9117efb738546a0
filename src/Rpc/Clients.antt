-- ===== src/Rpc/Clients.antt =====
-- The clients for the node's own administration: `createNetworkClient`, `createDataChannelClient`.
-- A method is a step of the bus; the bus is an interface, filled by `service_bus`.
use catalyst_router.Prelude.{String, Bool, List, map}
use catalyst_router.Table.{DataChannel, PeerInfo, PeerRecord, RouteTable}
use catalyst_router.Action.{
  Action, PeerDelete, local_peer_create, local_peer_update, local_peer_delete, local_route_create,
  local_route_delete,
}
use catalyst_router.Bus.Config.{Config, Call}
use catalyst_router.Bus.Dispatch.{
  StateResult, succeeded, peer_token_required, rejected_by_policy, no_state_change, World,
}
use catalyst_router.Orchestrator.{OrchestratorService, service_dispatch}
use catalyst_router.Views.{PublicPeer, PublicInternalRoute, public_peer, public_route}
use catalyst_router.Rpc.Validator.{Validation, valid, invalid, TokenValidator}

-- `{ success: true } | { success: false; error: string }`
pub data Reply : Type 0 where
  done : Reply
  failed : (error : String) → Reply

-- What the clients use of the bus.
pub record BusApi {ℓ} (S : Type ℓ) : Type ℓ where
  pub dispatch : Action → S → S × StateResult × List Call
  pub state : S → RouteTable

-- The bus of the running service.
unfoldable pub service_bus :
    Config → World → World → (PeerRecord → Bool) → BusApi OrchestratorService
unfolding service_dispatch
service_bus c now later opens = record {
  dispatch = λ action s. service_dispatch c now later opens action s;
  state = λ s. s.bus.rib.table;
}

abbrev pub reply_of : StateResult → Reply
reply_of (succeeded state action) = done
reply_of peer_token_required = failed "peerToken is required when creating a peer"
reply_of rejected_by_policy = failed "All routes rejected by inbound policy"
reply_of no_state_change = failed "No state change"

-- A step of the bus, with what the caller is told and the calls that the bus makes.
abbrev pub Step {ℓ} : Type ℓ → Type ℓ
Step S = S → S × Reply × List Call

-- Either a client or the reason why there is none.
pub data Gate {ℓ} (A : Type ℓ) : Type ℓ where
  granted : A → Gate A
  rejected : (error : String) → Gate A

abbrev pub behind {ℓ} : {A : Type ℓ} → Validation → Gate A → Gate A
behind valid gate = gate
behind (invalid e) gate = rejected e

pub record NetworkClient {ℓ} (S : Type ℓ) : Type ℓ where
  pub add_peer : PeerInfo → Step S
  pub update_peer : PeerInfo → Step S
  pub remove_peer : PeerDelete → Step S
  pub list_peers : S → List PublicPeer

pub record DataChannelClient {ℓ} (S : Type ℓ) : Type ℓ where
  pub add_route : DataChannel → Step S
  pub remove_route : DataChannel → Step S
  pub list_routes : S → List DataChannel × List PublicInternalRoute

module _ {ℓ} {S : Type ℓ} (bus : BusApi S) where
  -- A dispatch, and its result as a reply.
  abbrev pub submit : Action → Step S
  submit action s = let out = bus.dispatch action s in (out.0, reply_of out.1, out.2)

  abbrev pub network_client : NetworkClient S
  network_client = record {
    add_peer = λ peer. submit (local_peer_create peer);
    update_peer = λ peer. submit (local_peer_update peer);
    remove_peer = λ peer. submit (local_peer_delete peer);
    list_peers = λ s. map public_peer (bus.state s).peers;
  }

  abbrev pub data_channel_client : DataChannelClient S
  data_channel_client = record {
    add_route = λ route. submit (local_route_create route);
    remove_route = λ route. submit (local_route_delete route);
    list_routes = λ s. ((bus.state s).local_routes, map public_route (bus.state s).internal_routes);
  }

  unfoldable pub create_network_client : String → TokenValidator → Gate (NetworkClient S)
  create_network_client token validator =
      behind (validator.validate_token token "PEER_CREATE") (granted network_client)

  unfoldable pub create_data_channel_client : String → TokenValidator → Gate (DataChannelClient S)
  create_data_channel_client token validator =
      behind (validator.validate_token token "ROUTE_CREATE") (granted data_channel_client)
