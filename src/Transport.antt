-- ===== src/Transport.antt =====
-- apps/orchestrator/src/v2/ws-transport.ts and http-transport.ts: the sessions with other nodes, one
-- for each endpoint, and the messages that go over them. What a session makes of a message, and
-- whether it still works, is the argument `ask`.
mod Pool
mod Peering
mod Tests
use catalyst_router.Prelude.{
  ℕ, suc, String, Bool, true, false, not, List, [], ◌∷◌, Option, none, some, find, filter,
  if◌then◌else◌, ◌==◌, string_key,
}
use catalyst_router.Table.{PeerInfo, PeerRecord}
use catalyst_router.Action.{UpdateItem}
use catalyst_router.Rpc.Clients.{Reply, done, failed}
use catalyst_router.Rpc.Endpoint.{Message, open_call, close_call, update_call, keepalive_call}

-- What comes back: nothing, since the session is lost; no client, with an error; or a reply.
pub data Heard : Type 0 where
  lost : Heard
  no_client : (error : String) → Heard
  replied : Reply → Heard

-- A session, by the number of its creation, is asked with a token for a message.
abbrev pub Ask : Type 0
Ask = ℕ → String → Message → Heard

-- A call of the transport returns or throws.
pub data Sent : Type 0 where
  sent thrown : Sent

-- `stubs`, and how many sessions were created.
pub record Transport : Type 0 where
  pub stubs : List (String × ℕ)
  pub created : ℕ

abbrev pub stub_for : String → Transport → Option (String × ℕ)
stub_for endpoint t = find (λ s. s.0 == endpoint) t.stubs

abbrev use_stub : String → Transport → Option (String × ℕ) → Transport × ℕ
use_stub endpoint t (some s) = (t, s.1)
use_stub endpoint t none =
    (record { stubs = (endpoint, t.created) ∷ t.stubs; created = suc t.created }, t.created)

-- `getStub`
unfoldable pub get_stub : String → Transport → Transport × ℕ
get_stub endpoint t = use_stub endpoint t (stub_for endpoint t)

-- `!x` on an optional text
abbrev pub given : Option String → Option String
given none = none
given (some x) = if x == "" then none else some x

-- The result of a message where a failure that is replied counts, and where it does not.
abbrev pub heeded : Heard → Sent
heeded lost = thrown
heeded (no_client e) = thrown
heeded (replied done) = sent
heeded (replied (failed e)) = thrown

abbrev pub unheeded : Heard → Sent
unheeded lost = thrown
unheeded (no_client e) = thrown
unheeded (replied r) = sent

module _ (node : PeerInfo) (ask : Ask) where
  abbrev pub open_at : Option String → PeerRecord → String → Transport → Transport × Sent
  open_at none peer token t = (t, thrown)
  open_at (some endpoint) peer token t =
      let (next, n) = get_stub endpoint t in
      (
        next,
        heeded (
            ask n token (open_call (record { peer_info = node; hold_time = some peer.hold_time }))),
      )

  -- `openPeer`, of both transports.
  unfoldable pub open_peer : PeerRecord → String → Transport → Transport × Sent
  unfolding get_stub
  open_peer peer token t = open_at (given peer.endpoint) peer token t

  abbrev pub with_token : (Heard → Sent) → ℕ → Option String → Message → Sent
  with_token result n none m = thrown
  with_token result n (some token) m = result (ask n token m)

  abbrev pub send_at :
      (Heard → Sent) → Option String → PeerRecord → Message → Transport → Transport × Sent
  send_at result none peer m t = (t, thrown)
  send_at result (some endpoint) peer m t =
      let (next, n) = get_stub endpoint t in (next, with_token result n (given peer.peer_token) m)

  -- A message over the session with a peer, with the peer's token.
  abbrev pub send_message : (Heard → Sent) → PeerRecord → Message → Transport → Transport × Sent
  send_message result peer m t = send_at result (given peer.endpoint) peer m t

  -- `sendUpdate` and `sendKeepalive` of WebSocketPeerTransport.
  unfoldable pub ws_send_update : PeerRecord → List UpdateItem → Transport → Transport × Sent
  unfolding get_stub
  ws_send_update peer updates t =
      send_message unheeded peer (update_call (record { peer_info = node; updates = updates })) t

  unfoldable pub ws_send_keepalive : PeerRecord → Transport → Transport × Sent
  unfolding get_stub
  ws_send_keepalive peer t = send_message unheeded peer (keepalive_call node) t

  -- Those of HttpPeerTransport.
  unfoldable pub http_send_update : PeerRecord → List UpdateItem → Transport → Transport × Sent
  unfolding get_stub
  http_send_update peer updates t =
      send_message heeded peer (update_call (record { peer_info = node; updates = updates })) t

  unfoldable pub http_send_keepalive : PeerRecord → Transport → Transport × Sent
  unfolding get_stub
  http_send_keepalive peer t = send_message heeded peer (keepalive_call node) t

  abbrev forget : String → Transport → Transport
  forget endpoint t = record t { stubs = filter (λ s. not (s.0 == endpoint)) t.stubs }

  -- Whatever is heard of the closing, the session is forgotten; without a token it is kept.
  abbrev pub close_at : Option String → PeerRecord → Transport → Transport × Sent
  close_at none peer t = (t, thrown)
  close_at (some endpoint) peer t =
      let (next, n) = get_stub endpoint t in
      elim (given peer.peer_token) [
        | none ↦ (next, sent)
        | some token ↦ (forget endpoint next, sent)
      ]

  -- `closePeer`, of both transports.
  unfoldable pub close_peer : PeerRecord → Transport → Transport × Sent
  unfolding get_stub
  close_peer peer t = close_at (given peer.endpoint) peer t
