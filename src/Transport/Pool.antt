-- ===== src/Transport/Pool.antt =====
-- A session that is lost is used on: nothing but a closing forgets it.
use catalyst_router.Prelude.{
  ℕ, String, Bool, false, ◌≡◌, refl, sym, ap, ◌∙◌, List, [], ◌∷◌, Option, none, some, inl, inr,
  Bool-cases, Option-cases, if◌then◌else◌, ◌==◌, string_key, ==_eq,
}
use catalyst_router.Table.{PeerInfo, PeerRecord}
use catalyst_router.Action.{UpdateItem}
use catalyst_router.Rpc.Endpoint.{Message}
use catalyst_router.Transport.{
  Heard, lost, Ask, Sent, thrown, Transport, stub_for, get_stub, given, heeded, unheeded, open_at,
  open_peer, with_token, send_at, ws_send_update, ws_send_keepalive,
}

-- A call of the transport, but for a closing.
pub data Sending : Type 0 where
  opening : PeerRecord → (token : String) → Sending
  updating : PeerRecord → List UpdateItem → Sending
  keeping : PeerRecord → Sending

abbrev pub peer_of : Sending → PeerRecord
peer_of (opening peer token) = peer
peer_of (updating peer updates) = peer
peer_of (keeping peer) = peer

abbrev pub aims : String → Option String → Bool
aims endpoint none = false
aims endpoint (some e) = e == endpoint

-- A call goes to an endpoint.
abbrev pub targets : String → Sending → Bool
targets endpoint x = aims endpoint (given (peer_of x).endpoint)

module _ (node : PeerInfo) (ask : Ask) where
  abbrev pub perform : Sending → Transport → Transport × Sent
  perform (opening peer token) t = open_peer node ask peer token t
  perform (updating peer updates) t = ws_send_update node ask peer updates t
  perform (keeping peer) t = ws_send_keepalive node ask peer t

  -- A session of an endpoint that answers nothing.
  abbrev pub IsLost : String → Transport → Type 0
  IsLost endpoint t =
      (n : ℕ) × (stub_for endpoint t ≡ some (endpoint, n))
      × ((token : String) (m : Message) → ask n token m ≡ lost)

  -- Every call of the endpoint throws.
  abbrev pub AllThrow : String → List Sending → Transport → Type 0
  AllThrow endpoint [] t = Unit
  AllThrow endpoint (x ∷ xs) t =
      ((if targets endpoint x then (perform x t).1 else thrown) ≡ thrown)
      × AllThrow endpoint xs (perform x t).0

  stub_for-get_stub :
      (endpoint other : String) (t : Transport) (s : String × ℕ)
      → stub_for endpoint t ≡ some s
      → stub_for endpoint (get_stub other t).0 ≡ some s
  unfolding get_stub
  stub_for-get_stub endpoint other t s h = elim (Option-cases (stub_for other t)) [
    | inr (found, e) ↦ rw e h
    | inl new ↦ elim (Bool-cases (other == endpoint)) [
      | inl same ↦
          absurd (none-some (sym new ∙ ap (λ e. stub_for e t) (==_eq other endpoint same) ∙ h))
      | inr differs ↦ rw (new, differs) h
    ]
  ]
    where
      none-some : none ≡ some s → ⊥
      none-some e = cc

  get_stub-found :
      (endpoint : String) (t : Transport) (n : ℕ)
      → stub_for endpoint t ≡ some (endpoint, n)
      → (get_stub endpoint t).1 ≡ n
  unfolding get_stub
  get_stub-found endpoint t n h = rw h refl

  open_at-keeps :
      (endpoint : String) (o : Option String) (peer : PeerRecord) (token : String) (t : Transport)
      (s : String × ℕ)
      → stub_for endpoint t ≡ some s
      → stub_for endpoint (open_at node ask o peer token t).0 ≡ some s
  open_at-keeps endpoint none peer token t s h = h
  open_at-keeps endpoint (some e) peer token t s h = stub_for-get_stub endpoint e t s h

  send_at-keeps :
      (endpoint : String) (result : Heard → Sent) (o : Option String) (peer : PeerRecord)
      (m : Message) (t : Transport) (s : String × ℕ)
      → stub_for endpoint t ≡ some s
      → stub_for endpoint (send_at node ask result o peer m t).0 ≡ some s
  send_at-keeps endpoint result none peer m t s h = h
  send_at-keeps endpoint result (some e) peer m t s h = stub_for-get_stub endpoint e t s h

  perform-keeps :
      (endpoint : String) (x : Sending) (t : Transport)
      → IsLost endpoint t
      → IsLost endpoint (perform x t).0
  unfolding open_peer ws_send_update ws_send_keepalive
  perform-keeps endpoint (opening peer token) t (n, h, dead) =
      (n, open_at-keeps endpoint (given peer.endpoint) peer token t _ h, dead)
  perform-keeps endpoint (updating peer updates) t (n, h, dead) =
      (n, send_at-keeps endpoint unheeded (given peer.endpoint) peer _ t _ h, dead)
  perform-keeps endpoint (keeping peer) t (n, h, dead) =
      (n, send_at-keeps endpoint unheeded (given peer.endpoint) peer _ t _ h, dead)

  open_at-throws :
      (endpoint : String) (o : Option String) (peer : PeerRecord) (token : String) (t : Transport)
      → IsLost endpoint t
      → (if aims endpoint o then (open_at node ask o peer token t).1 else thrown) ≡ thrown
  open_at-throws endpoint none peer token t l = refl
  open_at-throws endpoint (some e) peer token t (n, h, dead) = elim (Bool-cases (e == endpoint)) [
    | inr other ↦ rw other refl
    | inl same ↦
        let at = get_stub-found endpoint t n h in
        rw (same, ==_eq e endpoint same, at) (ap heeded (dead token _))
  ]

  with_token-lost :
      (result : Heard → Sent) (n : ℕ) (o : Option String) (m : Message)
      → ((token : String) → ask n token m ≡ lost)
      → result lost ≡ thrown
      → with_token node ask result n o m ≡ thrown
  with_token-lost result n none m dead r = refl
  with_token-lost result n (some token) m dead r = ap result (dead token) ∙ r

  send_at-throws :
      (endpoint : String) (result : Heard → Sent) (o : Option String) (peer : PeerRecord)
      (m : Message) (t : Transport)
      → IsLost endpoint t
      → result lost ≡ thrown
      → (if aims endpoint o then (send_at node ask result o peer m t).1 else thrown) ≡ thrown
  send_at-throws endpoint result none peer m t l r = refl
  send_at-throws endpoint result (some e) peer m t (n, h, dead) r =
      elim (Bool-cases (e == endpoint)) [
        | inr other ↦ rw other refl
        | inl same ↦
            let at = get_stub-found endpoint t n h in
            rw (same, ==_eq e endpoint same, at)
              (with_token-lost result n (given peer.peer_token) m (λ token. dead token m) r)
      ]

  perform-throws :
      (endpoint : String) (x : Sending) (t : Transport)
      → IsLost endpoint t
      → (if targets endpoint x then (perform x t).1 else thrown) ≡ thrown
  unfolding open_peer ws_send_update ws_send_keepalive
  perform-throws endpoint (opening peer token) t l =
      open_at-throws endpoint (given peer.endpoint) peer token t l
  perform-throws endpoint (updating peer updates) t l =
      send_at-throws endpoint unheeded (given peer.endpoint) peer _ t l refl
  perform-throws endpoint (keeping peer) t l =
      send_at-throws endpoint unheeded (given peer.endpoint) peer _ t l refl

  -- When the session that the WebSocket transport keeps for an endpoint is lost, so that it answers
  -- nothing any more, then every attempt to open a peer at that endpoint, and every update and
  -- keepalive to it, throws, however often and in whatever order they and those of other endpoints
  -- are tried: no new session is made.
  pub perform-AllThrow :
      (endpoint : String) (xs : List Sending) (t : Transport)
      → IsLost endpoint t
      → AllThrow endpoint xs t
  perform-AllThrow endpoint [] t l = tt
  perform-AllThrow endpoint (x ∷ xs) t l = (
    perform-throws endpoint x t l,
    perform-AllThrow endpoint xs (perform x t).0 (perform-keeps endpoint x t l),
  )
