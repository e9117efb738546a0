-- ===== src/Bus/Quiet.antt =====
-- Keepalives: who gets one, and that none is sent twice for one interval.
use catalyst_router.Prelude.{
  ℕ, String, Bool, true, false, ◌≡◌, refl, ◌∙◌, ap, List, [], ◌∷◌, map, some, arith, All, All-mem,
  Memᴰ, filter, includes, if◌then◌else◌, string_key, inl, inr, Bool-cases, ==_refl,
}
use catalyst_router.Table.{PeerRecord, RouteTable}
use catalyst_router.Ports.{map_get, map_set}
use catalyst_router.Ports.Entries.{map_get-map_set_any}
use catalyst_router.Bus.Config.{send_keepalive}
use catalyst_router.Bus.Keepalive.{needs_keepalive, send_keepalives, handle_keepalives}

abbrev peer_names : List PeerRecord → List String
peer_names = map (λ p. p.name)

-- After the sends to `ps`, all delivered, the time of each of them is `now`.
sent-get :
    (now : ℕ) (ps : List PeerRecord) (m : List (String × ℕ)) (k : String)
    → map_get (send_keepalives (λ p. true) now ps m) k
      ≡ (if includes (peer_names ps) k then some now else map_get m k)
unfolding send_keepalives
sent-get now [] m k = refl
sent-get now (p ∷ ps) m k =
    sent-get now ps (map_set m p.name now) k ∙ ground (arith, map_get-map_set_any m p.name k now)

needing-name :
    (q : PeerRecord → Bool) (ps : List PeerRecord) {p : PeerRecord}
    → Memᴰ p ps
    → q p ≡ true
    → includes (peer_names (filter q ps)) p.name ≡ true
needing-name q [] m h = elim m [ ]
needing-name q (x ∷ ps) {p} (Memᴰ.head e) h =
    ground (arith, ==_refl p.name, ap (λ (y : PeerRecord). y.name) e)
needing-name q (x ∷ ps) (Memᴰ.tail m) h = ground (arith, needing-name q ps m h)

filter_none :
    {A : Type 0} (q : A → Bool) (xs : List A) → All (λ x. q x ≡ false) xs → filter q xs ≡ []
filter_none q [] h = refl
filter_none q (x ∷ xs) h = ground (arith, filter_none q xs h.1)

-- After the sends to all who needed one, nobody needs one.
sent-quiet :
    (now : ℕ) (last_sent : List (String × ℕ)) (state : RouteTable) (p : PeerRecord)
    → Memᴰ p state.peers
    → needs_keepalive
        (send_keepalives
          (λ p. true)
          now
          (filter (needs_keepalive last_sent now) state.peers)
          last_sent)
        now
        p
      ≡ false
sent-quiet now last_sent state p m =
    let needing = filter (needs_keepalive last_sent now) state.peers in
    elim (Bool-cases (needs_keepalive last_sent now p)) [
      | inl t ↦ ground (
        arith,
        sent-get now needing last_sent p.name,
        needing-name (needs_keepalive last_sent now) state.peers m t,
      )
      | inr f ↦ ground (arith, sent-get now needing last_sent p.name)
    ]

-- If all keepalives are delivered, a second Tick at the same time sends none.
pub handle_keepalives-quiet :
    (state : RouteTable) (now : ℕ) (last_sent : List (String × ℕ))
    → (handle_keepalives
        (λ p. true)
        state
        now
        (handle_keepalives (λ p. true) state now last_sent).1).0
      ≡ []
unfolding handle_keepalives
handle_keepalives-quiet state now last_sent =
    let needing = filter (needs_keepalive last_sent now) state.peers in
    let sent = send_keepalives (λ p. true) now needing last_sent in
    ap (map send_keepalive) (
      filter_none (needs_keepalive sent now) state.peers (
        All-mem (λ p. needs_keepalive sent now p ≡ false) state.peers
          (sent-quiet now last_sent state)))
