-- ===== src/Orchestrator/Peers.antt =====
-- What the dispatches that create and connect a peer (apps/orchestrator/src/v2/bus.ts) and a retry
-- (reconnect.ts) do to the peer.
use catalyst_router.Prelude.{
  ℕ, String, true, false, ◌≡◌, refl, sym, ap, ◌∙◌, List, [], ◌∷◌, ◌++◌, Option, none, some, any,
  set, find, find_index, ◌==◌, string_key, arith, inl, inr, Bool-cases, Option-cases, lookup-set,
  ==_refl, find_index-none, find_index-find, find_index-key,
}
use catalyst_router.Table.{PeerInfo, PeerRecord, PlanResult, new_state, connected}
use catalyst_router.Action.{Action, local_peer_create, internal_protocol_connected}
use catalyst_router.Rib.Plans.{named, with_peers}
use catalyst_router.Rib.Local.{plan_local_peer_create, new_peer, default_hold_time}
use catalyst_router.Rib.Session.{plan_internal_protocol_connected}
use catalyst_router.Rib.Machine.{plan}
use catalyst_router.Journal.{commit}
use catalyst_router.Ports.{Allocator}
use catalyst_router.Timers.Reconnect.{ReconnectManager, schedule_reconnect, has_timer}
use catalyst_router.Bus.Config.{Config}
use catalyst_router.Bus.Allocation.{plan_port_allocations, allocate_ports}
use catalyst_router.Bus.Propagation.{apply_inbound_policy}
use catalyst_router.Bus.Dispatch.{Bus, World, Outcome, dispatch, complete, is_refused}
use catalyst_router.Orchestrator.{find_peer}

allocations-peers :
    (p : PlanResult) (a : Option Allocator)
    → (new_state (plan_port_allocations p a).0).peers ≡ (new_state p).peers
unfolding plan_port_allocations allocate_ports
allocations-peers p none = refl
allocations-peers p (some a) = refl

pub complete-peers :
    (c : Config) (w : World) (action : Action) (p : PlanResult) (bus : Bus)
    → (complete c w action p bus).0.rib.table.peers ≡ (new_state p).peers
unfolding complete commit
complete-peers c w action p bus = allocations-peers p bus.port_allocator

module _ (c : Config) (w : World) (bus : Bus) where
  abbrev pub known : List PeerRecord
  known = bus.rib.table.peers

  pub created :
      (info : PeerInfo)
      → is_refused c (local_peer_create info) ≡ false
      → any (named info.name) known ≡ false
      → dispatch c w (local_peer_create info) bus
        ≡ complete c w
            (local_peer_create info)
            (with_peers bus.rib.table (known ++ new_peer info ∷ []))
            bus
  unfolding dispatch plan plan_local_peer_create apply_inbound_policy
  created info fine new = ground (arith, fine, new)

  abbrev pub live : PeerRecord → PeerRecord
  live old = record old {
    connection_status = connected;
    last_connected = w.clock;
    last_received = w.clock;
    hold_time = default_hold_time;
    last_sent = 0;
  }

  connected_dispatch :
      (info : PeerInfo) {i : ℕ} {old : PeerRecord}
      → find_index (named info.name) known ≡ some (i, old)
      → dispatch c w (internal_protocol_connected info) bus
        ≡ complete c w
            (internal_protocol_connected info)
            (with_peers bus.rib.table (set known i (live old)))
            bus
  unfolding dispatch plan plan_internal_protocol_connected apply_inbound_policy
  connected_dispatch info h = ground (arith, h)

  -- The session of a known peer starts.
  pub connected-live :
      (info : PeerInfo) {i : ℕ} {old : PeerRecord}
      → find_index (named info.name) known ≡ some (i, old)
      → find_peer info.name (dispatch c w (internal_protocol_connected info) bus).0.rib.table
        ≡ some (live old)
  connected-live info {i} {old} h =
      let p = with_peers bus.rib.table (set known i (live old)) in
      ap (λ (o : Outcome). find_peer info.name o.0.rib.table) (connected_dispatch info h)
      ∙ ap (find (named info.name)) (complete-peers c w (internal_protocol_connected info) p bus)
      ∙ lookup-set (λ (q : PeerRecord). q.name) info.name info.name known (live old) h
          (find_index-key (λ (q : PeerRecord). q.name) info.name known h)
      ∙ ground (arith, ==_refl info.name)

-- A peer that is found has an index.
pub found_index :
    (name : String) (ps : List PeerRecord) {p : PeerRecord}
    → find (named name) ps ≡ some p
    → (i : ℕ) × (find_index (named name) ps ≡ some (i, p))
found_index name ps {p} h = elim (Option-cases (find_index (named name) ps)) [
  | inl e ↦
      absurd (none-some (sym (find_index-none (λ (q : PeerRecord). q.name) (named name) ps e) ∙ h))
  | inr ((i, q), e) ↦ (
    i,
    e
        ∙ ap (λ x. some (i, x))
            (same (sym (find_index-find (λ (q : PeerRecord). q.name) (named name) ps e) ∙ h)),
  )
]
  where
    none-some : {q : PeerRecord} → none ≡ some q → ⊥
    none-some e = cc

    same : {q r : PeerRecord} → some q ≡ some r → q ≡ r
    same e = cc

pub schedule-has_timer :
    (m : ReconnectManager) (peer : PeerRecord)
    → has_timer (schedule_reconnect m peer).0 peer.name ≡ true
unfolding schedule_reconnect
schedule-has_timer m peer = elim (Bool-cases (has_timer m peer.name)) [
  | inl e ↦ ground (arith, e)
  | inr e ↦ ground (arith, e, any_push m.timers)
]
  where
    any_push : (ps : List PeerRecord) → any (λ p. p.name == peer.name) (ps ++ peer ∷ []) ≡ true
    any_push [] = ground (arith, ==_refl peer.name)
    any_push (p ∷ ps) = ground (arith, any_push ps)
