-- ===== src/Rib/Holding.antt =====
-- What a Tick leaves behind: no peer beyond its hold time, and no stale route beyond its grace.
use catalyst_router.Prelude.{
  ◌+◌, ◌<◌, ◌≤◌, ◌≢◌, some, subst, ltb, ◌==◌, ℕ, true, false, ◌≡◌, refl, ap, List, [], ◌∷◌, map,
  arith, All, All-mem, string_key, inl, inr, Bool-cases, ◌⊎◌, ==_refl, Memᴰ,
}
use catalyst_router.Table.{
  initializing, connected, closed, is_connected, is_closed, is_true, ConnectionStatus, RouteTable,
  PeerRecord, InternalRoute, new_state,
}
use catalyst_router.Rib.Plans.{from_peer}
use catalyst_router.Rib.Expiry.{
  is_overdue, plan_tick, is_expired, expire, has_stale_routes, is_lapsed, purged, is_empty,
}
use catalyst_router.Rib.Purge.{plan_tick-IsQuiet}

-- A peer that was heard of within its hold time, or has none, or was never heard of.
abbrev pub Within : ℕ → PeerRecord → Type 0
Within now p = (p.hold_time ≡ 0) ⊎ (p.last_received ≡ 0) ⊎ (now ≤ p.last_received + p.hold_time)

abbrev pub Beyond : ℕ → PeerRecord → Type 0
Beyond now p = (0 < p.hold_time) × (0 < p.last_received) × (p.last_received + p.hold_time < now)

-- No route of a peer is stale.
abbrev pub NoneStale : List InternalRoute → PeerRecord → Type 0
NoneStale rs p = All (λ r. (r.peer.name ≢ p.name) ⊎ (r.is_stale ≢ some true)) rs

-- At the time `now` each connected peer is within its hold time, and each closed one that is not has
-- no stale route.
pub record IsSettled (now : ℕ) (state : RouteTable) : Type 0 where
  pub live : All (λ p. (p.connection_status ≢ connected) ⊎ Within now p) state.peers
  pub settled :
      All
        (λ p. (p.connection_status ≢ closed) ⊎ Within now p ⊎ NoneStale state.internal_routes p)
        state.peers

overdue-Within : (now : ℕ) (p : PeerRecord) → is_overdue now p ≡ false → Within now p
overdue-Within now p h = elim (Bool-cases (ltb 0 p.hold_time)) [
  | inr none_set ↦ inl (ground (arith, none_set))
  | inl timed ↦ elim (Bool-cases (ltb 0 p.last_received)) [
    | inr silent ↦ inr (inl (ground (arith, silent)))
    | inl heard ↦ inr (inr (ground (arith, h, timed, heard)))
  ]
]

overdue-Beyond : (now : ℕ) (p : PeerRecord) → is_overdue now p ≡ true → Beyond now p
overdue-Beyond now p h = (ground arith, ground arith, ground arith)

expired-live :
    (now : ℕ) (p : PeerRecord)
    → is_expired now p ≡ false
    → (p.connection_status ≢ connected) ⊎ Within now p
expired-live now p h = elim (Bool-cases (is_connected p.connection_status)) [
  | inl up ↦ inr (overdue-Within now p (ground (arith, h, up)))
  | inr down ↦ inl (λ e. ground (arith, ap is_connected e, down))
]

fresh-NoneStale :
    (rs : List InternalRoute) (p : PeerRecord) → has_stale_routes rs p ≡ false → NoneStale rs p
fresh-NoneStale [] p h = tt
fresh-NoneStale (r ∷ rs) p h = (one, fresh-NoneStale rs p (ground arith))
  where
    one : (r.peer.name ≢ p.name) ⊎ (r.is_stale ≢ some true)
    one = elim (Bool-cases (from_peer p.name r)) [
      | inl own ↦ inr (λ e. ground (arith, own, h, ap is_true e))
      | inr other ↦ inl (λ e. ground (arith, other, ap (◌==◌ r.peer.name) e, ==_refl r.peer.name))
    ]

lapsed-settled :
    (now : ℕ) (rs : List InternalRoute) (p : PeerRecord)
    → is_lapsed now rs p ≡ false
    → (p.connection_status ≢ closed) ⊎ Within now p ⊎ NoneStale rs p
lapsed-settled now rs p h = elim (Bool-cases (is_closed p.connection_status)) [
  | inr still ↦ inl (λ e. ground (arith, ap is_closed e, still))
  | inl shut ↦ elim (Bool-cases (is_overdue now p)) [
    | inr early ↦ inr (inl (overdue-Within now p early))
    | inl late ↦ inr (inr (fresh-NoneStale rs p (ground (arith, h, shut, late))))
  ]
]

All-to : {A : Type 0} (P Q : A → Type 0) (xs : List A) → ((x : A) → P x → Q x) → All P xs → All Q xs
All-to P Q [] f h = tt
All-to P Q (x ∷ xs) f h = (f x h.0, All-to P Q xs f h.1)

is_connected_lem : (c : ConnectionStatus) → is_connected c ≡ true → c ≡ connected
is_connected_lem connected h = refl
is_connected_lem initializing h = absurd (ground arith)
is_connected_lem closed h = absurd (ground arith)

Memᴰ-map : {A B : Type 0} (f : A → B) (xs : List A) {x : A} → Memᴰ x xs → Memᴰ (f x) (map f xs)
Memᴰ-map f [] m = elim m [ ]
Memᴰ-map f (y ∷ xs) (Memᴰ.head e) = Memᴰ.head (ap f e)
Memᴰ-map f (y ∷ xs) (Memᴰ.tail m) = Memᴰ.tail (Memᴰ-map f xs m)

expire-stays :
    (now : ℕ) (p : PeerRecord) (ps : List PeerRecord)
    → Memᴰ (expire now p) ps
    → Memᴰ p ps ⊎ ((p.connection_status ≡ connected) × Beyond now p)
expire-stays now p ps m = elim (Bool-cases (is_expired now p)) [
  | inl out ↦
      inr (is_connected_lem p.connection_status (ground arith), overdue-Beyond now p (ground arith))
  | inr kept ↦ inl (subst (λ q. Memᴰ q ps) (ground (arith, kept)) m)
]

plan_tick-stays :
    (now : ℕ) (state : RouteTable)
    → All
        (λ p.
          Memᴰ p (new_state (plan_tick now state)).peers
          ⊎ ((p.connection_status ≡ connected) × Beyond now p))
        state.peers
unfolding plan_tick
plan_tick-stays now state = All-mem _ state.peers (λ p m.
    elim (Bool-cases (is_empty (purged now state))) [
      | inl idle ↦ rw (idle, plan_tick) (inl m)
      | inr busy ↦ rw (busy, plan_tick) (expire-stays now p _ (Memᴰ-map (expire now) state.peers m))
    ])

-- After a Tick on any table each connected peer was heard of within its hold time, and each closed
-- one that was not has no stale route, where a peer with no hold time or one that was never heard of
-- counts as heard of; and every peer stays as it was, unless it was connected and beyond its hold
-- time.
pub plan_tick-IsSettled :
    (now : ℕ) (state : RouteTable)
    → IsSettled now (new_state (plan_tick now state))
      × All
          (λ p.
            Memᴰ p (new_state (plan_tick now state)).peers
            ⊎ ((p.connection_status ≡ connected) × Beyond now p))
          state.peers
plan_tick-IsSettled now state =
    let q = plan_tick-IsQuiet now state in
    let after = new_state (plan_tick now state) in
    (
      record {
        live = All-to _ _ after.peers (expired-live now) q.sessions;
        settled = All-to _ _ after.peers (lapsed-settled now after.internal_routes) q.grace;
      },
      plan_tick-stays now state,
    )
