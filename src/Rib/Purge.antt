-- ===== src/Rib/Purge.antt =====
-- What `planTick` of rib.ts purges: after it its own tests fail for all peers.
use catalyst_router.Prelude.{
  ℕ, String, Bool, true, false, not, ◌≡◌, refl, ◌∙◌, ap, List, [], ◌∷◌, ◌++◌, map, arith, All,
  All-get, All-mem, string_key, inl, inr, Bool-cases, ◌⊎◌, includes, includes-append, filter, any,
  ==_eq, ==_refl, ◌↔◌, Memᴰ,
}
use catalyst_router.Table.{RouteTable, PeerRecord, InternalRoute, new_state}
use catalyst_router.Rib.Plans.{from_peer}
use catalyst_router.Rib.Expiry.{
  plan_tick, is_expired, expire, names, has_stale_routes, is_lapsed, purged, is_purged, is_empty,
}
use catalyst_router.Rib.Machine.{state_changed}

-- The tests of the code fail throughout.
pub record IsQuiet (now : ℕ) (state : RouteTable) : Type 0 where
  pub sessions : All (λ p. is_expired now p ≡ false) state.peers
  pub grace : All (λ p. is_lapsed now state.internal_routes p ≡ false) state.peers

expire-not_expired :
    (now : ℕ) (ps : List PeerRecord) → All (λ p. is_expired now p ≡ false) (map (expire now) ps)
expire-not_expired now [] = tt
expire-not_expired now (p ∷ ps) = (ground arith, expire-not_expired now ps)

-- With nothing to purge the peers stay as they are.
map-expire_none :
    (now : ℕ) (ps : List PeerRecord)
    → names (filter (is_expired now) ps) ≡ []
    → map (expire now) ps ≡ ps
map-expire_none now [] h = refl
map-expire_none now (p ∷ ps) h = ground (arith, map-expire_none now ps)

-- A filter is empty exactly when its test fails throughout.
filter_none :
    {A : Type 0} (q : A → Bool) (xs : List A) → All (λ x. q x ≡ false) xs → filter q xs ≡ []
filter_none q [] h = refl
filter_none q (x ∷ xs) h = ground (arith, filter_none q xs h.1)

names_none :
    (q : PeerRecord → Bool) (ps : List PeerRecord)
    → names (filter q ps) ≡ []
    → All (λ p. q p ≡ false) ps
names_none q [] h = tt
names_none q (p ∷ ps) h = (ground arith, names_none q ps (ground arith))

append_none : {A : Type 0} (xs ys : List A) → xs ++ ys ≡ [] → (xs ≡ []) × (ys ≡ [])
append_none [] ys h = (refl, h)
append_none (x ∷ xs) ys h = cc

-- The routes that a purge leaves are from no purged peer.
kept_has_stale :
    (gone : List String) (rs : List InternalRoute) (p : PeerRecord)
    → includes gone p.name ≡ true
    → has_stale_routes (filter (λ r. not (is_purged gone r)) rs) p ≡ false
kept_has_stale gone [] p h = refl
kept_has_stale gone (r ∷ rs) p h = ground (
  arith,
  kept_has_stale gone rs p h,
  ==_eq r.peer.name p.name,
  λ (e : r.peer.name ≡ p.name). ap (includes gone) e,
)

fewer_has_stale :
    (q : InternalRoute → Bool) (rs : List InternalRoute) (p : PeerRecord)
    → has_stale_routes rs p ≡ false
    → has_stale_routes (filter q rs) p ≡ false
fewer_has_stale q [] p h = refl
fewer_has_stale q (r ∷ rs) p h = ground (arith, fewer_has_stale q rs p)

-- What a filter selects is among the names of the selected.
names-filter :
    (q : PeerRecord → Bool) (ps : List PeerRecord) {p : PeerRecord}
    → Memᴰ p ps
    → q p ≡ true
    → includes (names (filter q ps)) p.name ≡ true
names-filter q [] m h = elim m [ ]
names-filter q (x ∷ ps) {p} (Memᴰ.head e) h =
    ground (arith, ==_refl p.name, ap (λ (y : PeerRecord). y.name) e)
names-filter q (x ∷ ps) (Memᴰ.tail m) h = ground (arith, names-filter q ps m h)

-- After a purge that includes every lapsed peer, none is lapsed.
purge-grace :
    (now : ℕ) (gone : List String) (rs : List InternalRoute) (p : PeerRecord)
    → (is_lapsed now rs p ≡ false) ⊎ (includes gone p.name ≡ true)
    → is_lapsed now (filter (λ r. not (is_purged gone r)) rs) p ≡ false
purge-grace now gone rs p (inl ok) =
    ground (arith, fewer_has_stale (λ r. not (is_purged gone r)) rs p)
purge-grace now gone rs p (inr hit) = ground (arith, kept_has_stale gone rs p hit)

purged-lapsed :
    (now : ℕ) (state : RouteTable) (p : PeerRecord)
    → Memᴰ p (map (expire now) state.peers)
    → (is_lapsed now state.internal_routes p ≡ false) ⊎ (includes (purged now state) p.name ≡ true)
purged-lapsed now state p m = elim (Bool-cases (is_lapsed now state.internal_routes p)) [
  | inr f ↦ inl f
  | inl t ↦ inr (
      includes-append (names (filter (is_expired now) state.peers)) _ p.name
      ∙ ground (
        arith,
        names-filter (is_lapsed now state.internal_routes) (map (expire now) state.peers) m t,
      ))
]

is_empty-nil : (xs : List String) → is_empty xs ≡ true → xs ≡ []
is_empty-nil [] h = refl
is_empty-nil (x ∷ xs) h = cc

purged_none : (now : ℕ) (state : RouteTable) → purged now state ≡ [] → IsQuiet now state
purged_none now state h =
    let (expired, lapsed) = append_none (names (filter (is_expired now) state.peers)) _ h in
    let still = map-expire_none now state.peers expired in
    record {
      sessions = names_none (is_expired now) state.peers expired;
      grace = names_none (is_lapsed now state.internal_routes) state.peers (rw still at lapsed);
    }

IsQuiet-purged : (now : ℕ) (state : RouteTable) → IsQuiet now state → purged now state ≡ []
IsQuiet-purged now state s =
    let expired = filter_none (is_expired now) state.peers s.sessions in
    rw (expired, map-expire_none now state.peers (ap names expired))
      (ap names (filter_none (is_lapsed now state.internal_routes) state.peers s.grace))

pub plan_tick-IsQuiet :
    (now : ℕ) (state : RouteTable) → IsQuiet now (new_state (plan_tick now state))
unfolding plan_tick
plan_tick-IsQuiet now state = elim (Bool-cases (is_empty (purged now state))) [
  | inl idle ↦ rw (idle, plan_tick) (purged_none now state (is_empty-nil (purged now state) idle))
  | inr busy ↦
      rw (busy, plan_tick)
        (record {
          sessions = expire-not_expired now state.peers;
          grace = All-mem _ (map (expire now) state.peers) (λ p m.
              purge-grace now (purged now state) state.internal_routes p
                (purged-lapsed now state p m));
        })
]

-- A Tick is a no-op exactly on the tables that are settled at its time.
pub plan_tick-IsQuiet_iff :
    (now : ℕ) (state : RouteTable)
    → (state_changed (plan_tick now state) ≡ false) ↔ IsQuiet now state
unfolding plan_tick
plan_tick-IsQuiet_iff now state = (
  λ h. purged_none now state (is_empty-nil (purged now state) (ground arith)),
  λ s. ground (arith, IsQuiet-purged now state s),
)

unpurged_any :
    (gone : List String) (name : String) (rs : List InternalRoute)
    → includes gone name ≡ true
    → any (from_peer name) (filter (λ r. not (is_purged gone r)) rs) ≡ false
unpurged_any gone name [] h = refl
unpurged_any gone name (r ∷ rs) h = ground (
  arith,
  unpurged_any gone name rs h,
  ==_eq r.peer.name name,
  λ (e : r.peer.name ≡ name). ap (includes gone) e,
)

-- A Tick that finds a connected peer beyond its hold time withdraws every route learned from it,
-- fresh or stale, and closes every peer that is beyond its hold time.
pub plan_tick-expires :
    (now : ℕ) (state : RouteTable) (p : PeerRecord)
    → Memᴰ p state.peers
    → is_expired now p ≡ true
    → (any (from_peer p.name) (new_state (plan_tick now state)).internal_routes ≡ false)
      × ((new_state (plan_tick now state)).peers ≡ map (expire now) state.peers)
unfolding plan_tick
plan_tick-expires now state p m h = elim (Bool-cases (is_empty (purged now state))) [
  | inl idle ↦
      let quiet = purged_none now state (is_empty-nil (purged now state) idle) in
      let unexpired = All-get (λ q. is_expired now q ≡ false) state.peers quiet.sessions m in
      absurd (ground arith)
  | inr busy ↦
      rw (busy, plan_tick)
        (
          unpurged_any (purged now state) p.name state.internal_routes (
              includes-append (names (filter (is_expired now) state.peers)) _ p.name
              ∙ ground (arith, names-filter (is_expired now) state.peers m h)),
          refl,
        )
]
