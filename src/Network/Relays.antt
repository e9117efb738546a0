-- ===== src/Network/Relays.antt =====
-- What a node tells of what it has taken in: its own name in front of a path that it was not in.
use catalyst_router.Prelude.{
  ℕ, String, false, ◌≡◌, refl, List, [], ◌∷◌, map, arith, All, All-append, includes, string_key,
  inl, inr, Bool-cases, Option-cases, find_index, find, subst,
}
use catalyst_router.Table.{
  DataChannel, InternalRoute, PeerInfo, PeerRecord, RouteTable, RouteChange, added, removed,
  updated, local, internal,
}
use catalyst_router.Action.{UpdateItem, UpdateKind, add, remove, ProtocolUpdate}
use catalyst_router.Rib.Update.{
  Progress, advertised, matches, gives_way, add_item, remove_item, apply_item, apply_items, start,
  plan_internal_protocol_update,
}
use catalyst_router.Rib.Invariant.{IsLoopFree}
use catalyst_router.Bus.Config.{Config}
use catalyst_router.Bus.Propagation.{
  local_item, internal_item, sync_internal, sync_updates, build_updates, update_for, change_route,
}

-- A change that does not bring a path through the node.
abbrev pub IsFree : String → RouteChange → Type 0
IsFree node_id (added (internal r)) = IsLoopFree node_id r
IsFree node_id (updated (internal r)) = IsLoopFree node_id r
IsFree node_id _ = Unit

add_item-IsFree :
    (node_id : String) (peer : PeerInfo) (item : UpdateItem) (st : Progress)
    → All (IsFree node_id) st.route_changes
    → All (IsFree node_id) (add_item node_id peer item st).route_changes
unfolding add_item
add_item-IsFree node_id peer item st h = elim (Bool-cases (includes item.node_path node_id)) [
  | inl loop ↦ rw (loop, add_item) h
  | inr free ↦ elim (Option-cases (find_index (matches item) st.routes)) [
    | inl new ↦
        rw (free, new, add_item)
          (All-append (IsFree node_id) st.route_changes
            (added (internal (advertised peer item)) ∷ []) h (free, tt))
    | inr ((i, old), found) ↦ elim (Bool-cases (gives_way old item)) [
      | inl better ↦
          rw (free, found, better, add_item)
            (All-append (IsFree node_id) st.route_changes
              (updated (internal (advertised peer item)) ∷ []) h (free, tt))
      | inr worse ↦ rw (free, found, worse, add_item) h
    ]
  ]
]

remove_item-IsFree :
    (node_id : String) (item : UpdateItem) (st : Progress)
    → All (IsFree node_id) st.route_changes
    → All (IsFree node_id) (remove_item item st).route_changes
unfolding remove_item
remove_item-IsFree node_id item st h = elim (Option-cases (find (matches item) st.routes)) [
  | inl e ↦ rw (e, remove_item) h
  | inr (r, e) ↦
      rw (e, remove_item)
        (All-append (IsFree node_id) st.route_changes (removed (internal r) ∷ []) h (tt, tt))
]

apply_items-IsFree :
    (node_id : String) (peer : PeerInfo) (items : List UpdateItem) (st : Progress)
    → All (IsFree node_id) st.route_changes
    → All (IsFree node_id) (apply_items node_id peer items st).route_changes
unfolding apply_items
apply_items-IsFree node_id peer [] st h = h
apply_items-IsFree node_id peer (item ∷ items) st h =
    apply_items-IsFree node_id peer items (apply_item node_id peer item st)
      (ground (arith, add_item-IsFree node_id peer item st h, remove_item-IsFree node_id item st h))

-- No change that a message makes brings a path through the node.
pub plan-IsFree :
    (clock : ℕ) (node_id : String) (d : ProtocolUpdate) (state : RouteTable)
    → All (IsFree node_id) (plan_internal_protocol_update clock node_id d state).route_changes
unfolding plan_internal_protocol_update
plan-IsFree clock node_id d state =
    let kept = apply_items-IsFree node_id d.peer_info d.updates (start state) tt in
    ground (arith, kept)

-- An update of the node, with a path that the node was not in.
abbrev pub IsAdvert : Config → UpdateItem → Type 0
IsAdvert c u =
    (path : List String) × (u.node_path ≡ c.node_name ∷ path) × (includes path c.node_name ≡ false)

abbrev FreeFor : Config → List String → UpdateKind → Type 0
FreeFor c path add = includes path c.node_name ≡ false
FreeFor c path remove = Unit

-- The same, at least if it advertises.
abbrev pub IsRelay : Config → UpdateItem → Type 0
IsRelay c u = (path : List String) × (u.node_path ≡ c.node_name ∷ path) × FreeFor c path u.action

module _ (c : Config) (peer : PeerRecord) where
  pub IsRelay-IsAdvert : (u : UpdateItem) → u.action ≡ add → IsRelay c u → IsAdvert c u
  IsRelay-IsAdvert u h (path, e, f) = (path, e, subst (FreeFor c path) h f)

  update_for-IsRelay :
      (change : RouteChange) (rest : List UpdateItem)
      → IsFree c.node_name change
      → All (IsRelay c) rest
      → All (IsRelay c) (update_for c peer change (change_route change) rest)
  update_for-IsRelay (added (local r)) rest f h = (([], refl, refl), h)
  update_for-IsRelay (updated (local r)) rest f h = (([], refl, refl), h)
  update_for-IsRelay (removed (local r)) rest f h = (([], refl, tt), h)
  update_for-IsRelay (added (internal r)) rest f h =
      let told : IsRelay c (internal_item c add r) = (r.node_path, refl, f) in ground (arith, told)
  update_for-IsRelay (updated (internal r)) rest f h =
      let told : IsRelay c (internal_item c add r) = (r.node_path, refl, f) in ground (arith, told)
  update_for-IsRelay (removed (internal r)) rest f h =
      let told : IsRelay c (internal_item c remove r) = (r.node_path, refl, tt) in
      ground (arith, told)

  pub build_updates-IsRelay :
      (changes : List RouteChange)
      → All (IsFree c.node_name) changes
      → All (IsRelay c) (build_updates c peer changes)
  unfolding build_updates
  build_updates-IsRelay [] f = tt
  build_updates-IsRelay (change ∷ changes) f =
      update_for-IsRelay change (build_updates c peer changes) f.0
        (build_updates-IsRelay changes f.1)

  locals-IsAdvert : (rs : List DataChannel) → All (IsAdvert c) (map (local_item c add) rs)
  locals-IsAdvert [] = tt
  locals-IsAdvert (r ∷ rs) = (([], refl, refl), locals-IsAdvert rs)

  sync_internal-IsAdvert :
      (rs : List InternalRoute)
      → All (IsLoopFree c.node_name) rs
      → All (IsAdvert c) (sync_internal c peer rs)
  unfolding sync_internal
  sync_internal-IsAdvert [] f = tt
  sync_internal-IsAdvert (r ∷ rs) f =
      let told : IsAdvert c (internal_item c add r) = (r.node_path, refl, f.0) in
      let rest = sync_internal-IsAdvert rs f.1 in ground (arith, told, rest)

  pub sync_updates-IsAdvert :
      (state : RouteTable)
      → All (IsLoopFree c.node_name) state.internal_routes
      → All (IsAdvert c) (sync_updates c peer state)
  unfolding sync_updates
  sync_updates-IsAdvert state f =
      All-append (IsAdvert c) (map (local_item c add) state.local_routes) _
        (locals-IsAdvert state.local_routes) (sync_internal-IsAdvert state.internal_routes f)
