-- ===== src/Rib/Attribution.antt =====
-- What every route says of its peer and its path: the handlers write neither, except for an update.
use catalyst_router.Prelude.{
  ℕ, String, not, List, [], ◌∷◌, map, arith, All, All-append, All-filter, All-set, includes,
  find_index, inl, inr, Option-cases, Bool-cases, string_key,
}
use catalyst_router.Table.{RouteTable, PeerInfo, InternalRoute, new_state}
use catalyst_router.Action.{
  Action, UpdateItem, ProtocolUpdate, ProtocolClose, local_peer_create, local_peer_update,
  local_peer_delete, local_route_create, local_route_delete, local_route_health_update,
  internal_protocol_open, internal_protocol_connected, internal_protocol_close,
  internal_protocol_update, internal_protocol_keepalive, tick,
}
use catalyst_router.Rib.Plans.{from_peer}
use catalyst_router.Rib.Local.{
  plan_local_peer_create, plan_local_peer_update, plan_local_peer_delete, plan_local_route_create,
  plan_local_route_delete, plan_local_route_health_update,
}
use catalyst_router.Rib.Session.{
  stale_from, plan_internal_protocol_open, plan_internal_protocol_connected,
  plan_internal_protocol_close, plan_internal_protocol_keepalive,
}
use catalyst_router.Rib.Update.{
  Progress, matches, gives_way, apply_item, apply_items, add_item, remove_item, start,
  plan_internal_protocol_update,
}
use catalyst_router.Rib.Expiry.{plan_tick, purged, is_purged}
use catalyst_router.Rib.Machine.{plan}

-- A property of the name of a route's peer and of its path.
module _ (Q : String → List String → Type 0) where
  abbrev pub Attributes : InternalRoute → Type 0
  Attributes r = Q r.peer.name r.node_path

  -- The updates of an action have it too, for their sender.
  abbrev pub Admits : Action → Type 0
  Admits (internal_protocol_update d) = All (λ u. Q d.peer_info.name u.node_path) d.updates
  Admits _ = Unit

  stale_from-Attributes :
      (name : String) (rs : List InternalRoute)
      → All Attributes rs
      → All Attributes (map (stale_from name) rs)
  stale_from-Attributes name [] h = tt
  stale_from-Attributes name (r ∷ rs) h = (ground arith, stale_from-Attributes name rs h.1)

  add_item-Attributes :
      (node_id : String) (peer : PeerInfo) (item : UpdateItem) (st : Progress)
      → Q peer.name item.node_path
      → All Attributes st.routes
      → All Attributes (add_item node_id peer item st).routes
  unfolding add_item
  add_item-Attributes node_id peer item st q h =
      elim (Bool-cases (includes item.node_path node_id)) [
        | inl loop ↦ rw (loop, add_item) h
        | inr free ↦ elim (Option-cases (find_index (matches item) st.routes)) [
          | inl new ↦ rw (free, new, add_item) (All-append Attributes st.routes _ h (q, tt))
          | inr ((i, old), found) ↦ elim (Bool-cases (gives_way old item)) [
            | inl better ↦ rw (free, found, better, add_item) (All-set Attributes st.routes i _ h q)
            | inr worse ↦ rw (free, found, worse, add_item) h
          ]
        ]
      ]

  remove_item-Attributes :
      (item : UpdateItem) (st : Progress)
      → All Attributes st.routes
      → All Attributes (remove_item item st).routes
  unfolding remove_item
  remove_item-Attributes item st h =
      ground (arith, All-filter Attributes (λ r. not (matches item r)) st.routes h)

  apply_items-Attributes :
      (node_id : String) (peer : PeerInfo) (items : List UpdateItem) (st : Progress)
      → All (λ u. Q peer.name u.node_path) items
      → All Attributes st.routes
      → All Attributes (apply_items node_id peer items st).routes
  unfolding apply_items
  apply_items-Attributes node_id peer [] st q h = h
  apply_items-Attributes node_id peer (item ∷ items) st q h =
      apply_items-Attributes node_id peer items (apply_item node_id peer item st) q.1 (
        ground
          (arith, add_item-Attributes node_id peer item st q.0 h, remove_item-Attributes item st h))

  update-Attributes :
      (clock : ℕ) (node_id : String) (d : ProtocolUpdate) (state : RouteTable)
      → All (λ u. Q d.peer_info.name u.node_path) d.updates
      → All Attributes state.internal_routes
      → All Attributes
          (new_state (plan_internal_protocol_update clock node_id d state)).internal_routes
  unfolding plan_internal_protocol_update
  update-Attributes clock node_id d state q h =
      let kept = apply_items-Attributes node_id d.peer_info d.updates (start state) q h in
      ground (arith, kept)

  close-Attributes :
      (d : ProtocolClose) (state : RouteTable)
      → All Attributes state.internal_routes
      → All Attributes (new_state (plan_internal_protocol_close d state)).internal_routes
  unfolding plan_internal_protocol_close
  close-Attributes d state h = ground (
    arith,
    stale_from-Attributes d.peer_info.name state.internal_routes h,
    All-filter Attributes (λ r. not (from_peer d.peer_info.name r)) state.internal_routes h,
  )

  tick-Attributes :
      (now : ℕ) (state : RouteTable)
      → All Attributes state.internal_routes
      → All Attributes (new_state (plan_tick now state)).internal_routes
  unfolding plan_tick
  tick-Attributes now state h = ground (
    arith,
    All-filter Attributes (λ r. not (is_purged (purged now state) r)) state.internal_routes h,
  )

  -- A plan keeps what all routes have, if the updates that it takes in have it.
  pub plan-Attributes :
      (clock : ℕ) (node_id : String) (action : Action) (state : RouteTable)
      → Admits action
      → All Attributes state.internal_routes
      → All Attributes (new_state (plan clock node_id action state)).internal_routes
  unfolding plan plan_local_peer_create plan_local_peer_update plan_local_peer_delete
      plan_local_route_create plan_local_route_delete plan_local_route_health_update
      plan_internal_protocol_open plan_internal_protocol_connected plan_internal_protocol_keepalive
  plan-Attributes clock node_id (local_peer_create d) state q h = ground arith
  plan-Attributes clock node_id (local_peer_update d) state q h = ground arith
  plan-Attributes clock node_id (local_peer_delete d) state q h =
      ground (arith, All-filter Attributes (λ r. not (from_peer d.name r)) state.internal_routes h)
  plan-Attributes clock node_id (local_route_create d) state q h = ground arith
  plan-Attributes clock node_id (local_route_delete d) state q h = ground arith
  plan-Attributes clock node_id (local_route_health_update d) state q h = ground arith
  plan-Attributes clock node_id (internal_protocol_open d) state q h = ground arith
  plan-Attributes clock node_id (internal_protocol_connected d) state q h = ground arith
  plan-Attributes clock node_id (internal_protocol_close d) state q h = close-Attributes d state h
  plan-Attributes clock node_id (internal_protocol_update d) state q h =
      update-Attributes clock node_id d state q h
  plan-Attributes clock node_id (internal_protocol_keepalive d) state q h = ground arith
  plan-Attributes clock node_id (tick now) state q h = tick-Attributes now state h
