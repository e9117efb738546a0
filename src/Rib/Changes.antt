-- ===== src/Rib/Changes.antt =====
-- Every plan's route changes lead from the old table to the new one.
use catalyst_router.Prelude.{
  ℕ, String, Bool, not, ◌≡◌, refl, ◌∙◌, sym, map, none, arith, string_key, pair_key, inl, inr,
  Option-cases, filter, lookup, lookup-filter-not, lookup-push, lookup-remove, lookup-set,
  find_index-key, Distinct-filter, find_index, find, any-includes, lookup-none,
}
use catalyst_router.Table.{RouteTable, DataChannel, PeerInfo, PlanResult, new_state, InternalRoute}
use catalyst_router.Action.{
  Action, local_peer_create, local_peer_update, local_peer_delete, local_route_create,
  local_route_delete, local_route_health_update, internal_protocol_open,
  internal_protocol_connected, internal_protocol_close, internal_protocol_update,
  internal_protocol_keepalive, tick, PeerDelete, ProtocolClose, ProtocolUpdate, ProtocolOpen,
  HealthUpdate,
}
use catalyst_router.Rib.Plans.{removals, from_peer}
use catalyst_router.Rib.Local.{
  plan_local_peer_create, plan_local_peer_update, plan_local_peer_delete, plan_local_route_create,
  plan_local_route_delete, plan_local_route_health_update, with_health, channel_named,
}
use catalyst_router.Rib.Session.{
  plan_internal_protocol_open, plan_internal_protocol_connected, plan_internal_protocol_close,
  plan_internal_protocol_keepalive, stale_from, stale_changes,
}
use catalyst_router.Rib.Update.{plan_internal_protocol_update, start}
use catalyst_router.Rib.Expiry.{plan_tick, purged, is_purged}
use catalyst_router.Rib.Machine.{plan}
use catalyst_router.Rib.Invariant.{IsValid, route_id, channel_name}
use catalyst_router.Rib.Delta.{
  follow_all, follow_all_local, follow_all-removals, follow_all-stale_changes, lookup-stale_from,
  follow_all_local-removals, follow_all_local-stale_changes, apply_items-Tracks,
  apply_items-IsInternal,
}

-- A plan explains its effect on the internal route with the key `k` and the local route `n`.
pub record Explains (k : String × String) (n : String) (state : RouteTable) (p : PlanResult)
    : Type 0 where
  pub internal_routes :
      lookup route_id k (new_state p).internal_routes
      ≡ follow_all p.route_changes k (lookup route_id k state.internal_routes)
  pub local_routes :
      lookup channel_name n (new_state p).local_routes
      ≡ follow_all_local p.route_changes n (lookup channel_name n state.local_routes)

module _ (node_id : String) {state : RouteTable} (v : IsValid node_id state) (k : String × String)
    (n : String) where
  lookup-removals :
      (p : InternalRoute → Bool)
      → lookup route_id k (filter (λ r. not (p r)) state.internal_routes)
        ≡ follow_all
            (removals (filter p state.internal_routes))
            k
            (lookup route_id k state.internal_routes)
  lookup-removals p =
      lookup-filter-not route_id k p state.internal_routes v.routes
      ∙ sym (
          follow_all-removals (filter p state.internal_routes) k
            (lookup route_id k state.internal_routes))

  lookup-stale :
      (name : String)
      → lookup route_id k (map (stale_from name) state.internal_routes)
        ≡ follow_all
            (stale_changes (filter (from_peer name) state.internal_routes))
            k
            (lookup route_id k state.internal_routes)
  lookup-stale name =
      lookup-stale_from name state.internal_routes k v.routes
      ∙ sym (
          follow_all-stale_changes (filter (from_peer name) state.internal_routes) k _
            (Distinct-filter route_id (from_peer name) state.internal_routes v.routes))

  local_peer_create-Explains : (d : PeerInfo) → Explains k n state (plan_local_peer_create d state)
  unfolding plan_local_peer_create
  local_peer_create-Explains d = ground arith

  local_peer_update-Explains : (d : PeerInfo) → Explains k n state (plan_local_peer_update d state)
  unfolding plan_local_peer_update
  local_peer_update-Explains d = ground arith

  local_peer_delete-Explains :
      (d : PeerDelete) → Explains k n state (plan_local_peer_delete d state)
  unfolding plan_local_peer_delete
  local_peer_delete-Explains d = ground (
    arith,
    lookup-removals (from_peer d.name),
    follow_all_local-removals (filter (from_peer d.name) state.internal_routes) n
        (lookup channel_name n state.local_routes),
  )

  local_route_create-Explains :
      (d : DataChannel) → Explains k n state (plan_local_route_create d state)
  unfolding plan_local_route_create
  local_route_create-Explains d = ground (
    arith,
    lookup-push channel_name n state.local_routes d,
    lookup-none channel_name d.name state.local_routes,
    any-includes channel_name d.name state.local_routes,
  )

  local_route_delete-Explains :
      (d : DataChannel) → Explains k n state (plan_local_route_delete d state)
  unfolding plan_local_route_delete
  local_route_delete-Explains d =
      elim (Option-cases (find (channel_named d.name) state.local_routes)) [
        | inl gone ↦
            rw (gone, plan_local_route_delete)
              (record { internal_routes = refl; local_routes = refl })
        | inr (old, found) ↦
            rw (found, plan_local_route_delete)
              (record {
                internal_routes = refl;
                local_routes = lookup-remove channel_name d.name n state.local_routes old found;
              })
      ]

  local_route_health_update-Explains :
      (d : HealthUpdate) → Explains k n state (plan_local_route_health_update d state)
  unfolding plan_local_route_health_update
  local_route_health_update-Explains d =
      elim (Option-cases (find_index (channel_named d.name) state.local_routes)) [
        | inl gone ↦
            rw (gone, plan_local_route_health_update)
              (record { internal_routes = refl; local_routes = refl })
        | inr ((i, old), found) ↦
            let key = find_index-key channel_name d.name state.local_routes found in
            let written =
              lookup-set channel_name d.name n state.local_routes (with_health old d) found key in
            rw (found, plan_local_route_health_update) (ground (arith, written, key))
      ]

  session-Explains :
      (clock : ℕ) (o : ProtocolOpen) (d : PeerInfo)
      → Explains k n state (plan_internal_protocol_open clock o state)
        × Explains k n state (plan_internal_protocol_connected clock d state)
        × Explains k n state (plan_internal_protocol_keepalive clock d state)
  unfolding plan_internal_protocol_open plan_internal_protocol_connected
      plan_internal_protocol_keepalive
  session-Explains clock o d = (ground arith, ground arith, ground arith)

  close-Explains : (d : ProtocolClose) → Explains k n state (plan_internal_protocol_close d state)
  unfolding plan_internal_protocol_close
  close-Explains d =
      let gone = filter (from_peer d.peer_info.name) state.internal_routes in
      ground (
        arith,
        lookup-removals (from_peer d.peer_info.name),
        lookup-stale d.peer_info.name,
        follow_all_local-removals gone n (lookup channel_name n state.local_routes),
        follow_all_local-stale_changes gone n (lookup channel_name n state.local_routes),
      )

  update-Explains :
      (clock : ℕ) (d : ProtocolUpdate)
      → Explains k n state (plan_internal_protocol_update clock node_id d state)
  unfolding plan_internal_protocol_update
  update-Explains clock d = ground (
    arith,
    apply_items-Tracks node_id state.internal_routes d.peer_info d.updates (start state) (λ j. refl)
        k,
    apply_items-IsInternal node_id d.peer_info d.updates (start state) (λ j o. refl) n
        (lookup channel_name n state.local_routes),
  )

  tick-Explains : (now : ℕ) → Explains k n state (plan_tick now state)
  unfolding plan_tick
  tick-Explains now = ground (
    arith,
    lookup-removals (is_purged (purged now state)),
    follow_all_local-removals (filter (is_purged (purged now state)) state.internal_routes) n
        (lookup channel_name n state.local_routes),
  )

  explain : (clock : ℕ) (action : Action) → Explains k n state (plan clock node_id action state)
  unfolding plan
  explain clock (local_peer_create d) = local_peer_create-Explains d
  explain clock (local_peer_update d) = local_peer_update-Explains d
  explain clock (local_peer_delete d) = local_peer_delete-Explains d
  explain clock (local_route_create d) = local_route_create-Explains d
  explain clock (local_route_delete d) = local_route_delete-Explains d
  explain clock (local_route_health_update d) = local_route_health_update-Explains d
  explain clock (internal_protocol_open d) = (session-Explains clock d d.peer_info).0
  explain clock (internal_protocol_connected d) =
      (session-Explains clock (record { peer_info = d; hold_time = none }) d).1
  explain clock (internal_protocol_close d) = close-Explains d
  explain clock (internal_protocol_update d) = update-Explains clock d
  explain clock (internal_protocol_keepalive d) =
      (session-Explains clock (record { peer_info = d; hold_time = none }) d).2
  explain clock (tick now) = tick-Explains now

-- The route changes of a plan are its effect on the routes: to apply them in order to what the old
-- table holds under any key, of an internal or of a local route, gives what the new one holds there.
pub plan-route_changes :
    (clock : ℕ) (node_id : String) (action : Action) (state : RouteTable) (k : String × String)
    (n : String)
    → IsValid node_id state
    → (lookup route_id k (new_state (plan clock node_id action state)).internal_routes
        ≡ follow_all
            (plan clock node_id action state).route_changes
            k
            (lookup route_id k state.internal_routes))
      × (lookup channel_name n (new_state (plan clock node_id action state)).local_routes
          ≡ follow_all_local
              (plan clock node_id action state).route_changes
              n
              (lookup channel_name n state.local_routes))
plan-route_changes clock node_id action state k n v =
    let e = explain node_id v k n clock action in (e.internal_routes, e.local_routes)
