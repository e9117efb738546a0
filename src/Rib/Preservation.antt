-- ===== src/Rib/Preservation.antt =====
-- Every handler keeps the invariant of the route table, and so does every run.
use catalyst_router.Prelude.{
  subst, sym, map-set, ◌≡◌, ℕ, String, not, refl, ◌∷◌, List, [], arith, string_key, inl, inr,
  Option-cases, Bool-cases, Distinct-push, Distinct-filter, lookup-none, any-includes, any,
  find_index, find_index-key, ◌∙◌, sym, filter, nat_beq, map-set, map, Distinct,
}
use catalyst_router.Table.{
  RouteTable, PeerInfo, DataChannel, new_route_table, new_state, close_transport_error,
}
use catalyst_router.Action.{
  Action, local_peer_create, local_peer_update, local_peer_delete, local_route_create,
  local_route_delete, local_route_health_update, internal_protocol_open,
  internal_protocol_connected, internal_protocol_close, internal_protocol_update,
  internal_protocol_keepalive, tick, PeerDelete, ProtocolClose, ProtocolOpen, ProtocolUpdate,
  HealthUpdate,
}
use catalyst_router.Rib.Plans.{named, from_peer}
use catalyst_router.Rib.Local.{
  plan_local_peer_create, plan_local_peer_update, plan_local_peer_delete, plan_local_route_create,
  plan_local_route_delete, plan_local_route_health_update, new_peer, with_health, channel_named,
}
use catalyst_router.Rib.Session.{
  plan_internal_protocol_open, plan_internal_protocol_connected, plan_internal_protocol_close,
  plan_internal_protocol_keepalive,
}
use catalyst_router.Rib.Update.{plan_internal_protocol_update, apply_items, start, touch}
use catalyst_router.Rib.Expiry.{plan_tick, purged, is_purged, expire}
use catalyst_router.Rib.Machine.{plan, run}
use catalyst_router.Rib.Invariant.{
  IsValid, peer_name, channel_name, with_peers-IsValid, set_peer-IsValid, filter-IsSound,
  stale_from-IsSound, apply_items-IsSound, internal-IsValid, IsValid-IsSound, map-touch, map-expire,
}

-- A health update keeps the names of the local routes.
pub health_update-names :
    (d : HealthUpdate) (state : RouteTable)
    → map channel_name (new_state (plan_local_route_health_update d state)).local_routes
      ≡ map channel_name state.local_routes
unfolding plan_local_route_health_update
health_update-names d state =
    elim (Option-cases (find_index (channel_named d.name) state.local_routes)) [
      | inl e ↦ rw (e, plan_local_route_health_update)
      | inr ((i, r), e) ↦
          let kept =
            map-set channel_name (channel_named d.name) state.local_routes (with_health r d) e
              refl in
          rw (e, plan_local_route_health_update) (ground (arith, kept))
    ]

pub health_update-Distinct :
    (d : HealthUpdate) (state : RouteTable)
    → Distinct (map channel_name state.local_routes)
    → Distinct (map channel_name (new_state (plan_local_route_health_update d state)).local_routes)
health_update-Distinct d state distinct =
    subst Distinct (sym (health_update-names d state)) distinct

module _ (node_id : String) {state : RouteTable} (v : IsValid node_id state) where
  local_peer_create-IsValid :
      (d : PeerInfo) → IsValid node_id (new_state (plan_local_peer_create d state))
  unfolding plan_local_peer_create
  local_peer_create-IsValid d = elim (Bool-cases (any (named d.name) state.peers)) [
    | inl old ↦ rw (old, plan_local_peer_create) v
    | inr new ↦
        rw (new, plan_local_peer_create)
          (with_peers-IsValid node_id v (
            Distinct-push peer_name state.peers (new_peer d)
              (lookup-none peer_name d.name state.peers
                (sym (any-includes peer_name d.name state.peers) ∙ new))
              v.peers))
  ]

  local_peer_update-IsValid :
      (d : PeerInfo) → IsValid node_id (new_state (plan_local_peer_update d state))
  unfolding plan_local_peer_update
  local_peer_update-IsValid d = elim (Option-cases (find_index (named d.name) state.peers)) [
    | inl e ↦ rw (e, plan_local_peer_update) v
    | inr ((i, p), e) ↦ rw (e, plan_local_peer_update) (set_peer-IsValid node_id d.name _ v e refl)
  ]

  local_peer_delete-IsValid :
      (d : PeerDelete) → IsValid node_id (new_state (plan_local_peer_delete d state))
  unfolding plan_local_peer_delete
  local_peer_delete-IsValid d =
      let keep =
        filter-IsSound node_id (λ r. not (from_peer d.name r)) state.internal_routes
          (IsValid-IsSound node_id v) in
      ground
        (arith, keep, Distinct-filter peer_name (λ p. not (named d.name p)) state.peers v.peers)

  local_route_create-IsValid :
      (d : DataChannel) → IsValid node_id (new_state (plan_local_route_create d state))
  unfolding plan_local_route_create
  local_route_create-IsValid d = elim (Bool-cases (any (channel_named d.name) state.local_routes)) [
    | inl old ↦ rw (old, plan_local_route_create) v
    | inr new ↦
        rw (new, plan_local_route_create)
          (record {
            peers = v.peers;
            channels =
                Distinct-push channel_name state.local_routes d
                  (lookup-none channel_name d.name state.local_routes
                    (sym (any-includes channel_name d.name state.local_routes) ∙ new))
                  v.channels;
            routes = v.routes;
            loop_free = v.loop_free;
          })
  ]

  local_route_delete-IsValid :
      (d : DataChannel) → IsValid node_id (new_state (plan_local_route_delete d state))
  unfolding plan_local_route_delete
  local_route_delete-IsValid d = ground (
    arith,
    Distinct-filter channel_name (λ r. not (channel_named d.name r)) state.local_routes v.channels,
  )

  local_route_health_update-IsValid :
      (d : HealthUpdate) → IsValid node_id (new_state (plan_local_route_health_update d state))
  unfolding plan_local_route_health_update
  local_route_health_update-IsValid d =
      elim (Option-cases (find_index (channel_named d.name) state.local_routes)) [
        | inl e ↦ rw (e, plan_local_route_health_update) v
        | inr ((i, r), e) ↦
            let kept = health_update-Distinct d state v.channels in
            rw (e, plan_local_route_health_update) (ground (arith, kept))
      ]

  open-IsValid :
      (clock : ℕ) (d : ProtocolOpen)
      → IsValid node_id (new_state (plan_internal_protocol_open clock d state))
  unfolding plan_internal_protocol_open
  open-IsValid clock d = elim (Option-cases (find_index (named d.peer_info.name) state.peers)) [
    | inl e ↦ rw (e, plan_internal_protocol_open) v
    | inr ((i, p), e) ↦
        rw (e, plan_internal_protocol_open)
          (set_peer-IsValid node_id d.peer_info.name _ v e
            (find_index-key peer_name _ state.peers e))
  ]

  connected-IsValid :
      (clock : ℕ) (d : PeerInfo)
      → IsValid node_id (new_state (plan_internal_protocol_connected clock d state))
  unfolding plan_internal_protocol_connected
  connected-IsValid clock d = elim (Option-cases (find_index (named d.name) state.peers)) [
    | inl e ↦ rw (e, plan_internal_protocol_connected) v
    | inr ((i, p), e) ↦
        rw (e, plan_internal_protocol_connected)
          (set_peer-IsValid node_id d.name _ v e (find_index-key peer_name _ state.peers e))
  ]

  keepalive-IsValid :
      (clock : ℕ) (d : PeerInfo)
      → IsValid node_id (new_state (plan_internal_protocol_keepalive clock d state))
  unfolding plan_internal_protocol_keepalive
  keepalive-IsValid clock d = elim (Option-cases (find_index (named d.name) state.peers)) [
    | inl e ↦ rw (e, plan_internal_protocol_keepalive) v
    | inr ((i, p), e) ↦
        rw (e, plan_internal_protocol_keepalive)
          (set_peer-IsValid node_id d.name _ v e (find_index-key peer_name _ state.peers e))
  ]

  close-IsValid :
      (d : ProtocolClose) → IsValid node_id (new_state (plan_internal_protocol_close d state))
  unfolding plan_internal_protocol_close
  close-IsValid d = elim (Option-cases (find_index (named d.peer_info.name) state.peers)) [
    | inl e ↦ rw (e, plan_internal_protocol_close) v
    | inr ((i, p), e) ↦ elim (Bool-cases (nat_beq d.code close_transport_error)) [
      | inl lost ↦
          rw (e, lost, plan_internal_protocol_close)
            (internal-IsValid node_id v
              (stale_from-IsSound node_id d.peer_info.name _ (IsValid-IsSound node_id v))
              (map-set peer_name _ state.peers _ e refl) refl)
      | inr over ↦
          rw (e, over, plan_internal_protocol_close)
            (internal-IsValid node_id v
              (filter-IsSound node_id (λ r. not (from_peer d.peer_info.name r))
                state.internal_routes (IsValid-IsSound node_id v))
              (map-set peer_name _ state.peers _ e refl) refl)
    ]
  ]

  update-IsValid :
      (clock : ℕ) (d : ProtocolUpdate)
      → IsValid node_id (new_state (plan_internal_protocol_update clock node_id d state))
  unfolding plan_internal_protocol_update
  update-IsValid clock d =
      let written =
        internal-IsValid node_id
          {next = record state {
            peers = touch clock (find_index (named d.peer_info.name) state.peers) state.peers;
            internal_routes = (apply_items node_id d.peer_info d.updates (start state)).routes;
          }}
          v
          (apply_items-IsSound node_id d.peer_info d.updates (start state)
            (IsValid-IsSound node_id v))
          (map-touch node_id clock d.peer_info.name state.peers) refl in
      ground (arith, written)

  tick-IsValid : (now : ℕ) → IsValid node_id (new_state (plan_tick now state))
  unfolding plan_tick
  tick-IsValid now =
      let written =
        internal-IsValid node_id
          {next = record state {
            peers = map (expire now) state.peers;
            internal_routes =
                filter (λ r. not (is_purged (purged now state) r)) state.internal_routes;
          }}
          v
          (filter-IsSound node_id (λ r. not (is_purged (purged now state) r)) state.internal_routes
            (IsValid-IsSound node_id v))
          (map-expire node_id now state.peers) refl in
      ground (arith, written)

-- Whatever the action and the time, a plan leaves a valid table: peers, local routes and internal
-- routes keep distinct keys, and no internal route's path passes through this node.
pub plan-IsValid :
    (clock : ℕ) (node_id : String) (action : Action) (state : RouteTable)
    → IsValid node_id state
    → IsValid node_id (new_state (plan clock node_id action state))
unfolding plan
plan-IsValid clock n (local_peer_create d) state v = local_peer_create-IsValid n v d
plan-IsValid clock n (local_peer_update d) state v = local_peer_update-IsValid n v d
plan-IsValid clock n (local_peer_delete d) state v = local_peer_delete-IsValid n v d
plan-IsValid clock n (local_route_create d) state v = local_route_create-IsValid n v d
plan-IsValid clock n (local_route_delete d) state v = local_route_delete-IsValid n v d
plan-IsValid clock n (local_route_health_update d) state v = local_route_health_update-IsValid n v d
plan-IsValid clock n (internal_protocol_open d) state v = open-IsValid n v clock d
plan-IsValid clock n (internal_protocol_connected d) state v = connected-IsValid n v clock d
plan-IsValid clock n (internal_protocol_close d) state v = close-IsValid n v d
plan-IsValid clock n (internal_protocol_update d) state v = update-IsValid n v clock d
plan-IsValid clock n (internal_protocol_keepalive d) state v = keepalive-IsValid n v clock d
plan-IsValid clock n (tick now) state v = tick-IsValid n v now

run_from-IsValid :
    (node_id : String) (actions : List (ℕ × Action)) (state : RouteTable)
    → IsValid node_id state
    → IsValid node_id (run node_id actions state)
unfolding run
run_from-IsValid n [] state v = v
run_from-IsValid n ((clock, action) ∷ rest) state v =
    run_from-IsValid n rest _ (plan-IsValid clock n action state v)

-- After any list of actions on a new table, at any times, the keys are distinct and no route's path
-- passes through this node.
pub run-IsValid :
    (node_id : String) (actions : List (ℕ × Action))
    → IsValid node_id (run node_id actions new_route_table)
unfolding new_route_table
run-IsValid n actions =
    run_from-IsValid n actions new_route_table
      (record { peers = tt; channels = tt; routes = tt; loop_free = tt })
