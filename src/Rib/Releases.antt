-- ===== src/Rib/Releases.antt =====
-- Every plan's port operations are the releases that its removed routes call for.
use catalyst_router.Prelude.{
  ℕ, String, ◌≡◌, refl, ◌∙◌, sym, ap, List, [], ◌∷◌, ◌++◌, none, some, Option, arith, string_key,
  pair_key, inl, inr, Option-cases, find, filter, lookup-key, append_assoc, append-nil,
}
use catalyst_router.Table.{
  RouteTable, InternalRoute, PeerInfo, local, internal, RouteChange, added, removed, updated,
  PortOperation, release,
}
use catalyst_router.Action.{
  Action, local_peer_create, local_peer_update, local_peer_delete, local_route_create,
  local_route_delete, local_route_health_update, internal_protocol_open,
  internal_protocol_connected, internal_protocol_close, internal_protocol_update,
  internal_protocol_keepalive, tick, UpdateItem, UpdateKind, add, remove,
}
use catalyst_router.Rib.Plans.{removals, releases, from_peer}
use catalyst_router.Rib.Local.{
  plan_local_peer_create, plan_local_peer_update, plan_local_peer_delete, plan_local_route_create,
  plan_local_route_delete, plan_local_route_health_update,
}
use catalyst_router.Rib.Session.{
  plan_internal_protocol_open, plan_internal_protocol_connected, plan_internal_protocol_close,
  plan_internal_protocol_keepalive, stale_changes,
}
use catalyst_router.Rib.Update.{
  plan_internal_protocol_update, Progress, apply_item, apply_items, add_item, remove_item, matches,
  apply_kind, start, advertised,
}
use catalyst_router.Rib.Expiry.{plan_tick, purged, is_purged}
use catalyst_router.Rib.Machine.{plan}
use catalyst_router.Rib.Invariant.{route_id}

-- The port that a route holds, to be released under its name.
abbrev held : String → Option ℕ → List PortOperation
held name none = []
held name (some port) = release name port ∷ []

abbrev pub owed : RouteChange → List PortOperation
owed (removed (local r)) = held r.name r.envoy_port
owed (removed (internal r)) = held r.name r.envoy_port
owed (added r) = []
owed (updated r) = []

-- One release for each removed route that holds a port, in the order of the changes.
abbrev pub owed_all : List RouteChange → List PortOperation
owed_all [] = []
owed_all (c ∷ cs) = owed c ++ owed_all cs

owed_all-append : (cs ds : List RouteChange) → owed_all (cs ++ ds) ≡ owed_all cs ++ owed_all ds
owed_all-append [] ds = refl
owed_all-append (c ∷ cs) ds =
    ap (◌++◌ (owed c)) (owed_all-append cs ds)
    ∙ sym (append_assoc (owed c) (owed_all cs) (owed_all ds))

owed_all-removals : (rs : List InternalRoute) → owed_all (removals rs) ≡ releases rs
owed_all-removals [] = refl
owed_all-removals (r ∷ rs) = ground (arith, owed_all-removals rs)

owed_all-stale_changes : (rs : List InternalRoute) → owed_all (stale_changes rs) ≡ []
owed_all-stale_changes [] = refl
owed_all-stale_changes (r ∷ rs) = owed_all-stale_changes rs

abbrev Owes : Progress → Type 0
Owes st = owed_all st.route_changes ≡ st.port_ops

apply_kind-Owes :
    (node_id : String) (kind : UpdateKind) (peer : PeerInfo) (item : UpdateItem) (st : Progress)
    → Owes st
    → Owes (apply_kind kind node_id peer item st)
unfolding add_item remove_item
apply_kind-Owes node_id add peer item st h = ground (
  arith,
  owed_all-append st.route_changes (added (internal (advertised peer item)) ∷ []),
  owed_all-append st.route_changes (updated (internal (advertised peer item)) ∷ []),
  append-nil st.port_ops,
)
apply_kind-Owes node_id remove peer item st h =
    elim (Option-cases (find (matches item) st.routes)) [
      | inl gone ↦ rw (gone, remove_item) h
      | inr (old, found) ↦
          let key = lookup-key route_id (item.route.name, item.origin_node) st.routes found in
          rw (found, remove_item)
            (ground (
              arith,
              owed_all-append st.route_changes (removed (internal old) ∷ []),
              append-nil st.port_ops,
              ap (λ k. k.0) key,
            ))
    ]

apply_items-Owes :
    (node_id : String) (peer : PeerInfo) (items : List UpdateItem) (st : Progress)
    → Owes st
    → Owes (apply_items node_id peer items st)
unfolding apply_items
apply_items-Owes node_id peer [] st h = h
apply_items-Owes node_id peer (item ∷ items) st h =
    apply_items-Owes node_id peer items (apply_item node_id peer item st)
      (apply_kind-Owes node_id item.action peer item st h)

-- A plan's port operations are exactly one release, under the route's name, for each removed route
-- that holds a port, in the order of the route changes; no plan allocates.
pub plan-port_ops :
    (clock : ℕ) (node_id : String) (action : Action) (state : RouteTable)
    → (plan clock node_id action state).port_ops
      ≡ owed_all (plan clock node_id action state).route_changes
unfolding plan
plan-port_ops clock n (local_peer_create d) state = unfold plan_local_peer_create in ground arith
plan-port_ops clock n (local_peer_update d) state = unfold plan_local_peer_update in ground arith
plan-port_ops clock n (local_peer_delete d) state =
    let gone = filter (from_peer d.name) state.internal_routes in
    unfold plan_local_peer_delete in ground (arith, owed_all-removals gone)
plan-port_ops clock n (local_route_create d) state = unfold plan_local_route_create in ground arith
plan-port_ops clock n (local_route_delete d) state = unfold plan_local_route_delete in ground arith
plan-port_ops clock n (local_route_health_update d) state =
    unfold plan_local_route_health_update in ground arith
plan-port_ops clock n (internal_protocol_open d) state =
    unfold plan_internal_protocol_open in ground arith
plan-port_ops clock n (internal_protocol_connected d) state =
    unfold plan_internal_protocol_connected in ground arith
plan-port_ops clock n (internal_protocol_close d) state =
    let gone = filter (from_peer d.peer_info.name) state.internal_routes in
    unfold plan_internal_protocol_close in
    ground (arith, owed_all-removals gone, owed_all-stale_changes gone)
plan-port_ops clock n (internal_protocol_update d) state =
    let done = apply_items-Owes n d.peer_info d.updates (start state) refl in
    unfold plan_internal_protocol_update in ground (arith, done)
plan-port_ops clock n (internal_protocol_keepalive d) state =
    unfold plan_internal_protocol_keepalive in ground arith
plan-port_ops clock n (tick now) state =
    unfold plan_tick in
    ground (arith, owed_all-removals (filter (is_purged (purged now state)) state.internal_routes))
