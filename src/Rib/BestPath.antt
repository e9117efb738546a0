-- ===== src/Rib/BestPath.antt =====
-- Best-path selection in the processing of one advertisement.
use catalyst_router.Prelude.{
  ℕ, String, true, false, ◌≤◌, ◌≡◌, ◌≢◌, ◌++◌, refl, ◌∙◌, sym, ap, List, [], ◌∷◌, Option, none,
  some, arith, length, includes, lookup, string_key, pair_key, inl, inr, ◌⊎◌, Bool-cases,
  Option-cases, find_index, lookup-push, lookup-set, find_index-none, find_index-find, ==_refl,
  find,
}
use catalyst_router.Table.{
  RouteTable, InternalRoute, PeerInfo, is_true, new_state, RouteChange, PeerRecord, added, updated,
  removed, internal,
}
use catalyst_router.Action.{UpdateItem, UpdateKind, add, remove, ProtocolUpdate}
use catalyst_router.Rib.Plans.{named}
use catalyst_router.Rib.Update.{
  plan_internal_protocol_update, Progress, add_item, remove_item, apply_item, apply_items,
  apply_kind, is_idle, advertised, matches, gives_way, start,
}
use catalyst_router.Rib.Invariant.{route_id}

abbrev pub item_id : UpdateItem → String × String
item_id item = (item.route.name, item.origin_node)

-- A route that serves an advertisement: fresh, and no longer than the advertised path.
abbrev pub Serves : UpdateItem → InternalRoute → Type 0
Serves item r = (is_true r.is_stale ≡ false) × (length r.node_path ≤ length item.node_path)

-- No longer than the route before it, unless that was stale.
abbrev pub NoWorse : Option InternalRoute → InternalRoute → Type 0
NoWorse none r = Unit {0}
NoWorse (some old) r = (is_true old.is_stale ≡ true) ⊎ (length r.node_path ≤ length old.node_path)

add_item-Serves :
    (node_id : String) (peer : PeerInfo) (item : UpdateItem) (st : Progress)
    → includes item.node_path node_id ≡ false
    → (r : InternalRoute) × (lookup route_id (item_id item) (add_item node_id peer item st).routes
        ≡ some r)
      × Serves item r
      × NoWorse (lookup route_id (item_id item) st.routes) r
unfolding add_item
add_item-Serves node_id peer item st free =
    let here = advertised peer item in
    elim (Option-cases (find_index (matches item) st.routes)) [
      | inl new ↦
          let none_there = find_index-none route_id (matches item) st.routes new in
          rw (free, new, add_item)
            (
              here,
              lookup-push route_id (item_id item) st.routes here none_there
                  ∙ ground (arith, ==_refl (item_id item)),
              (refl, omega arith),
              rw none_there tt,
            )
      | inr ((i, old), found) ↦
          let was = find_index-find route_id (matches item) st.routes found in
          elim (Bool-cases (gives_way old item)) [
            | inl better ↦
                rw (free, found, better, add_item)
                  (
                    here,
                    lookup-set route_id (item_id item) (item_id item) st.routes here found refl
                        ∙ ground (arith, ==_refl (item_id item)),
                    (refl, omega arith),
                    rw was (ground arith),
                  )
            | inr worse ↦
                rw (free, found, worse, add_item)
                  (old, was, (ground arith, ground arith), rw was (inr (omega arith)))
          ]
    ]

not-push-nil : {A : Type 0} (xs : List A) (x : A) → xs ++ x ∷ [] ≢ []
not-push-nil [] x = cc
not-push-nil (y ∷ xs) x = cc

-- A round that leaves no change recorded leaves the routes.
apply_kind-quiet :
    (kind : UpdateKind) (node_id : String) (peer : PeerInfo) (item : UpdateItem) (st : Progress)
    → (apply_kind kind node_id peer item st).route_changes ≡ []
    → (st.route_changes ≡ []) × ((apply_kind kind node_id peer item st).routes ≡ st.routes)
unfolding add_item remove_item
apply_kind-quiet add node_id peer item st h = ground (
  arith,
  not-push-nil st.route_changes (added (internal (advertised peer item))),
  not-push-nil st.route_changes (updated (internal (advertised peer item))),
)
apply_kind-quiet remove node_id peer item st h =
    elim (Option-cases (find (matches item) st.routes)) [
      | inl gone ↦ ground arith
      | inr (old, found) ↦ ground (arith, not-push-nil st.route_changes (removed (internal old)))
    ]

apply_items-quiet :
    (node_id : String) (peer : PeerInfo) (items : List UpdateItem) (st : Progress)
    → (apply_items node_id peer items st).route_changes ≡ []
    → (st.route_changes ≡ []) × ((apply_items node_id peer items st).routes ≡ st.routes)
unfolding apply_items
apply_items-quiet node_id peer [] st h = (h, refl)
apply_items-quiet node_id peer (item ∷ items) st h =
    let (later, same) = apply_items-quiet node_id peer items (apply_item node_id peer item st) h in
    let (now, same') = apply_kind-quiet item.action node_id peer item st later in
    (now, same ∙ same')

is_idle-nil : (cs : List RouteChange) (o : Option (ℕ × PeerRecord)) → is_idle cs o ≡ true → cs ≡ []
is_idle-nil [] o h = refl
is_idle-nil (c ∷ cs) o h = cc

-- The routes of the new table are those at the end of the loop, also when the plan is a no-op.
pub update-internal_routes :
    (clock : ℕ) (node_id : String) (d : ProtocolUpdate) (state : RouteTable)
    → (new_state (plan_internal_protocol_update clock node_id d state)).internal_routes
      ≡ (apply_items node_id d.peer_info d.updates (start state)).routes
unfolding plan_internal_protocol_update
update-internal_routes clock node_id d state =
    let st = apply_items node_id d.peer_info d.updates (start state) in
    let found = find_index (named d.peer_info.name) state.peers in
    elim (Bool-cases (is_idle st.route_changes found)) [
      | inl idle ↦
          let (_, same) =
            apply_items-quiet node_id d.peer_info d.updates (start state)
              (is_idle-nil st.route_changes found idle) in
          rw (idle, plan_internal_protocol_update) (sym same)
      | inr busy ↦ rw (busy, plan_internal_protocol_update)
    ]

-- After an advertisement whose path does not pass through this node the table holds, under its key,
-- a fresh route that is no longer than the advertised path, and no longer than the route that was
-- there, unless that was stale.
pub update-Serves :
    (clock : ℕ) (node_id : String) (peer : PeerInfo) (item : UpdateItem) (state : RouteTable)
    → item.action ≡ add
    → includes item.node_path node_id ≡ false
    → (r : InternalRoute) × (lookup route_id
          (item_id item)
          (new_state (
            plan_internal_protocol_update clock node_id
              (record { peer_info = peer; updates = item ∷ [] })
              state)).internal_routes
        ≡ some r)
      × Serves item r
      × NoWorse (lookup route_id (item_id item) state.internal_routes) r
unfolding apply_items
update-Serves clock node_id peer item state is_add free =
    let (r, found, serves, better) = add_item-Serves node_id peer item (start state) free in
    let d : ProtocolUpdate = record { peer_info = peer; updates = item ∷ [] } in
    let routes =
      update-internal_routes clock node_id d state
      ∙ ap (λ kind. (apply_kind kind node_id peer item (start state)).routes) is_add in
    (r, ap (lookup route_id (item_id item)) routes ∙ found, serves, better)
