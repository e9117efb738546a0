-- ===== src/Rib/Delta.antt =====
-- The route changes of a plan are its effect: who applies them to the old table has the new one.
use mathlib.Core.Option
use catalyst_router.Prelude.{
  String, ◌≡◌, refl, ◌∙◌, List, [], ◌∷◌, ◌++◌, map, Option, none, some, arith, or_else,
  if◌then◌else◌, ◌==◌, string_key, pair_key, inl, inr, Bool-cases, Option-cases, includes, filter,
  lookup, Distinct, lookup-push, lookup-remove, lookup-set, find_index-none, ==_eq, lookup-none,
  includes-filter, find_index, find,
}
use catalyst_router.Table.{
  InternalRoute, DataChannel, PeerInfo, local, internal, RouteChange, added, removed, updated,
}
use catalyst_router.Action.{UpdateItem, UpdateKind, add, remove}
use catalyst_router.Rib.Plans.{removals, from_peer}
use catalyst_router.Rib.Session.{stale, stale_from, stale_changes}
use catalyst_router.Rib.Update.{
  Progress, apply_item, apply_items, apply_kind, add_item, remove_item, matches, advertised,
  gives_way,
}
use catalyst_router.Rib.Invariant.{route_id, channel_name}

-- What a change does to the internal route with a key.
abbrev pub follow : RouteChange → String × String → Option InternalRoute → Option InternalRoute
follow (added (internal r)) k o = if route_id r == k then some r else o
follow (updated (internal r)) k o = if route_id r == k then some r else o
follow (removed (internal r)) k o = if route_id r == k then none else o
follow (added (local r)) k o = o
follow (updated (local r)) k o = o
follow (removed (local r)) k o = o

-- The same for the local route with a name.
abbrev pub follow_local : RouteChange → String → Option DataChannel → Option DataChannel
follow_local (added (local r)) k o = if channel_name r == k then some r else o
follow_local (updated (local r)) k o = if channel_name r == k then some r else o
follow_local (removed (local r)) k o = if channel_name r == k then none else o
follow_local (added (internal r)) k o = o
follow_local (updated (internal r)) k o = o
follow_local (removed (internal r)) k o = o

abbrev pub follow_all :
    List RouteChange → String × String → Option InternalRoute → Option InternalRoute
follow_all [] k o = o
follow_all (c ∷ cs) k o = follow_all cs k (follow c k o)

abbrev pub follow_all_local : List RouteChange → String → Option DataChannel → Option DataChannel
follow_all_local [] k o = o
follow_all_local (c ∷ cs) k o = follow_all_local cs k (follow_local c k o)

pub follow_all-append :
    (cs ds : List RouteChange) (k : String × String) (o : Option InternalRoute)
    → follow_all (cs ++ ds) k o ≡ follow_all ds k (follow_all cs k o)
follow_all-append [] ds k o = refl
follow_all-append (c ∷ cs) ds k o = follow_all-append cs ds k (follow c k o)

pub follow_all-removals :
    (rs : List InternalRoute) (k : String × String) (o : Option InternalRoute)
    → follow_all (removals rs) k o ≡ (if includes (map route_id rs) k then none else o)
follow_all-removals [] k o = refl
follow_all-removals (r ∷ rs) k o =
    follow_all-removals rs k (if route_id r == k then none else o) ∙ ground arith

pub follow_all-stale_changes :
    (rs : List InternalRoute) (k : String × String) (o : Option InternalRoute)
    → Distinct (map route_id rs)
    → follow_all (stale_changes rs) k o ≡ or_else (Option.map stale (lookup route_id k rs)) o
follow_all-stale_changes [] k o d = refl
follow_all-stale_changes (r ∷ rs) k o d =
    follow_all-stale_changes rs k (if route_id r == k then some (stale r) else o) d.1
    ∙ ground (arith, lookup-none route_id k rs, ==_eq (route_id r) k)

pub lookup-stale_from :
    (name : String) (rs : List InternalRoute) (k : String × String)
    → Distinct (map route_id rs)
    → lookup route_id k (map (stale_from name) rs)
      ≡ or_else
          (Option.map stale (lookup route_id k (filter (from_peer name) rs)))
          (lookup route_id k rs)
lookup-stale_from name [] k d = refl
lookup-stale_from name (r ∷ rs) k d = ground (
  arith,
  lookup-stale_from name rs k d.1,
  lookup-none route_id k (filter (from_peer name) rs),
  includes-filter route_id k (from_peer name) rs,
  ==_eq (route_id r) k,
)

-- The local changes of a list that has none.
pub follow_all_local-removals :
    (rs : List InternalRoute) (k : String) (o : Option DataChannel)
    → follow_all_local (removals rs) k o ≡ o
follow_all_local-removals [] k o = refl
follow_all_local-removals (r ∷ rs) k o = follow_all_local-removals rs k o

pub follow_all_local-stale_changes :
    (rs : List InternalRoute) (k : String) (o : Option DataChannel)
    → follow_all_local (stale_changes rs) k o ≡ o
follow_all_local-stale_changes [] k o = refl
follow_all_local-stale_changes (r ∷ rs) k o = follow_all_local-stale_changes rs k o

-- The loop of an update, seen from the routes `before` at which it began.
abbrev pub Tracks : List InternalRoute → Progress → Type 0
Tracks before st =
    (k : String × String)
    → lookup route_id k st.routes ≡ follow_all st.route_changes k (lookup route_id k before)

module _ (node_id : String) (before : List InternalRoute) where
  add_item-Tracks :
      (peer : PeerInfo) (item : UpdateItem) (st : Progress)
      → Tracks before st
      → Tracks before (add_item node_id peer item st)
  unfolding add_item
  add_item-Tracks peer item st t k = elim (Bool-cases (includes item.node_path node_id)) [
    | inl loop ↦ rw (loop, add_item) (t k)
    | inr free ↦ elim (Option-cases (find_index (matches item) st.routes)) [
      | inl new ↦
          let here = advertised peer item in
          rw (free, new, add_item)
            (lookup-push route_id k st.routes here
                (find_index-none route_id (matches item) st.routes new)
              ∙ rw (
                follow_all-append st.route_changes (added (internal here) ∷ []) k
                    (lookup route_id k before),
                ← t k,
              ))
      | inr ((i, old), found) ↦ elim (Bool-cases (gives_way old item)) [
        | inl better ↦
            let here = advertised peer item in
            rw (free, found, better, add_item)
              (lookup-set route_id (route_id here) k st.routes here found refl
                ∙ rw (
                  follow_all-append st.route_changes (updated (internal here) ∷ []) k
                      (lookup route_id k before),
                  ← t k,
                ))
        | inr worse ↦ rw (free, found, worse, add_item) (t k)
      ]
    ]
  ]

  remove_item-Tracks :
      (item : UpdateItem) (st : Progress) → Tracks before st → Tracks before (remove_item item st)
  unfolding remove_item
  remove_item-Tracks item st t k = elim (Option-cases (find (matches item) st.routes)) [
    | inl none_there ↦ rw (none_there, remove_item) (t k)
    | inr (old, found) ↦
        rw (found, remove_item)
          (lookup-remove route_id (item.route.name, item.origin_node) k st.routes old found
            ∙ rw (
              follow_all-append st.route_changes (removed (internal old) ∷ []) k
                  (lookup route_id k before),
              ← t k,
            ))
  ]

  apply_kind-Tracks :
      (kind : UpdateKind) (peer : PeerInfo) (item : UpdateItem) (st : Progress)
      → Tracks before st
      → Tracks before (apply_kind kind node_id peer item st)
  apply_kind-Tracks add peer item st t = add_item-Tracks peer item st t
  apply_kind-Tracks remove peer item st t = remove_item-Tracks item st t

  pub apply_items-Tracks :
      (peer : PeerInfo) (items : List UpdateItem) (st : Progress)
      → Tracks before st
      → Tracks before (apply_items node_id peer items st)
  unfolding apply_items
  apply_items-Tracks peer [] st t = t
  apply_items-Tracks peer (item ∷ items) st t =
      apply_items-Tracks peer items (apply_item node_id peer item st)
        (apply_kind-Tracks item.action peer item st t)

follow_all_local-append :
    (cs ds : List RouteChange) (k : String) (o : Option DataChannel)
    → follow_all_local (cs ++ ds) k o ≡ follow_all_local ds k (follow_all_local cs k o)
follow_all_local-append [] ds k o = refl
follow_all_local-append (c ∷ cs) ds k o = follow_all_local-append cs ds k (follow_local c k o)

-- The update loop records no change of a local route.
abbrev IsInternal : List RouteChange → Type 0
IsInternal cs = (k : String) (o : Option DataChannel) → follow_all_local cs k o ≡ o

IsInternal-append :
    (cs : List RouteChange) (c : RouteChange)
    → IsInternal cs
    → IsInternal (c ∷ [])
    → IsInternal (cs ++ c ∷ [])
IsInternal-append cs c h hc k o =
    follow_all_local-append cs (c ∷ []) k o ∙ hc k (follow_all_local cs k o) ∙ h k o

apply_kind-IsInternal :
    (node_id : String) (kind : UpdateKind) (peer : PeerInfo) (item : UpdateItem) (st : Progress)
    → IsInternal st.route_changes
    → IsInternal (apply_kind kind node_id peer item st).route_changes
unfolding add_item remove_item
apply_kind-IsInternal node_id add peer item st h k o =
    let one = λ (c : RouteChange) (hc : IsInternal (c ∷ [])).
      IsInternal-append st.route_changes c h hc k o in
    ground (
      arith,
      h k o,
      one (added (internal (advertised peer item))) (λ j p. refl),
      one (updated (internal (advertised peer item))) (λ j p. refl),
    )
apply_kind-IsInternal node_id remove peer item st h k o =
    elim (Option-cases (find (matches item) st.routes)) [
      | inl gone ↦ rw (gone, remove_item) (h k o)
      | inr (old, found) ↦
          rw (found, remove_item)
            (IsInternal-append st.route_changes (removed (internal old)) h (λ j p. refl) k o)
    ]

pub apply_items-IsInternal :
    (node_id : String) (peer : PeerInfo) (items : List UpdateItem) (st : Progress)
    → IsInternal st.route_changes
    → IsInternal (apply_items node_id peer items st).route_changes
unfolding apply_items
apply_items-IsInternal node_id peer [] st h = h
apply_items-IsInternal node_id peer (item ∷ items) st h =
    apply_items-IsInternal node_id peer items (apply_item node_id peer item st)
      (apply_kind-IsInternal node_id item.action peer item st h)
