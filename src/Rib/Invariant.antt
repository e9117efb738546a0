-- ===== src/Rib/Invariant.antt =====
-- The invariant of the route table, and that every action keeps it.
use catalyst_router.Prelude.{
  ℕ, String, Bool, false, not, ◌≡◌, refl, List, [], ◌∷◌, map, some, arith, All, All-append,
  All-filter, All-set, Distinct, includes, find_index, filter, set, string_key, pair_key, inl, inr,
  Option-cases, Bool-cases, Distinct-set, Distinct-push, Distinct-filter, map-key, find_index-none,
  map-set,
}
use catalyst_router.Table.{RouteTable, PeerRecord, PeerInfo, InternalRoute, DataChannel, new_state}
use catalyst_router.Action.{UpdateItem}
use catalyst_router.Rib.Plans.{named, with_peers}
use catalyst_router.Rib.Session.{stale_from}
use catalyst_router.Rib.Update.{
  Progress, advertised, matches, gives_way, apply_item, apply_items, add_item, remove_item, touch,
}
use catalyst_router.Rib.Expiry.{expire}

-- The key of an internal route: its name and the node that it comes from.
abbrev pub route_id : InternalRoute → String × String
route_id r = (r.name, r.origin_node)

abbrev pub peer_name : PeerRecord → String
peer_name p = p.name

abbrev pub channel_name : DataChannel → String
channel_name r = r.name

-- A path that does not pass through this node.
abbrev pub IsLoopFree : String → InternalRoute → Type 0
IsLoopFree node_id r = includes r.node_path node_id ≡ false

pub record IsValid (node_id : String) (state : RouteTable) : Type 0 where
  pub peers : Distinct (map peer_name state.peers)
  pub channels : Distinct (map channel_name state.local_routes)
  pub routes : Distinct (map route_id state.internal_routes)
  pub loop_free : All (IsLoopFree node_id) state.internal_routes

-- What the tables of routes keep through the update loop.
pub record IsSound (node_id : String) (rs : List InternalRoute) : Type 0 where
  pub routes : Distinct (map route_id rs)
  pub loop_free : All (IsLoopFree node_id) rs

module _ (node_id : String) where
  pub with_peers-IsValid :
      {state : RouteTable} {peers : List PeerRecord}
      → IsValid node_id state
      → Distinct (map peer_name peers)
      → IsValid node_id (new_state (with_peers state peers))
  with_peers-IsValid v d = record {
    peers = d;
    channels = v.channels;
    routes = v.routes;
    loop_free = v.loop_free;
  }

  -- A plan that writes the found peer and nothing else.
  pub set_peer-IsValid :
      {state : RouteTable} (name : String) {i : ℕ} {a : PeerRecord} (b : PeerRecord)
      → IsValid node_id state
      → find_index (named name) state.peers ≡ some (i, a)
      → peer_name b ≡ name
      → IsValid node_id (new_state (with_peers state (set state.peers i b)))
  set_peer-IsValid {state} name b v e s =
      with_peers-IsValid v (Distinct-set peer_name name state.peers b e s v.peers)

  pub filter-IsSound :
      (p : InternalRoute → Bool) (rs : List InternalRoute)
      → IsSound node_id rs
      → IsSound node_id (filter p rs)
  filter-IsSound p rs v = record {
    routes = Distinct-filter route_id p rs v.routes;
    loop_free = All-filter (IsLoopFree node_id) p rs v.loop_free;
  }

  stale_from-IsLoopFree :
      (name : String) (rs : List InternalRoute)
      → All (IsLoopFree node_id) rs
      → All (IsLoopFree node_id) (map (stale_from name) rs)
  stale_from-IsLoopFree name [] h = tt
  stale_from-IsLoopFree name (r ∷ rs) h = (ground arith, stale_from-IsLoopFree name rs h.1)

  pub stale_from-IsSound :
      (name : String) (rs : List InternalRoute)
      → IsSound node_id rs
      → IsSound node_id (map (stale_from name) rs)
  stale_from-IsSound name rs v = record {
    routes = rw (map-key route_id (stale_from name) (λ r. ground arith) rs) v.routes;
    loop_free = stale_from-IsLoopFree name rs v.loop_free;
  }

  pub add_item-IsSound :
      (peer : PeerInfo) (item : UpdateItem) (st : Progress)
      → IsSound node_id st.routes
      → IsSound node_id (add_item node_id peer item st).routes
  unfolding add_item
  add_item-IsSound peer item st v = elim (Bool-cases (includes item.node_path node_id)) [
    | inl loop ↦ rw (loop, add_item) v
    | inr free ↦ elim (Option-cases (find_index (matches item) st.routes)) [
      | inl new ↦
          rw (free, new, add_item)
            (record {
              routes =
                  Distinct-push route_id st.routes (advertised peer item)
                    (find_index-none route_id (matches item) st.routes new) v.routes;
              loop_free = All-append (IsLoopFree node_id) st.routes _ v.loop_free (free, tt);
            })
      | inr ((i, old), found) ↦ elim (Bool-cases (gives_way old item)) [
        | inl better ↦
            rw (free, found, better, add_item)
              (record {
                routes =
                    Distinct-set route_id _ st.routes (advertised peer item) found refl v.routes;
                loop_free = All-set (IsLoopFree node_id) st.routes i _ v.loop_free free;
              })
        | inr worse ↦ rw (free, found, worse, add_item) v
      ]
    ]
  ]

  pub remove_item-IsSound :
      (item : UpdateItem) (st : Progress)
      → IsSound node_id st.routes
      → IsSound node_id (remove_item item st).routes
  unfolding remove_item
  remove_item-IsSound item st v =
      ground (arith, filter-IsSound (λ r. not (matches item r)) st.routes v)

  pub apply_items-IsSound :
      (peer : PeerInfo) (items : List UpdateItem) (st : Progress)
      → IsSound node_id st.routes
      → IsSound node_id (apply_items node_id peer items st).routes
  unfolding apply_items
  apply_items-IsSound peer [] st v = v
  apply_items-IsSound peer (item ∷ items) st v =
      apply_items-IsSound peer items (apply_item node_id peer item st)
        (ground (arith, add_item-IsSound peer item st v, remove_item-IsSound item st v))

  -- A plan that leaves the peers' names and the local routes.
  pub internal-IsValid :
      {state next : RouteTable}
      → IsValid node_id state
      → IsSound node_id next.internal_routes
      → map peer_name next.peers ≡ map peer_name state.peers
      → next.local_routes ≡ state.local_routes
      → IsValid node_id next
  internal-IsValid v s p l = record {
    peers = rw p v.peers;
    channels = rw l v.channels;
    routes = s.routes;
    loop_free = s.loop_free;
  }

  pub IsValid-IsSound :
      {state : RouteTable} → IsValid node_id state → IsSound node_id state.internal_routes
  IsValid-IsSound v = record { routes = v.routes; loop_free = v.loop_free }

  pub map-touch :
      (clock : ℕ) (name : String) (peers : List PeerRecord)
      → map peer_name (touch clock (find_index (named name) peers) peers) ≡ map peer_name peers
  map-touch clock name peers = elim (Option-cases (find_index (named name) peers)) [
    | inl e ↦ rw e
    | inr ((i, a), e) ↦ rw e (map-set peer_name (named name) peers _ e refl)
  ]

  pub map-expire :
      (now : ℕ) (peers : List PeerRecord)
      → map peer_name (map (expire now) peers) ≡ map peer_name peers
  map-expire now = map-key peer_name (expire now) (λ p. ground arith)
