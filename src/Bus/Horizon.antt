-- ===== src/Bus/Horizon.antt =====
-- Split horizon: no peer is told of a route that comes from it or passes through it.
use catalyst_router.Prelude.{
  String, false, ◌≡◌, refl, List, [], ◌∷◌, map, arith, All, All-append, includes, ◌==◌, string_key,
}
use catalyst_router.Table.{
  DataChannel, InternalRoute, PeerRecord, RouteTable, RouteChange, local, internal, Route,
}
use catalyst_router.Action.{UpdateItem, UpdateKind, add}
use catalyst_router.Bus.Config.{Config}
use catalyst_router.Bus.Propagation.{
  local_item, internal_item, reflects, sync_internal, sync_updates, build_updates, kind_of,
  change_route, update_for,
}

-- An update that begins its path with this node, and that the peer does not discard as a loop.
abbrev pub IsNews : Config → PeerRecord → UpdateItem → Type 0
IsNews c peer u =
    (path : List String) × (u.node_path ≡ c.node_name ∷ path)
    × (includes u.node_path peer.name ≡ false)

module _ (c : Config) (peer : PeerRecord) (other : (c.node_name == peer.name) ≡ false) where
  local_item-IsNews : (kind : UpdateKind) (r : DataChannel) → IsNews c peer (local_item c kind r)
  local_item-IsNews kind r = ([], refl, ground arith)

  internal_item-IsNews :
      (kind : UpdateKind) (r : InternalRoute)
      → reflects peer r ≡ false
      → IsNews c peer (internal_item c kind r)
  internal_item-IsNews kind r h = (r.node_path, refl, ground arith)

  locals-IsNews : (rs : List DataChannel) → All (IsNews c peer) (map (local_item c add) rs)
  locals-IsNews [] = tt
  locals-IsNews (r ∷ rs) = (local_item-IsNews add r, locals-IsNews rs)

  sync_internal-IsNews : (rs : List InternalRoute) → All (IsNews c peer) (sync_internal c peer rs)
  unfolding sync_internal
  sync_internal-IsNews [] = tt
  sync_internal-IsNews (r ∷ rs) =
      let rest = sync_internal-IsNews rs in ground (arith, rest, internal_item-IsNews add r)

  update_for-IsNews :
      (change : RouteChange) (route : Route) (rest : List UpdateItem)
      → All (IsNews c peer) rest
      → All (IsNews c peer) (update_for c peer change route rest)
  update_for-IsNews change (local r) rest h = (local_item-IsNews (kind_of change) r, h)
  update_for-IsNews change (internal r) rest h =
      ground (arith, internal_item-IsNews (kind_of change) r)

  changes-IsNews : (cs : List RouteChange) → All (IsNews c peer) (build_updates c peer cs)
  unfolding build_updates
  changes-IsNews [] = tt
  changes-IsNews (change ∷ cs) =
      update_for-IsNews change (change_route change) (build_updates c peer cs) (changes-IsNews cs)

-- Whatever is sent to a peer with another name than this node's, on its connection or later, has a
-- path that begins with this node and does not contain the peer, so the peer discards none of it as
-- a loop.
pub updates-IsNews :
    (c : Config) (peer : PeerRecord) (state : RouteTable) (changes : List RouteChange)
    → (c.node_name == peer.name) ≡ false
    → All (IsNews c peer) (sync_updates c peer state)
      × All (IsNews c peer) (build_updates c peer changes)
unfolding sync_updates
updates-IsNews c peer state changes other = (
  All-append (IsNews c peer) (map (local_item c add) state.local_routes) _
      (locals-IsNews c peer other state.local_routes)
      (sync_internal-IsNews c peer other state.internal_routes),
  changes-IsNews c peer other changes,
)
