-- ===== src/Network.antt =====
-- Several nodes: how an advertisement goes from node to node. What a node sends is that of
-- apps/orchestrator/src/v2/bus.ts, what it takes in that of packages/routing/src/v2/rib/rib.ts.
mod Relays
mod Spread
mod Tests
use catalyst_router.Prelude.{ℕ, suc, String, Bool, true, ◌≡◌, List, ◌∷◌, includes, string_key, Memᴰ}
use catalyst_router.Table.{DataChannel, PeerRecord, RouteTable}
use catalyst_router.Action.{UpdateItem, add, ProtocolUpdate}
use catalyst_router.Rib.Update.{plan_internal_protocol_update}
use catalyst_router.Rib.Invariant.{IsValid}
use catalyst_router.Bus.Config.{Config}
use catalyst_router.Bus.Propagation.{local_item, sync_updates, build_updates}

-- The second update has the path of the first, with one more node in front.
abbrev pub Carries : UpdateItem → UpdateItem → Type 0
Carries item next = (node : String) × (next.node_path ≡ node ∷ item.node_path)

-- An advertisement after some hops between nodes whose names are in a list: a node advertises a
-- route of its own; a node takes in a message and tells a peer of what changed; or a node that has
-- the route in its table tells a peer whose session starts.
pub data Journey (names : List String) : ℕ → UpdateItem → Type 0 where
  departs :
      (c : Config) (r : DataChannel)
      → includes names c.node_name ≡ true
      → Journey names 0 (local_item c add r)
  relayed :
      {hops : ℕ} {item next : UpdateItem} (clock : ℕ) (c : Config) (d : ProtocolUpdate)
      (state : RouteTable) (peer : PeerRecord)
      → includes names c.node_name ≡ true
      → Journey names hops item
      → Memᴰ item d.updates
      → Memᴰ next (
          build_updates c peer
            (plan_internal_protocol_update clock c.node_name d state).route_changes)
      → next.action ≡ add
      → Carries item next
      → Journey names (suc hops) next
  synced :
      {hops : ℕ} {item next : UpdateItem} (c : Config) (state : RouteTable) (peer : PeerRecord)
      → includes names c.node_name ≡ true
      → Journey names hops item
      → IsValid c.node_name state
      → Memᴰ next (sync_updates c peer state)
      → Carries item next
      → Journey names (suc hops) next
