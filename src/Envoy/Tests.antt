-- ===== src/Envoy/Tests.antt =====
-- A snapshot for one local and one remote route.
use catalyst_router.Prelude.{ℕ, true, ◌≡◌, refl, [], ◌∷◌, map, Option, none, some, nat_key}
use catalyst_router.Table.{PlanResult, new_route_table, fresh, added, internal}
use catalyst_router.Ports.{Allocator, allocate_port}
use catalyst_router.Bus.Allocation.{
  allocate_ports, release_changes, release_ops, stamp_locals, stamp_local, stamp_internals,
  stamp_internal,
}
use catalyst_router.Envoy.Upstream.{
  cluster_ports, own_ports, internal_input, build_xds_snapshot-allocate_ports,
}
use catalyst_router.Samples.{books, learned_films, linked}
use catalyst_router.Envoy.Resources.{Platform, parse_endpoint_url}
use catalyst_router.Envoy.Snapshot.{
  SnapshotInput, XdsSnapshot, build_xds_snapshot, add_local, add_internal, add_locals,
  add_internals,
}
use catalyst_router.Envoy.Rows.{row, expected}
use catalyst_router.Envoy.Coverage.{build_xds_snapshot-listeners}
use catalyst_router.Envoy.Cache.{SnapshotCache, create_snapshot_cache, watch}

-- Every URL is `http://books:8080`, and no address is an IP address.
abbrev pub toy : Platform
toy = record {
  is_ip = λ s. 0;
  parse_url = λ s. some (record { hostname = "books"; url_port = "8080"; url_protocol = "http:" });
  number = λ s. 8080;
  starts_with = λ s t. true;
}

abbrev input : SnapshotInput
input = record {
  locals = books ∷ [];
  internals = learned_films ∷ [];
  port_allocations = ("books", 10000) ∷ ("egress_films_via_node-b", 10001) ∷ [];
  bind_address = "0.0.0.0";
  version = "1";
}

abbrev built : Option XdsSnapshot → XdsSnapshot
built none = record { version = ""; listeners = []; clusters = [] }
built (some s) = s

abbrev snapshot : XdsSnapshot
snapshot = built (build_xds_snapshot toy input)

snapshot-built : build_xds_snapshot toy input ≡ some snapshot
unfolding build_xds_snapshot add_locals add_local add_internals add_internal parse_endpoint_url
snapshot-built = refl

-- Both routes are served.
snapshot-names :
    map (λ c. c.name) snapshot.clusters ≡ "local_books" ∷ "remote_films_via_node-b" ∷ []
unfolding build_xds_snapshot add_locals add_local add_internals add_internal parse_endpoint_url
snapshot-names = refl

build_xds_snapshot-listeners_example : map row snapshot.listeners ≡ expected toy input
build_xds_snapshot-listeners_example =
    build_xds_snapshot-listeners toy input snapshot snapshot-built

abbrev two_watchers : SnapshotCache ℕ
two_watchers = watch (watch create_snapshot_cache 1) 2

-- A node that learns the route of the other node, which the other node serves on its port 10000, and
-- whose own pool starts at 20000.
abbrev learned : PlanResult
learned = record {
  prev_state = new_route_table;
  state = fresh linked;
  port_ops = [];
  route_changes = added (internal learned_films) ∷ [];
}

abbrev pool : Allocator
pool = record { available = 20000 ∷ 20001 ∷ []; allocations = [] }

abbrev upstream : XdsSnapshot
upstream = built (build_xds_snapshot toy (internal_input learned pool "0.0.0.0" "1"))

upstream-built : build_xds_snapshot toy (internal_input learned pool "0.0.0.0" "1") ≡ some upstream
unfolding build_xds_snapshot add_locals add_internals add_internal allocate_ports release_changes
    release_ops stamp_locals stamp_local stamp_internals stamp_internal allocate_port
upstream-built = refl

-- The other node is addressed at this node's port.
upstream-ports : map cluster_ports upstream.clusters ≡ ((20001 ∷ []) ∷ []) ∷ []
unfolding build_xds_snapshot add_locals add_internals add_internal allocate_ports release_changes
    release_ops stamp_locals stamp_local stamp_internals stamp_internal allocate_port
upstream-ports = refl

build_xds_snapshot-allocate_ports_example :
    map cluster_ports upstream.clusters ≡ map own_ports upstream.listeners
build_xds_snapshot-allocate_ports_example =
    build_xds_snapshot-allocate_ports toy learned pool "0.0.0.0" "1" upstream upstream-built
