-- ===== src/Envoy/Server.antt =====
-- apps/envoy/src/rpc/server.ts: the routes that the orchestrator sends become a snapshot. A message
-- is what the schema makes of it, none if it is malformed; an internal route is the orchestrator's,
-- of which only the schema's fields are read. Telemetry is left out, and with it `previousSnapshot`.
use catalyst_router.Prelude.{ℕ, String, ◌+◌, List, [], ◌∷◌, Option, none, some}
use catalyst_router.Table.{DataChannel, InternalRoute}
use catalyst_router.Ports.{map_set}
use catalyst_router.Envoy.Resources.{Platform, egress_name}
use catalyst_router.Envoy.Snapshot.{SnapshotInput, XdsSnapshot, given_port, build_xds_snapshot}
use catalyst_router.Envoy.Cache.{SnapshotCache, set_snapshot}

pub record RouteConfig : Type 0 where
  pub locals : List DataChannel
  pub internals : List InternalRoute
  pub port_allocations : Option (List (String × ℕ))

pub data UpdateResult : Type 0 where
  update_succeeded malformed_config build_failed : UpdateResult

pub record EnvoyRpcServer (W : Type 0) : Type 0 where
  pub config : RouteConfig
  pub version_counter : ℕ
  pub snapshot_cache : Option (SnapshotCache W)
  pub bind_address : String

abbrev pub new_server : {W : Type 0} → Option (SnapshotCache W) → String → EnvoyRpcServer W
new_server cache bind_address = record {
  config = record { locals = []; internals = []; port_allocations = none };
  version_counter = 0;
  snapshot_cache = cache;
  bind_address = bind_address;
}

-- An entry of the legacy derivation: a port of 0 is no port.
abbrev pub set_given : List (String × ℕ) → String → Option ℕ → List (String × ℕ)
set_given m key none = m
set_given m key (some port) = map_set m key port

unfoldable pub legacy_locals : List DataChannel → List (String × ℕ) → List (String × ℕ)
legacy_locals [] m = m
legacy_locals (r ∷ rs) m = legacy_locals rs (set_given m r.name (given_port r.envoy_port))

unfoldable pub legacy_internals : List InternalRoute → List (String × ℕ) → List (String × ℕ)
legacy_internals [] m = m
legacy_internals (r ∷ rs) m =
    legacy_internals rs (set_given m (egress_name r.name r.peer.name) (given_port r.envoy_port))

-- The ports as sent, or those that the routes carry.
abbrev pub ports_of : RouteConfig → List (String × ℕ)
ports_of config = elim config.port_allocations [
  | some sent ↦ sent
  | none ↦ legacy_internals config.internals (legacy_locals config.locals [])
]

-- The server, the answer, and the watchers called.
abbrev pub Updated : Type 0 → Type 0
Updated W = EnvoyRpcServer W × UpdateResult × List (W × XdsSnapshot)

-- `show` is `String` on numbers.
module _ {W : Type 0} (env : Platform) (show : ℕ → String) where
  abbrev pub input_of : RouteConfig → EnvoyRpcServer W → SnapshotInput
  input_of config s = record {
    locals = config.locals;
    internals = config.internals;
    port_allocations = ports_of config;
    bind_address = s.bind_address;
    version = show (s.version_counter + 1);
  }

  -- The counter is advanced even if the build throws.
  abbrev pub landed :
      RouteConfig → SnapshotCache W → EnvoyRpcServer W → Option XdsSnapshot → Updated W
  landed config cache s built =
      let counted = record s { config = config; version_counter = s.version_counter + 1 } in
      elim built [
        | none ↦ (counted, build_failed, [])
        | some snapshot ↦ (
          record counted { snapshot_cache = some (set_snapshot cache snapshot).0 },
          update_succeeded,
          (set_snapshot cache snapshot).1,
        )
      ]

  abbrev pub publish : RouteConfig → SnapshotCache W → EnvoyRpcServer W → Updated W
  publish config cache s = landed config cache s (build_xds_snapshot env (input_of config s))

  abbrev pub publish_if : RouteConfig → Option (SnapshotCache W) → EnvoyRpcServer W → Updated W
  publish_if config none s = (record s { config = config }, update_succeeded, [])
  publish_if config (some cache) s = publish config cache s

  unfoldable pub update_routes : Option RouteConfig → EnvoyRpcServer W → Updated W
  update_routes none s = (s, malformed_config, [])
  update_routes (some config) s = publish_if config s.snapshot_cache s
