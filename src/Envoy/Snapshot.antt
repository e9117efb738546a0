-- ===== src/Envoy/Snapshot.antt =====
-- `buildXdsSnapshot` of apps/envoy/src/xds/resources.ts. The two loops push on the lists of
-- listeners and clusters; `none` is a throw. The version is given, as `input.version`.
use catalyst_router.Prelude.{
  ℕ, zero, suc, String, List, [], ◌∷◌, ◌++◌, Option, none, some, if◌then◌else◌, ◌==◌, string_key,
}
use catalyst_router.Table.{DataChannel, InternalRoute}
use catalyst_router.Ports.{map_get}
use catalyst_router.Envoy.Resources.{
  Platform, SocketAddress, Listener, XdsCluster, parse_endpoint_url, is_tcp_protocol, egress_name,
  build_ingress_listener, build_egress_listener, build_tcp_proxy_ingress_listener,
  build_tcp_proxy_egress_listener, build_local_cluster, build_remote_cluster,
}

pub record SnapshotInput : Type 0 where
  pub locals : List DataChannel
  pub internals : List InternalRoute
  pub port_allocations : List (String × ℕ)
  pub bind_address : String
  pub version : String

pub record XdsSnapshot : Type 0 where
  pub version : String
  pub listeners : List Listener
  pub clusters : List XdsCluster

pub record Resources : Type 0 where
  pub pushed_listeners : List Listener
  pub pushed_clusters : List XdsCluster

abbrev pub push : Resources → Listener → XdsCluster → Resources
push done l c = record {
  pushed_listeners = done.pushed_listeners ++ l ∷ [];
  pushed_clusters = done.pushed_clusters ++ c ∷ [];
}

-- A value in a condition: 0 and the empty string are falsy.
abbrev pub given_port : Option ℕ → Option ℕ
given_port none = none
given_port (some zero) = none
given_port (some (suc n)) = some (suc n)

abbrev pub given_text : Option String → Option String
given_text none = none
given_text (some s) = if s == "" then none else some s

module _ (env : Platform) (input : SnapshotInput) where
  abbrev bind_at : ℕ → SocketAddress
  bind_at port = record { address = input.bind_address; port_value = port }

  abbrev pub local_listener : DataChannel → ℕ → Listener
  local_listener route port =
      if is_tcp_protocol route.protocol
      then build_tcp_proxy_ingress_listener route.name (bind_at port)
      else build_ingress_listener env route.name (bind_at port) route.protocol

  abbrev pub internal_listener : InternalRoute → ℕ → Listener
  internal_listener route port =
      if is_tcp_protocol route.protocol
      then build_tcp_proxy_egress_listener route.name route.peer.name (some input.bind_address) port
      else build_egress_listener env route.name route.peer.name (some input.bind_address) port
          route.protocol

  -- One round of the first loop.
  unfoldable pub add_local : DataChannel → Resources → Option Resources
  add_local route done = elim (given_text route.endpoint) [
    | none ↦ some done
    | some endpoint ↦ elim (given_port (map_get input.port_allocations route.name)) [
      | none ↦ some done
      | some port ↦ elim (parse_endpoint_url env endpoint) [
        | none ↦ none
        | some at ↦ some (
            push done (local_listener route port)
              (build_local_cluster env route.name at route.protocol))
      ]
    ]
  ]

  -- One round of the second loop.
  unfoldable pub add_internal : InternalRoute → Resources → Resources
  add_internal route done = elim (given_port route.envoy_port) [
    | none ↦ done
    | some peer_port ↦ elim (given_text route.peer.envoy_address) [
      | none ↦ done
      | some peer_address ↦
          elim (given_port
            (map_get input.port_allocations (egress_name route.name route.peer.name))) [
              | none ↦ done
              | some port ↦ push done (internal_listener route port) (
                  build_remote_cluster env route.name route.peer.name
                    (record { address = peer_address; port_value = peer_port }) route.protocol)
            ]
    ]
  ]

  unfoldable pub add_locals : List DataChannel → Resources → Option Resources
  unfolding add_local
  add_locals [] done = some done
  add_locals (r ∷ rs) done = elim (add_local r done) [
    | none ↦ none
    | some next ↦ add_locals rs next
  ]

  unfoldable pub add_internals : List InternalRoute → Resources → Resources
  unfolding add_internal
  add_internals [] done = done
  add_internals (r ∷ rs) done = add_internals rs (add_internal r done)

  unfoldable pub build_xds_snapshot : Option XdsSnapshot
  unfolding add_locals add_internals
  build_xds_snapshot =
      elim (add_locals input.locals (record { pushed_listeners = []; pushed_clusters = [] })) [
        | none ↦ none
        | some done ↦
            let all = add_internals input.internals done in
            some (record {
              version = input.version;
              listeners = all.pushed_listeners;
              clusters = all.pushed_clusters;
            })
      ]
