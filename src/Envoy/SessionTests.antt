-- ===== src/Envoy/SessionTests.antt =====
-- A client that subscribes to clusters on a server that gets one local route.
use catalyst_router.Prelude.{
  ℕ, String, ◌≡◌, refl, [], ◌∷◌, Option, none, some, if◌then◌else◌, nat_beq,
}
use catalyst_router.Samples.{books}
use catalyst_router.Envoy.Resources.{parse_endpoint_url}
use catalyst_router.Envoy.Snapshot.{
  XdsSnapshot, build_xds_snapshot, add_local, add_locals, add_internals,
}
use catalyst_router.Envoy.Cache.{SnapshotCache, create_snapshot_cache, set_snapshot}
use catalyst_router.Envoy.Server.{RouteConfig, EnvoyRpcServer, new_server, update_routes}
use catalyst_router.Envoy.Stream.{
  DiscoveryRequest, cluster_type_url, on_snapshot, on_request, send_subscribed,
  send_snapshot_for_types, send_type,
}
use catalyst_router.Envoy.Currency.{clusters_served}
use catalyst_router.Envoy.Responses.{last_version}
use catalyst_router.Envoy.Session.{
  Session, responses, connect, update, receive, Reaches, here, after, routes_updated,
  type_subscribed, connect-delivers,
}
use catalyst_router.Envoy.Legacy.{CarriesPorts}
use catalyst_router.Envoy.Tests.{toy}

abbrev show_digit : ℕ → String
show_digit n = if nat_beq n 1 then "1" else "2"

abbrev pub served_books : RouteConfig
served_books = record {
  locals = record books { envoy_port = some 10000 } ∷ [];
  internals = [];
  port_allocations = some (("books", 10000) ∷ []);
}

abbrev pub empty_cache : SnapshotCache ℕ
empty_cache = create_snapshot_cache

abbrev pub server : EnvoyRpcServer ℕ
server = new_server (some empty_cache) "0.0.0.0"

abbrev opened : Session
opened = connect toy show_digit 7 server empty_cache "envoy" []

abbrev pub clusters_wanted : DiscoveryRequest
clusters_wanted = record {
  version_info = "";
  type_url = cluster_type_url;
  response_nonce = "";
  error_code = none;
}

abbrev ready : Session
ready =
    update toy show_digit 7 (some served_books) (receive toy show_digit 7 clusters_wanted opened)

ready-reached : Reaches toy show_digit 7 opened ready
ready-reached =
    after (after here (type_subscribed opened clusters_wanted refl))
      (routes_updated (receive toy show_digit 7 clusters_wanted opened) (some served_books))

abbrev cache_of : Option (SnapshotCache ℕ) → SnapshotCache ℕ
cache_of none = empty_cache
cache_of (some cache) = cache

abbrev now : SnapshotCache ℕ
now = cache_of ready.server.snapshot_cache

abbrev pub snapshot_of : Option XdsSnapshot → XdsSnapshot
snapshot_of none = record { version = ""; listeners = []; clusters = [] }
snapshot_of (some s) = s

connect-delivers_example :
    last_version cluster_type_url none (responses toy show_digit 7 ready-reached)
    ≡ some (snapshot_of now.current).version
unfolding update_routes build_xds_snapshot add_locals add_local add_internals parse_endpoint_url
    set_snapshot on_snapshot on_request send_subscribed send_snapshot_for_types send_type
connect-delivers_example =
    connect-delivers toy show_digit 7 server empty_cache "envoy" [] ready ready-reached now
      (snapshot_of now.current) cluster_type_url refl refl clusters_served refl

books-carried : CarriesPorts (("books", 10000) ∷ []) served_books
books-carried = record { locals_carry = (refl, tt); internals_carry = tt }

-- The version that the client was sent.
ready-version : ready.stream.sent_versions cluster_type_url ≡ some "1"
unfolding update_routes build_xds_snapshot add_locals add_local add_internals parse_endpoint_url
    set_snapshot on_snapshot on_request send_subscribed send_snapshot_for_types send_type
ready-version = refl
