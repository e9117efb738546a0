-- ===== src/Envoy/StreamTests.antt =====
-- A client that subscribes to clusters before and after a snapshot is set.
use catalyst_router.Prelude.{String, ◌≡◌, refl, [], ◌∷◌, List, map, none, some}
use catalyst_router.Envoy.Snapshot.{XdsSnapshot}
use catalyst_router.Envoy.Stream.{
  Stream, DiscoveryRequest, StreamEvent, snapshot_set, request, ended, new_stream, cluster_type_url,
  listener_type_url, serve, on_event, on_snapshot, on_request, on_end, send_subscribed,
  send_snapshot_for_types, send_type,
}

abbrev snapshot : XdsSnapshot
snapshot = record { version = "1"; listeners = []; clusters = [] }

abbrev subscribing : String → DiscoveryRequest
subscribing type_url = record {
  version_info = "";
  type_url = type_url;
  response_nonce = "";
  error_code = none;
}

abbrev rejecting : DiscoveryRequest
rejecting = record {
  version_info = "";
  type_url = cluster_type_url;
  response_nonce = "1";
  error_code = some 13;
}

abbrev fresh : Stream
fresh = new_stream "envoy" none []

abbrev session : List StreamEvent
session =
    request (subscribing cluster_type_url)
    ∷ snapshot_set snapshot
    ∷ request rejecting
    ∷ request (subscribing listener_type_url)
    ∷ ended
    ∷ snapshot_set snapshot
    ∷ []

-- Clusters are sent once, listeners once, and nothing after the end.
session-types :
    map (λ r. r.type_url) (serve session fresh).1 ≡ cluster_type_url ∷ listener_type_url ∷ []
unfolding serve on_event on_snapshot on_request on_end send_subscribed send_snapshot_for_types
    send_type
session-types = refl

abbrev subscribed : Stream
subscribed = record fresh { subscribed_types = cluster_type_url ∷ [] }
