-- ===== src/Envoy/Stream.antt =====
-- apps/envoy/src/xds/control-plane.ts, `handleStream` and `sendSnapshotForTypes`: one stream of
-- discovery requests and responses. A response is what is encoded, before the encoding; a map from
-- type URLs is a function. Logging is left out.
use catalyst_router.Prelude.{
  ℕ, String, Bool, true, false, not, ◌+◌, ◌&&◌, List, [], ◌∷◌, ◌++◌, map, Option, none, some,
  includes, if◌then◌else◌, ◌==◌, string_key, nat_beq,
}
use catalyst_router.Ports.{set_add, map_get, map_set, map_delete}
use catalyst_router.Bus.Keepalive.{or_zero}
use catalyst_router.Envoy.Resources.{Listener, XdsCluster, is_tcp_proxy_listener}
use catalyst_router.Envoy.Snapshot.{XdsSnapshot}

abbrev pub listener_type_url : String
listener_type_url = "type.googleapis.com/envoy.config.listener.v3.Listener"

abbrev pub cluster_type_url : String
cluster_type_url = "type.googleapis.com/envoy.config.cluster.v3.Cluster"

-- The decoded request: what the handler reads of it.
pub record DiscoveryRequest : Type 0 where
  pub version_info : String
  pub type_url : String
  pub response_nonce : String
  pub error_code : Option ℕ

-- What the encoders are applied to, by the kind of the encoder.
pub data Resource : Type 0 where
  cluster_resource : XdsCluster → Resource
  listener_resource tcp_proxy_resource : Listener → Resource

pub record DiscoveryResponse : Type 0 where
  pub version_info : String
  pub resources : List Resource
  pub type_url : String
  pub nonce : ℕ

-- The variables of `handleStream`, with the control plane's `clientNackCounts`.
pub record Stream : Type 0 where
  pub client_id : String
  pub subscribed_types : List String
  pub sent_versions : String → Option String
  pub latest_snapshot : Option XdsSnapshot
  pub stream_nonce : ℕ
  pub stream_closed : Bool
  pub nack_counts : List (String × ℕ)

-- A new stream, with the snapshot that the cache has.
abbrev pub new_stream : String → Option XdsSnapshot → List (String × ℕ) → Stream
new_stream client_id latest nack_counts = record {
  client_id = client_id;
  subscribed_types = [];
  sent_versions = λ type_url. none;
  latest_snapshot = latest;
  stream_nonce = 0;
  stream_closed = false;
  nack_counts = nack_counts;
}

abbrev pub is_version : Option String → String → Bool
is_version none version = false
is_version (some sent) version = sent == version

-- The guard of both sends.
abbrev pub needs : Stream → String → String → Bool
needs s type_url version =
    includes s.subscribed_types type_url && not (is_version (s.sent_versions type_url) version)

abbrev pub Sent : Type 0
Sent = Stream × List DiscoveryResponse

-- `call.write` of a response with the next nonce, and its version noted.
abbrev pub write : String → String → List Resource → Stream → Sent
write type_url version resources s = (
  record s {
    stream_nonce = s.stream_nonce + 1;
    sent_versions = λ t. if t == type_url then some version else s.sent_versions t;
  },
  record {
    version_info = version;
    resources = resources;
    type_url = type_url;
    nonce = s.stream_nonce + 1;
  }
      ∷ [],
)

unfoldable pub send_type : String → String → List Resource → Stream → Sent
send_type type_url version resources s =
    if needs s type_url version then write type_url version resources s else (s, [])

abbrev pub encode_listener : Listener → Resource
encode_listener l = if is_tcp_proxy_listener l then tcp_proxy_resource l else listener_resource l

-- Clusters first, then listeners.
unfoldable pub send_snapshot_for_types : XdsSnapshot → Stream → Sent
unfolding send_type
send_snapshot_for_types snapshot s =
    let cds =
      send_type cluster_type_url snapshot.version (map cluster_resource snapshot.clusters) s in
    let lds =
      send_type listener_type_url snapshot.version (map encode_listener snapshot.listeners) cds.0 in
    (lds.0, cds.1 ++ lds.1)

abbrev pub send_latest : Option XdsSnapshot → Stream → Sent
send_latest none s = (s, [])
send_latest (some snapshot) s = send_snapshot_for_types snapshot s

unfoldable pub send_subscribed : Stream → Sent
unfolding send_snapshot_for_types
send_subscribed s = if s.stream_closed then (s, []) else send_latest s.latest_snapshot s

-- The watcher of the cache.
unfoldable pub on_snapshot : XdsSnapshot → Stream → Sent
unfolding send_subscribed
on_snapshot snapshot s = send_subscribed (record s { latest_snapshot = some snapshot })

abbrev pub subscribe : String → Stream → Stream
subscribe type_url s =
    if type_url == ""
    then s
    else record s { subscribed_types = set_add s.subscribed_types type_url }

abbrev pub is_initial : DiscoveryRequest → Bool
is_initial r = r.version_info == "" && r.response_nonce == ""

abbrev pub is_nack : Option ℕ → Bool
is_nack none = false
is_nack (some code) = not (nat_beq code 0)

abbrev pub count_nack : Stream → Stream
count_nack s = record s {
  nack_counts = map_set s.nack_counts s.client_id (or_zero (map_get s.nack_counts s.client_id) + 1);
}

-- A message: a subscription, a rejection or an acknowledgement.
unfoldable pub on_request : DiscoveryRequest → Stream → Sent
unfolding send_subscribed
on_request r s =
    let known = subscribe r.type_url s in
    if is_initial r
    then send_subscribed known
    else ((if is_nack r.error_code then count_nack known else known), [])

-- `end` and `error`; the watcher is taken off the cache.
unfoldable pub on_end : Stream → Stream
on_end s = record s { stream_closed = true; nack_counts = map_delete s.nack_counts s.client_id }

pub data StreamEvent : Type 0 where
  snapshot_set : XdsSnapshot → StreamEvent
  request : DiscoveryRequest → StreamEvent
  undecodable : StreamEvent
  ended : StreamEvent

unfoldable pub on_event : StreamEvent → Stream → Sent
unfolding on_snapshot on_request on_end
on_event (snapshot_set snapshot) s = on_snapshot snapshot s
on_event (request r) s = on_request r s
on_event undecodable s = (s, [])
on_event ended s = (on_end s, [])

-- All responses of a list of events.
unfoldable pub serve : List StreamEvent → Stream → Sent
unfolding on_event
serve [] s = (s, [])
serve (e ∷ es) s = let now = on_event e s in let rest = serve es now.0 in (rest.0, now.1 ++ rest.1)
