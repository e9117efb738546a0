-- ===== src/Envoy/Currency.antt =====
-- A snapshot reaches what is subscribed: apps/envoy/src/xds/control-plane.ts, `sendSubscribed`.
use catalyst_router.Prelude.{
  String, Bool, true, false, ◌≡◌, refl, ◌∙◌, ap, List, [], map, Option, none, some, arith, includes,
  if◌then◌else◌, string_key, inl, inr, Bool-cases, ==_refl, ==_eq,
}
use catalyst_router.Envoy.Snapshot.{XdsSnapshot}
use catalyst_router.Envoy.Stream.{
  Stream, Resource, is_version, needs, send_type, send_snapshot_for_types, send_latest,
  send_subscribed, on_snapshot, cluster_type_url, listener_type_url, cluster_resource,
  encode_listener,
}

is_version_lem :
    (noted : Option String) (version : String)
    → is_version noted version ≡ true
    → noted ≡ some version
is_version_lem none version h = ground (arith, h)
is_version_lem (some sent) version h = ap some (==_eq sent version h)

pub send_type-subscribed_types :
    (t version : String) (rs : List Resource) (s : Stream)
    → (send_type t version rs s).0.subscribed_types ≡ s.subscribed_types
unfolding send_type
send_type-subscribed_types t version rs s = elim (Bool-cases (needs s t version)) [
  | inl due ↦ simp due refl
  | inr idle ↦ simp idle refl
]

send_type-current :
    (t version : String) (rs : List Resource) (s : Stream)
    → includes s.subscribed_types t ≡ true
    → (send_type t version rs s).0.sent_versions t ≡ some version
unfolding send_type
send_type-current t version rs s subscribed = elim (Bool-cases (needs s t version)) [
  | inl due ↦ ground (arith, due, ==_refl t)
  | inr idle ↦ ground (arith, idle, subscribed, is_version_lem (s.sent_versions t) version)
]

send_type-stays :
    (t t2 version : String) (rs : List Resource) (s : Stream)
    → s.sent_versions t2 ≡ some version
    → (send_type t version rs s).0.sent_versions t2 ≡ some version
unfolding send_type
send_type-stays t t2 version rs s noted = elim (Bool-cases (needs s t version)) [
  | inl due ↦ ground (arith, due, noted)
  | inr idle ↦ ground (arith, idle, noted)
]

-- The two kinds of resources that the control plane serves.
pub data Served : String → Type 0 where
  clusters_served : Served cluster_type_url
  listeners_served : Served listener_type_url

abbrev pub after_clusters : XdsSnapshot → Stream → Stream
after_clusters snapshot s =
    (send_type cluster_type_url snapshot.version (map cluster_resource snapshot.clusters) s).0

pub snapshot-current :
    (snapshot : XdsSnapshot) (s : Stream) (t : String)
    → Served t
    → includes s.subscribed_types t ≡ true
    → (send_snapshot_for_types snapshot s).0.sent_versions t ≡ some snapshot.version
unfolding send_snapshot_for_types
snapshot-current snapshot s t clusters_served subscribed =
    send_type-stays listener_type_url cluster_type_url snapshot.version
      (map encode_listener snapshot.listeners) (after_clusters snapshot s)
      (send_type-current cluster_type_url snapshot.version (map cluster_resource snapshot.clusters)
        s subscribed)
snapshot-current snapshot s t listeners_served subscribed =
    let clusters = map cluster_resource snapshot.clusters in
    send_type-current listener_type_url snapshot.version (map encode_listener snapshot.listeners)
      (after_clusters snapshot s)
      (ap (λ types. includes types listener_type_url)
          (send_type-subscribed_types cluster_type_url snapshot.version clusters s)
        ∙ subscribed)

gated-current :
    (closed : Bool) (snapshot : XdsSnapshot) (s : Stream) (t : String)
    → closed ≡ false
    → Served t
    → includes s.subscribed_types t ≡ true
    → (if closed then (s, []) else send_latest (some snapshot) s).0.sent_versions t
      ≡ some snapshot.version
gated-current true snapshot s t e served subscribed = ground (arith, e)
gated-current false snapshot s t e served subscribed =
    snapshot-current snapshot s t served subscribed

-- When the cache gets a snapshot and the stream is open, then for clusters and for listeners, where
-- the client has subscribed to them, the last version sent afterwards is the snapshot's.
pub on_snapshot-current :
    (snapshot : XdsSnapshot) (s : Stream) (t : String)
    → s.stream_closed ≡ false
    → Served t
    → includes s.subscribed_types t ≡ true
    → (on_snapshot snapshot s).0.sent_versions t ≡ some snapshot.version
unfolding on_snapshot send_subscribed
on_snapshot-current snapshot s t = gated-current s.stream_closed snapshot _ t
