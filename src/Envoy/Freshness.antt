-- ===== src/Envoy/Freshness.antt =====
-- The versions of the snapshots of apps/envoy/src/rpc/server.ts, and what a stream of
-- apps/envoy/src/xds/control-plane.ts does with a new one.
use catalyst_router.Prelude.{
  String, Bool, true, false, ◌≡◌, refl, subst, List, [], ◌∷◌, map, filter, Option, none, some,
  arith, includes, if◌then◌else◌, ◌==◌, string_key, inl, inr, Bool-cases, Option-cases,
}
use catalyst_router.Envoy.Resources.{Platform}
use catalyst_router.Envoy.Snapshot.{SnapshotInput, XdsSnapshot, build_xds_snapshot, add_locals}
use catalyst_router.Envoy.Stream.{
  Stream, Resource, is_version, needs, send_type, send_snapshot_for_types, send_latest,
  send_subscribed, on_snapshot, cluster_type_url, listener_type_url, cluster_resource,
  encode_listener,
}

pub some-eq : {A : Type 0} {a b : A} → some a ≡ some b → a ≡ b
some-eq h = cc

pub build_xds_snapshot-version :
    (env : Platform) (input : SnapshotInput) (s : XdsSnapshot)
    → build_xds_snapshot env input ≡ some s
    → s.version ≡ input.version
unfolding build_xds_snapshot
build_xds_snapshot-version env input s h =
    elim (Option-cases (
      add_locals env input input.locals (record { pushed_listeners = []; pushed_clusters = [] }))) [
        | inl e ↦ ground (arith, h, e)
        | inr (done, e) ↦ ground (arith, h, e)
      ]

-- Every version that the stream has noted satisfies `P`.
abbrev pub AllSent : (String → Type 0) → Stream → Type 0
AllSent P s = (t v : String) → s.sent_versions t ≡ some v → P v

module _ (P : String → Type 0) where
  send_type-AllSent :
      (t version : String) (rs : List Resource) (s : Stream)
      → P version
      → AllSent P s
      → AllSent P (send_type t version rs s).0
  unfolding send_type
  send_type-AllSent t version rs s p a u v = elim (Bool-cases (needs s t version)) [
    | inl due ↦ rw (due, send_type) (noted (u == t))
    | inr idle ↦ rw (idle, send_type) (a u v)
  ]
    where
      noted : (b : Bool) → (if b then some version else s.sent_versions u) ≡ some v → P v
      noted true h = subst P (some-eq h) p
      noted false h = a u v h

  snapshot-AllSent :
      (snapshot : XdsSnapshot) (s : Stream)
      → P snapshot.version
      → AllSent P s
      → AllSent P (send_snapshot_for_types snapshot s).0
  unfolding send_snapshot_for_types
  snapshot-AllSent snapshot s p a =
      let clusters = map cluster_resource snapshot.clusters in
      send_type-AllSent listener_type_url snapshot.version (map encode_listener snapshot.listeners)
        (send_type cluster_type_url snapshot.version clusters s).0 p
        (send_type-AllSent cluster_type_url snapshot.version clusters s p a)

  gated-AllSent :
      (closed : Bool) (latest : Option XdsSnapshot) (s : Stream)
      → ((snapshot : XdsSnapshot) → latest ≡ some snapshot → P snapshot.version)
      → AllSent P s
      → AllSent P (if closed then (s, []) else send_latest latest s).0
  gated-AllSent true latest s p a = a
  gated-AllSent false none s p a = a
  gated-AllSent false (some snapshot) s p a = snapshot-AllSent snapshot s (p snapshot refl) a

  pub send_subscribed-AllSent :
      (s : Stream)
      → ((snapshot : XdsSnapshot) → s.latest_snapshot ≡ some snapshot → P snapshot.version)
      → AllSent P s
      → AllSent P (send_subscribed s).0
  unfolding send_subscribed
  send_subscribed-AllSent s p a = gated-AllSent s.stream_closed s.latest_snapshot s p a

-- A version that differs from all noted ones is sent, of both kinds, if they are subscribed.
fresh_version :
    (noted : Option String) (version : String)
    → ((v : String) → noted ≡ some v → (v == version) ≡ false)
    → is_version noted version ≡ false
fresh_version none version h = refl
fresh_version (some v) version h = h v refl

pub fresh-types :
    (snapshot : XdsSnapshot) (s : Stream)
    → s.stream_closed ≡ false
    → AllSent (λ v. (v == snapshot.version) ≡ false) s
    → map (λ r. r.type_url) (on_snapshot snapshot s).1
      ≡ filter (includes s.subscribed_types) (cluster_type_url ∷ listener_type_url ∷ [])
unfolding on_snapshot send_subscribed send_snapshot_for_types send_type
fresh-types snapshot s o a =
    let no_cluster =
      fresh_version (s.sent_versions cluster_type_url) snapshot.version (a cluster_type_url) in
    let no_listener =
      fresh_version (s.sent_versions listener_type_url) snapshot.version (a listener_type_url) in
    elim (Bool-cases (includes s.subscribed_types cluster_type_url)) [
      | inl c ↦ elim (Bool-cases (includes s.subscribed_types listener_type_url)) [
        | inl l ↦ ground (arith, o, no_cluster, no_listener, c, l)
        | inr l ↦ ground (arith, o, no_cluster, no_listener, c, l)
      ]
      | inr c ↦ elim (Bool-cases (includes s.subscribed_types listener_type_url)) [
        | inl l ↦ ground (arith, o, no_cluster, no_listener, c, l)
        | inr l ↦ ground (arith, o, no_cluster, no_listener, c, l)
      ]
    ]
