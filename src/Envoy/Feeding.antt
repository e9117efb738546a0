-- ===== src/Envoy/Feeding.antt =====
-- A stream of apps/envoy/src/xds/control-plane.ts that is up to date with its cache, and what keeps it
-- so.
use catalyst_router.Prelude.{
  String, Bool, true, false, ◌≡◌, refl, sym, ap, ◌∙◌, List, [], map, Option, none, some, arith,
  includes, subst, if◌then◌else◌, ◌==◌, string_key, nat_key, inl, inr, Bool-cases,
}
use catalyst_router.Envoy.Snapshot.{XdsSnapshot}
use catalyst_router.Envoy.Stream.{
  Stream, DiscoveryRequest, Resource, needs, send_type, send_snapshot_for_types, send_subscribed,
  send_latest, on_request, subscribe, is_initial, is_nack, count_nack, cluster_type_url,
  listener_type_url, cluster_resource, encode_listener,
}
use catalyst_router.Envoy.Currency.{Served, snapshot-current, after_clusters}

-- What a send leaves alone.
record Keeps (a b : Stream) : Type 0 where
  types_kept : b.subscribed_types ≡ a.subscribed_types
  latest_kept : b.latest_snapshot ≡ a.latest_snapshot
  closed_kept : b.stream_closed ≡ a.stream_closed

send_type-Keeps :
    (t version : String) (rs : List Resource) (s : Stream) → Keeps s (send_type t version rs s).0
unfolding send_type
send_type-Keeps t version rs s = elim (Bool-cases (needs s t version)) [
  | inl due ↦
      rw (due, send_type) (record { types_kept = refl; latest_kept = refl; closed_kept = refl })
  | inr idle ↦
      rw (idle, send_type) (record { types_kept = refl; latest_kept = refl; closed_kept = refl })
]

snapshot-Keeps :
    (snapshot : XdsSnapshot) (s : Stream) → Keeps s (send_snapshot_for_types snapshot s).0
unfolding send_snapshot_for_types
snapshot-Keeps snapshot s =
    let clusters = map cluster_resource snapshot.clusters in
    let listeners = map encode_listener snapshot.listeners in
    let f = send_type-Keeps cluster_type_url snapshot.version clusters s in
    let g =
      send_type-Keeps listener_type_url snapshot.version listeners (after_clusters snapshot s) in
    record {
      types_kept = g.types_kept ∙ f.types_kept;
      latest_kept = g.latest_kept ∙ f.latest_kept;
      closed_kept = g.closed_kept ∙ f.closed_kept;
    }

gated-latest :
    (closed : Bool) (latest : Option XdsSnapshot) (s : Stream)
    → (if closed then (s, []) else send_latest latest s).0.latest_snapshot ≡ s.latest_snapshot
gated-latest true latest s = refl
gated-latest false none s = refl
gated-latest false (some snapshot) s = (snapshot-Keeps snapshot s).latest_kept

pub send_subscribed-latest :
    (s : Stream) → (send_subscribed s).0.latest_snapshot ≡ s.latest_snapshot
unfolding send_subscribed
send_subscribed-latest s = gated-latest s.stream_closed s.latest_snapshot s

-- Of each kind that is subscribed, the client has been sent the latest snapshot's version last.
abbrev pub IsSynced : Stream → Type 0
IsSynced s =
    (t : String) (snapshot : XdsSnapshot)
    → Served t
    → includes s.subscribed_types t ≡ true
    → s.latest_snapshot ≡ some snapshot
    → s.sent_versions t ≡ some snapshot.version

-- An open stream that is up to date with the cache, of which it is a watcher.
abbrev pub IsFed : Stream → Option XdsSnapshot → Type 0
IsFed s current = (s.stream_closed ≡ false) × (s.latest_snapshot ≡ current) × IsSynced s

pub some-snapshot : {a b : XdsSnapshot} → some a ≡ some b → b ≡ a
some-snapshot h = cc

sent-IsFed :
    (snapshot : XdsSnapshot) (s : Stream)
    → s.stream_closed ≡ false
    → s.latest_snapshot ≡ some snapshot
    → IsFed (send_snapshot_for_types snapshot s).0 (some snapshot)
sent-IsFed snapshot s o l =
    let k = snapshot-Keeps snapshot s in
    (
      k.closed_kept ∙ o,
      k.latest_kept ∙ l,
      λ t other served subscribed latest.
          snapshot-current snapshot s t served
            (ap (λ types. includes types t) (sym k.types_kept) ∙ subscribed)
          ∙ ap (λ x. some x.version) (sym (some-snapshot (sym l ∙ sym k.latest_kept ∙ latest))),
    )

gated-IsFed :
    (closed : Bool) (latest : Option XdsSnapshot) (s : Stream)
    → closed ≡ false
    → s.stream_closed ≡ false
    → s.latest_snapshot ≡ latest
    → IsFed (if closed then (s, []) else send_latest latest s).0 latest
gated-IsFed true latest s c o l = ground (arith, c)
gated-IsFed false none s c o l =
    (o, l, λ t other served subscribed now. absurd (none-some (sym l ∙ now)))
  where
    none-some : {x : XdsSnapshot} → none ≡ some x → ⊥
    none-some e = cc
gated-IsFed false (some snapshot) s c o l = sent-IsFed snapshot s o l

pub send_subscribed-IsFed :
    (s : Stream) → s.stream_closed ≡ false → IsFed (send_subscribed s).0 s.latest_snapshot
unfolding send_subscribed
send_subscribed-IsFed s o = gated-IsFed s.stream_closed s.latest_snapshot s o o refl

subscribe_known :
    (t : String) (s : Stream) → includes s.subscribed_types t ≡ true → subscribe t s ≡ s
subscribe_known t s h = elim (Bool-cases (t == "")) [
  | inl e ↦ simp e refl
  | inr e ↦ simp (e, h) refl
]

subscribe-open : (t : String) (s : Stream) → (subscribe t s).stream_closed ≡ s.stream_closed
subscribe-open t s = elim (Bool-cases (t == "")) [ inl e ↦ simp e refl | inr e ↦ simp e refl ]

pub subscribe-latest :
    (t : String) (s : Stream) → (subscribe t s).latest_snapshot ≡ s.latest_snapshot
subscribe-latest t s = elim (Bool-cases (t == "")) [ inl e ↦ simp e refl | inr e ↦ simp e refl ]

pub initial-IsFed :
    (r : DiscoveryRequest) (s : Stream) (current : Option XdsSnapshot)
    → is_initial r ≡ true
    → IsFed s current
    → IsFed (on_request r s).0 current
unfolding on_request
initial-IsFed r s current i f =
    let known = subscribe r.type_url s in
    rw i (
      subst (λ c. IsFed (send_subscribed known).0 c) (subscribe-latest r.type_url s ∙ f.1)
        (send_subscribed-IsFed known (subscribe-open r.type_url s ∙ f.0)))

noted-IsFed :
    (nacked : Bool) (s : Stream) (current : Option XdsSnapshot)
    → IsFed s current
    → IsFed (if nacked then count_nack s else s) current
noted-IsFed true s current f = f
noted-IsFed false s current f = f

pub known-IsFed :
    (r : DiscoveryRequest) (s : Stream) (current : Option XdsSnapshot)
    → includes s.subscribed_types r.type_url ≡ true
    → IsFed s current
    → IsFed (on_request r s).0 current
unfolding on_request
known-IsFed r s current h f = elim (Bool-cases (is_initial r)) [
  | inl i ↦ initial-IsFed r s current i f
  | inr answer ↦ rw answer (
      noted-IsFed (is_nack r.error_code) (subscribe r.type_url s) current
        (subst (λ k. IsFed k current) (sym (subscribe_known r.type_url s h)) f))
]
