-- ===== src/Envoy/Responses.antt =====
-- The versions that a stream of apps/envoy/src/xds/control-plane.ts notes are those of the responses that
-- it has written.
use catalyst_router.Prelude.{
  String, Bool, true, false, ◌≡◌, refl, sym, ap, ◌∙◌, List, [], ◌∷◌, ◌++◌, map, Option, none, some,
  if◌then◌else◌, ◌==◌, string_key, inl, inr, Bool-cases,
}
use catalyst_router.Envoy.Snapshot.{XdsSnapshot}
use catalyst_router.Envoy.Stream.{
  Stream, Sent, DiscoveryRequest, DiscoveryResponse, Resource, needs, send_type,
  send_snapshot_for_types, send_latest, send_subscribed, on_snapshot, on_request, subscribe,
  is_initial, is_nack, count_nack, cluster_type_url, listener_type_url, cluster_resource,
  encode_listener,
}
use catalyst_router.Envoy.Delivery.{subscribe-sent_versions}

-- The version of the last response for a type, or what was known before.
abbrev pub last_version : String → Option String → List DiscoveryResponse → Option String
last_version t before [] = before
last_version t before (r ∷ rs) =
    last_version t (if t == r.type_url then some r.version_info else before) rs

pub last_version-append :
    (t : String) (before : Option String) (xs ys : List DiscoveryResponse)
    → last_version t before (xs ++ ys) ≡ last_version t (last_version t before xs) ys
last_version-append t before [] ys = refl
last_version-append t before (x ∷ xs) ys =
    last_version-append t (if t == x.type_url then some x.version_info else before) xs ys

-- What a send notes of a type is what it has written for it last.
abbrev pub Notes : String → Stream → Sent → Type 0
Notes t s out = out.0.sent_versions t ≡ last_version t (s.sent_versions t) out.1

send_type-Notes :
    (t u version : String) (rs : List Resource) (s : Stream) → Notes t s (send_type u version rs s)
unfolding send_type
send_type-Notes t u version rs s = elim (Bool-cases (needs s u version)) [
  | inl due ↦ simp due refl
  | inr idle ↦ simp idle refl
]

snapshot-Notes :
    (t : String) (snapshot : XdsSnapshot) (s : Stream)
    → Notes t s (send_snapshot_for_types snapshot s)
unfolding send_snapshot_for_types
snapshot-Notes t snapshot s =
    let clusters = map cluster_resource snapshot.clusters in
    let listeners = map encode_listener snapshot.listeners in
    let cds = send_type cluster_type_url snapshot.version clusters s in
    let lds = send_type listener_type_url snapshot.version listeners cds.0 in
    send_type-Notes t listener_type_url snapshot.version listeners cds.0
    ∙ ap (λ before. last_version t before lds.1)
        (send_type-Notes t cluster_type_url snapshot.version clusters s)
    ∙ sym (last_version-append t (s.sent_versions t) cds.1 lds.1)

gated-Notes :
    (t : String) (closed : Bool) (latest : Option XdsSnapshot) (s : Stream)
    → Notes t s (if closed then (s, []) else send_latest latest s)
gated-Notes t true latest s = refl
gated-Notes t false none s = refl
gated-Notes t false (some snapshot) s = snapshot-Notes t snapshot s

send_subscribed-Notes : (t : String) (s : Stream) → Notes t s (send_subscribed s)
unfolding send_subscribed
send_subscribed-Notes t s = gated-Notes t s.stream_closed s.latest_snapshot s

pub on_snapshot-Notes :
    (t : String) (snapshot : XdsSnapshot) (s : Stream) → Notes t s (on_snapshot snapshot s)
unfolding on_snapshot
on_snapshot-Notes t snapshot s =
    send_subscribed-Notes t (record s { latest_snapshot = some snapshot })

answer-Notes :
    (t : String) (initial nacked : Bool) (s : Stream)
    → Notes t s (if initial then send_subscribed s else ((if nacked then count_nack s else s), []))
answer-Notes t true nacked s = send_subscribed-Notes t s
answer-Notes t false true s = refl
answer-Notes t false false s = refl

pub on_request-Notes : (t : String) (r : DiscoveryRequest) (s : Stream) → Notes t s (on_request r s)
unfolding on_request
on_request-Notes t r s =
    let known = subscribe r.type_url s in
    answer-Notes t (is_initial r) (is_nack r.error_code) known
    ∙ ap (λ f. last_version t (f t) (on_request r s).1) (subscribe-sent_versions r.type_url s)
