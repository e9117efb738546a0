-- ===== src/Envoy/VersionTests.antt =====
-- A client that asks for clusters and listeners before the first snapshot. Versions are written as
-- strokes here.
use Prim.Native.String.{◌++◌ as str_append, count}
use catalyst_router.Prelude.{
  ℕ, zero, suc, String, ◌≡◌, refl, sym, ap, ◌∙◌, [], ◌∷◌, none, some, map, filter, includes,
  string_key, arith,
}
use text.Mathlib.TextLemmas.{length-append}
use catalyst_router.Envoy.Resources.{parse_endpoint_url}
use catalyst_router.Envoy.Snapshot.{
  XdsSnapshot, build_xds_snapshot, add_local, add_locals, add_internals,
}
use catalyst_router.Envoy.Server.{input_of}
use catalyst_router.Envoy.Stream.{cluster_type_url, listener_type_url, on_snapshot}
use catalyst_router.Envoy.Session.{
  Session, connect, update, receive, Reaches, here, after, type_subscribed,
}
use catalyst_router.Envoy.Versions.{update-responds}
use catalyst_router.Envoy.Tests.{toy}
use catalyst_router.Envoy.SessionTests.{server, clusters_wanted, served_books, snapshot_of}

abbrev strokes : ℕ → String
strokes zero = ""
strokes (suc n) = str_append "1" (strokes n)

count-strokes : (n : ℕ) → count (strokes n) ≡ n
count-strokes zero = refl
count-strokes (suc n) = length-append "1" (strokes n) ∙ omega (arith, count-strokes n)

strokes-unlike : (m n : ℕ) → strokes m ≡ strokes n → m ≡ n
strokes-unlike m n h = sym (count-strokes m) ∙ ap count h ∙ count-strokes n

abbrev asking : Session
asking =
    receive toy strokes 7 clusters_wanted
      (connect toy strokes 7 server (record { current = none; watchers = [] }) "envoy" [])

asking-reached :
    Reaches toy strokes 7
      (connect toy strokes 7 server (record { current = none; watchers = [] }) "envoy" [])
      asking
asking-reached = after here (type_subscribed _ clusters_wanted refl)

abbrev first_snapshot : XdsSnapshot
first_snapshot =
    snapshot_of (build_xds_snapshot toy (input_of toy strokes served_books asking.server))

first_snapshot-built :
    build_xds_snapshot toy (input_of toy strokes served_books asking.server) ≡ some first_snapshot
unfolding build_xds_snapshot add_locals add_local add_internals parse_endpoint_url
first_snapshot-built = refl

update-responds_example :
    ((update toy strokes 7 (some served_books) asking).stream
      ≡ (on_snapshot first_snapshot asking.stream).0)
    × (map (λ r. r.type_url) (on_snapshot first_snapshot asking.stream).1
        ≡ filter
            (includes asking.stream.subscribed_types)
            (cluster_type_url ∷ listener_type_url ∷ []))
update-responds_example =
    update-responds toy strokes 7 server [] "envoy" [] asking served_books first_snapshot
      strokes-unlike asking-reached first_snapshot-built
