-- ===== src/Envoy/Versions.antt =====
-- The versions that a stream has seen are numbers that the server of
-- apps/envoy/src/rpc/server.ts has counted already.
use catalyst_router.Prelude.{
  ℕ, String, Bool, true, false, ◌≡◌, ◌≤◌, sym, ap, subst, ◌∙◌, ◌+◌, List, [], ◌∷◌, map, filter,
  find, Option, none, some, arith, includes, if◌then◌else◌, ◌==◌, string_key, nat_key, inl, inr,
  Bool-cases, Option-cases, ==_eq,
}
use catalyst_router.Envoy.Resources.{Platform}
use catalyst_router.Envoy.Snapshot.{XdsSnapshot, build_xds_snapshot}
use catalyst_router.Envoy.Cache.{SnapshotCache, set_snapshot}
use catalyst_router.Envoy.Server.{
  RouteConfig, EnvoyRpcServer, input_of, landed, publish, publish_if, update_routes,
}
use catalyst_router.Envoy.Stream.{
  Stream, DiscoveryRequest, send_subscribed, on_snapshot, on_request, subscribe, is_initial,
  is_nack, count_nack, cluster_type_url, listener_type_url,
}
use catalyst_router.Envoy.Delivery.{subscribe-sent_versions}
use catalyst_router.Envoy.Feeding.{send_subscribed-latest, subscribe-latest}
use catalyst_router.Envoy.Freshness.{
  AllSent, send_subscribed-AllSent, build_xds_snapshot-version, fresh-types, some-eq,
}
use catalyst_router.Envoy.Session.{
  Session, fed, arrive, update, connect, Step, Reaches, here, after, routes_updated,
  type_subscribed, request_answered, find-calls, Reaches-IsLive, connect-IsLive,
}

-- All versions that the stream has noted or holds satisfy `P`.
record Knows (P : String → Type 0) (s : Stream) : Type 0 where
  noted : AllSent P s
  latest : (snapshot : XdsSnapshot) → s.latest_snapshot ≡ some snapshot → P snapshot.version

module _ (P : String → Type 0) where
  sent-Knows : (s : Stream) → Knows P s → Knows P (send_subscribed s).0
  sent-Knows s k = record {
    noted = send_subscribed-AllSent P s k.latest k.noted;
    latest = λ snapshot h. k.latest snapshot (sym (send_subscribed-latest s) ∙ h);
  }

  snapshot-Knows :
      (snapshot : XdsSnapshot) (s : Stream)
      → P snapshot.version
      → Knows P s
      → Knows P (on_snapshot snapshot s).0
  unfolding on_snapshot
  snapshot-Knows snapshot s p k =
      sent-Knows (record s { latest_snapshot = some snapshot })
        (record {
          noted = k.noted;
          latest = λ other h. subst (λ (x : XdsSnapshot). P x.version) (some-eq h) p;
        })

  subscribe-Knows : (t : String) (s : Stream) → Knows P s → Knows P (subscribe t s)
  subscribe-Knows t s k = record {
    noted = λ u v h. k.noted u v (sym (ap (λ f. f u) (subscribe-sent_versions t s)) ∙ h);
    latest = λ snapshot h. k.latest snapshot (sym (subscribe-latest t s) ∙ h);
  }

  answer-Knows :
      (initial nacked : Bool) (s : Stream)
      → Knows P s
      → Knows P
          (if initial then send_subscribed s else ((if nacked then count_nack s else s), [])).0
  answer-Knows true nacked s k = sent-Knows s k
  answer-Knows false true s k = record { noted = k.noted; latest = k.latest }
  answer-Knows false false s k = k

  request-Knows : (r : DiscoveryRequest) (s : Stream) → Knows P s → Knows P (on_request r s).0
  unfolding on_request
  request-Knows r s k =
      answer-Knows (is_initial r) (is_nack r.error_code) (subscribe r.type_url s)
        (subscribe-Knows r.type_url s k)

  calls-Knows :
      (me : ℕ) (ws : List ℕ) (snapshot : XdsSnapshot) (s : Stream)
      → P snapshot.version
      → Knows P s
      → Knows P
          (fed (find (λ (call : ℕ × XdsSnapshot). call.0 == me) (map (λ w. (w, snapshot)) ws)) s)
  calls-Knows me [] snapshot s p k = k
  calls-Knows me (w ∷ ws) snapshot s p k = elim (Bool-cases (w == me)) [
    | inl e ↦ simp e (snapshot-Knows snapshot s p k)
    | inr e ↦ simp e (calls-Knows me ws snapshot s p k)
  ]

module _ (env : Platform) (show : ℕ → String) (me : ℕ) where
  -- A number up to `n`, as text.
  abbrev pub Counted : ℕ → String → Type 0
  Counted n v = (k : ℕ) × (v ≡ show k) × (k ≤ n)

  abbrev IsCounted : Session → Type 0
  IsCounted x = Knows (Counted x.server.version_counter) x.stream

  later-Knows : (n : ℕ) (s : Stream) → Knows (Counted n) s → Knows (Counted (n + 1)) s
  later-Knows n s k = record {
    noted = λ t v h. later v (k.noted t v h);
    latest = λ snapshot h. later snapshot.version (k.latest snapshot h);
  }
    where
      later : (v : String) → Counted n v → Counted (n + 1) v
      later v (j, e, l) = (j, e, omega (arith, l))

  publish-IsCounted :
      (config : RouteConfig) (cache : SnapshotCache ℕ) (x : Session)
      → IsCounted x
      → IsCounted (arrive env show me (publish env show config cache x.server) x.stream)
  unfolding set_snapshot
  publish-IsCounted config cache x k =
      elim (Option-cases (build_xds_snapshot env (input_of env show config x.server))) [
        | inl e ↦ rw (e, publish) (later-Knows x.server.version_counter x.stream k)
        | inr (snapshot, e) ↦
            rw (e, publish)
              (calls-Knows (Counted (x.server.version_counter + 1)) me cache.watchers snapshot
                x.stream
                (
                  x.server.version_counter + 1,
                  build_xds_snapshot-version env (input_of env show config x.server) snapshot e,
                  omega arith,
                )
                (later-Knows x.server.version_counter x.stream k))
      ]

  publish_if-IsCounted :
      (config : RouteConfig) (cache : Option (SnapshotCache ℕ)) (x : Session)
      → IsCounted x
      → IsCounted (arrive env show me (publish_if env show config cache x.server) x.stream)
  publish_if-IsCounted config none x k = k
  publish_if-IsCounted config (some cache) x k = publish-IsCounted config cache x k

  update-IsCounted :
      (config : Option RouteConfig) (x : Session)
      → IsCounted x
      → IsCounted (update env show me config x)
  unfolding update_routes
  update-IsCounted none x k = k
  update-IsCounted (some config) x k = publish_if-IsCounted config x.server.snapshot_cache x k

  Step-IsCounted : {x y : Session} → Step env show me x y → IsCounted x → IsCounted y
  Step-IsCounted (routes_updated x config) k = update-IsCounted config x k
  Step-IsCounted (type_subscribed x r i) k = request-Knows _ r x.stream k
  Step-IsCounted (request_answered x r h) k = request-Knows _ r x.stream k

  Reaches-IsCounted : {x y : Session} → Reaches env show me x y → IsCounted x → IsCounted y
  Reaches-IsCounted here k = k
  Reaches-IsCounted (after r s) k = Step-IsCounted s (Reaches-IsCounted r k)

  update-stream :
      (x : Session) (config : RouteConfig) (cache : SnapshotCache ℕ) (snapshot : XdsSnapshot)
      → x.server.snapshot_cache ≡ some cache
      → includes cache.watchers me ≡ true
      → build_xds_snapshot env (input_of env show config x.server) ≡ some snapshot
      → (update env show me (some config) x).stream ≡ (on_snapshot snapshot x.stream).0
  unfolding update_routes set_snapshot
  update-stream x config cache snapshot cached watching built =
      ap (λ o. (arrive env show me (publish_if env show config o x.server) x.stream).stream) cached
      ∙ ap
          (λ (o : Option XdsSnapshot).
            (arrive env show me (landed env show config cache x.server o) x.stream).stream)
          built
      ∙ find-calls env show me cache.watchers snapshot x.stream watching

-- A new stream on a server's cache that has no snapshot yet, and any order of updates of the routes
-- and of requests, each of them an initial one or for a type that is subscribed. If no two numbers
-- are written alike, then an update whose snapshot is built does to the stream what the snapshot
-- does, and that sends one response for each of clusters and listeners that is subscribed, in this
-- order, even if nothing else than the version has changed.
pub update-responds :
    (env : Platform) (show : ℕ → String) (me : ℕ) (server : EnvoyRpcServer ℕ) (watchers : List ℕ)
    (client : String) (nacks : List (String × ℕ)) (x : Session) (config : RouteConfig)
    (snapshot : XdsSnapshot)
    → ((m n : ℕ) → show m ≡ show n → m ≡ n)
    → Reaches env show me
        (connect env show me server (record { current = none; watchers = watchers }) client nacks)
        x
    → build_xds_snapshot env (input_of env show config x.server) ≡ some snapshot
    → ((update env show me (some config) x).stream ≡ (on_snapshot snapshot x.stream).0)
      × (map (λ r. r.type_url) (on_snapshot snapshot x.stream).1
          ≡ filter (includes x.stream.subscribed_types) (cluster_type_url ∷ listener_type_url ∷ []))
update-responds env show me server watchers client nacks x config snapshot unlike r built =
    let cache : SnapshotCache ℕ = record { current = none; watchers = watchers } in
    let l = Reaches-IsLive env show me r (connect-IsLive env show me server cache client nacks) in
    let k = Reaches-IsCounted env show me r (record {
      noted = λ t v h. absurd (none-text h);
      latest = λ s h. absurd (none-snapshot h);
    }) in
    (
      update-stream env show me x config l.cache snapshot l.cached l.watching built,
      fresh-types snapshot x.stream l.stream_fed.0 (λ t v h. new_version v (k.noted t v h)),
    )
  where
    none-text : {v : String} → none ≡ some v → ⊥
    none-text e = cc

    none-snapshot : {s : XdsSnapshot} → none ≡ some s → ⊥
    none-snapshot e = cc

    new_version :
        (v : String)
        → Counted env show me x.server.version_counter v
        → (v == snapshot.version) ≡ false
    new_version v (j, e, le) = elim (Bool-cases (v == snapshot.version)) [
      | inl same ↦
          let number = unlike j (x.server.version_counter + 1) (
            sym e
            ∙ ==_eq v snapshot.version same
            ∙ build_xds_snapshot-version env (input_of env show config x.server) snapshot built) in
          absurd (omega (arith, number, le))
      | inr new ↦ new
    ]
