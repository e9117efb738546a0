-- ===== src/Envoy/Session.antt =====
-- The server of routes (apps/envoy/src/rpc/server.ts) and one discovery stream
-- (apps/envoy/src/xds/control-plane.ts) on the cache that they share.
use catalyst_router.Prelude.{
  ℕ, String, true, ◌≡◌, refl, sym, ap, ◌∙◌, List, [], ◌∷◌, ◌++◌, map, Option, none, some, arith,
  includes, find, subst, ◌==◌, string_key, nat_key, inl, inr, Bool-cases, Option-cases,
}
use catalyst_router.Envoy.Resources.{Platform}
use catalyst_router.Envoy.Snapshot.{XdsSnapshot, build_xds_snapshot}
use catalyst_router.Envoy.Cache.{SnapshotCache, watch, set_snapshot, includes-push}
use catalyst_router.Envoy.Server.{
  RouteConfig, EnvoyRpcServer, input_of, publish, publish_if, update_routes, Updated,
}
use catalyst_router.Envoy.Stream.{
  Stream, DiscoveryRequest, DiscoveryResponse, on_snapshot, on_request, is_initial, new_stream,
}
use catalyst_router.Envoy.Currency.{Served}
use catalyst_router.Envoy.Responses.{
  last_version, last_version-append, Notes, on_snapshot-Notes, on_request-Notes,
}
use catalyst_router.Envoy.Feeding.{IsFed, send_subscribed-IsFed, initial-IsFed, known-IsFed}

pub record Session : Type 0 where
  pub server : EnvoyRpcServer ℕ
  pub stream : Stream

-- The call of the stream's watcher, if there is one.
abbrev pub fed : Option (ℕ × XdsSnapshot) → Stream → Stream
fed none s = s
fed (some call) s = (on_snapshot call.1 s).0

abbrev pub fed_responses : Option (ℕ × XdsSnapshot) → Stream → List DiscoveryResponse
fed_responses none s = []
fed_responses (some call) s = (on_snapshot call.1 s).1

fed-Notes :
    (t : String) (call : Option (ℕ × XdsSnapshot)) (s : Stream)
    → Notes t s (fed call s, fed_responses call s)
fed-Notes t none s = refl
fed-Notes t (some call) s = on_snapshot-Notes t call.1 s

-- `me` is the stream's watcher.
module _ (env : Platform) (show : ℕ → String) (me : ℕ) where
  abbrev pub arrive : Updated ℕ → Stream → Session
  arrive done s = record { server = done.0; stream = fed (find (λ call. call.0 == me) done.2) s }

  abbrev pub update : Option RouteConfig → Session → Session
  update config x = arrive (update_routes env show config x.server) x.stream

  abbrev pub receive : DiscoveryRequest → Session → Session
  receive r x = record x { stream = (on_request r x.stream).0 }

  -- A new stream on a cache.
  abbrev pub connect : EnvoyRpcServer ℕ → SnapshotCache ℕ → String → List (String × ℕ) → Session
  connect server cache client nacks = record {
    server = record server { snapshot_cache = some (watch cache me) };
    stream = new_stream client cache.current nacks;
  }

  -- The routes are updated, or a request comes: the first for its type with an empty version and
  -- an empty nonce, the others for types that are subscribed.
  pub data Step : Session → Session → Type 0 where
    routes_updated : (x : Session) (config : Option RouteConfig) → Step x (update config x)
    type_subscribed :
        (x : Session) (r : DiscoveryRequest) → is_initial r ≡ true → Step x (receive r x)
    request_answered :
        (x : Session) (r : DiscoveryRequest)
        → includes x.stream.subscribed_types r.type_url ≡ true
        → Step x (receive r x)

  pub data Reaches (x : Session) : Session → Type 0 where
    here : Reaches x x
    after : {y z : Session} → Reaches x y → Step y z → Reaches x z

  -- The responses that a step writes to the client, and those of a run, in their order.
  abbrev pub step_responses : {x y : Session} → Step x y → List DiscoveryResponse
  step_responses (routes_updated x config) =
      fed_responses (find (λ call. call.0 == me) (update_routes env show config x.server).2)
        x.stream
  step_responses (type_subscribed x r i) = (on_request r x.stream).1
  step_responses (request_answered x r h) = (on_request r x.stream).1

  abbrev pub responses : {x y : Session} → Reaches x y → List DiscoveryResponse
  responses here = []
  responses (after r step) = responses r ++ step_responses step

  step-Notes :
      (t : String) {x y : Session} (step : Step x y)
      → y.stream.sent_versions t ≡ last_version t (x.stream.sent_versions t) (step_responses step)
  step-Notes t (routes_updated x config) =
      fed-Notes t (find (λ call. call.0 == me) (update_routes env show config x.server).2) x.stream
  step-Notes t (type_subscribed x r i) = on_request-Notes t r x.stream
  step-Notes t (request_answered x r h) = on_request-Notes t r x.stream

  pub responses-noted :
      (t : String) {x y : Session} (r : Reaches x y)
      → y.stream.sent_versions t ≡ last_version t (x.stream.sent_versions t) (responses r)
  responses-noted t here = refl
  responses-noted t {x} (after r step) =
      step-Notes t step
      ∙ ap (λ before. last_version t before (step_responses step)) (responses-noted t r)
      ∙ sym (last_version-append t (x.stream.sent_versions t) (responses r) (step_responses step))

  pub find-calls :
      (ws : List ℕ) (snapshot : XdsSnapshot) (s : Stream)
      → includes ws me ≡ true
      → fed (find (λ (call : ℕ × XdsSnapshot). call.0 == me) (map (λ w. (w, snapshot)) ws)) s
        ≡ (on_snapshot snapshot s).0
  find-calls [] snapshot s h = ground (arith, h)
  find-calls (w ∷ ws) snapshot s h = elim (Bool-cases (w == me)) [
    | inl e ↦ simp e refl
    | inr e ↦ ground (arith, e, h, find-calls ws snapshot s)
  ]

  -- The server's cache has the stream as a watcher, and the stream is up to date with it.
  pub record IsLive (x : Session) : Type 0 where
    pub cache : SnapshotCache ℕ
    pub cached : x.server.snapshot_cache ≡ some cache
    pub watching : includes cache.watchers me ≡ true
    pub stream_fed : IsFed x.stream cache.current

  publish-IsLive :
      (config : RouteConfig) (cache : SnapshotCache ℕ) (x : Session)
      → x.server.snapshot_cache ≡ some cache
      → includes cache.watchers me ≡ true
      → IsFed x.stream cache.current
      → IsLive (arrive (publish env show config cache x.server) x.stream)
  unfolding set_snapshot on_snapshot
  publish-IsLive config cache x cached watching f =
      elim (Option-cases (build_xds_snapshot env (input_of env show config x.server))) [
        | inl e ↦
            rw (e, publish)
              (record { cache = cache; cached = cached; watching = watching; stream_fed = f })
        | inr (snapshot, e) ↦
            rw (e, publish)
              (record {
                cache = record { current = some snapshot; watchers = cache.watchers };
                cached = refl;
                watching = watching;
                stream_fed =
                    subst (λ s. IsFed s (some snapshot))
                      (sym (find-calls cache.watchers snapshot x.stream watching))
                      (send_subscribed-IsFed (record x.stream { latest_snapshot = some snapshot })
                        f.0);
              })
      ]

  update-IsLive : (config : Option RouteConfig) (x : Session) → IsLive x → IsLive (update config x)
  unfolding update_routes
  update-IsLive none x l = l
  update-IsLive (some config) x l =
      subst (λ o. IsLive (arrive (publish_if env show config o x.server) x.stream)) (sym l.cached)
        (publish-IsLive config l.cache x l.cached l.watching l.stream_fed)

  Step-IsLive : {x y : Session} → Step x y → IsLive x → IsLive y
  Step-IsLive (routes_updated x config) l = update-IsLive config x l
  Step-IsLive (type_subscribed x r i) l = record {
    cache = l.cache;
    cached = l.cached;
    watching = l.watching;
    stream_fed = initial-IsFed r x.stream l.cache.current i l.stream_fed;
  }
  Step-IsLive (request_answered x r h) l = record {
    cache = l.cache;
    cached = l.cached;
    watching = l.watching;
    stream_fed = known-IsFed r x.stream l.cache.current h l.stream_fed;
  }

  pub Reaches-IsLive : {x y : Session} → Reaches x y → IsLive x → IsLive y
  Reaches-IsLive here l = l
  Reaches-IsLive (after r s) l = Step-IsLive s (Reaches-IsLive r l)

  watches : (cache : SnapshotCache ℕ) → includes (watch cache me).watchers me ≡ true
  watches cache = elim (Bool-cases (includes cache.watchers me)) [
    | inl h ↦ ground (arith, h)
    | inr h ↦ ground (arith, h, includes-push cache.watchers me me)
  ]

  pub connect-IsLive :
      (server : EnvoyRpcServer ℕ) (cache : SnapshotCache ℕ) (client : String)
      (nacks : List (String × ℕ))
      → IsLive (connect server cache client nacks)
  connect-IsLive server cache client nacks = record {
    cache = watch cache me;
    cached = refl;
    watching = watches cache;
    stream_fed = (refl, refl, λ t snapshot served h. ground (arith, h));
  }

-- A new stream on a server's cache, and any order of updates of the routes, malformed and failing
-- ones among them, and of requests, each of them an initial one or for a type that is subscribed.
-- Afterwards, for clusters and for listeners, where the client has subscribed to them, responses for
-- them have been written to it, and the last of these has the version of the snapshot in the cache.
pub connect-delivers :
    (env : Platform) (show : ℕ → String) (me : ℕ) (server : EnvoyRpcServer ℕ)
    (cache : SnapshotCache ℕ) (client : String) (nacks : List (String × ℕ)) (x : Session)
    (r : Reaches env show me (connect env show me server cache client nacks) x)
    (now : SnapshotCache ℕ) (snapshot : XdsSnapshot) (t : String)
    → x.server.snapshot_cache ≡ some now
    → now.current ≡ some snapshot
    → Served t
    → includes x.stream.subscribed_types t ≡ true
    → last_version t none (responses env show me r) ≡ some snapshot.version
connect-delivers env show me server cache client nacks x r now snapshot t cached current served
      subscribed =
    let l = Reaches-IsLive env show me r (connect-IsLive env show me server cache client nacks) in
    sym (responses-noted env show me t r)
    ∙ l.stream_fed.2 t snapshot served subscribed
        (l.stream_fed.1 ∙ ap (λ c. c.current) (same (sym l.cached ∙ cached)) ∙ current)
  where
    same : {a b : SnapshotCache ℕ} → some a ≡ some b → a ≡ b
    same h = cc
