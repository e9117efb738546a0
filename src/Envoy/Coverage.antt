-- ===== src/Envoy/Coverage.antt =====
-- What a snapshot holds: one listener and one cluster for each route that can be served.
use catalyst_router.Prelude.{
  ℕ, String, Bool, true, not, ◌&&◌, ◌≡◌, refl, sym, ap, subst, ◌∙◌, List, [], ◌∷◌, ◌++◌, map,
  append_assoc, append-nil, map-append, none, some, is_some, Option-cases, Bool-cases, inl, inr,
  filter, any, arith,
}
use catalyst_router.Table.{DataChannel, InternalRoute}
use catalyst_router.Ports.{map_get}
use catalyst_router.Envoy.Resources.{
  Platform, Listener, XdsCluster, is_tcp_protocol, parse_endpoint_url, build_local_cluster,
  build_remote_cluster,
}
use catalyst_router.Envoy.Snapshot.{
  SnapshotInput, XdsSnapshot, push, local_listener, internal_listener, Resources, given_port,
  given_text, add_local, add_internal, add_locals, add_internals, build_xds_snapshot,
}
use catalyst_router.Envoy.Rows.{
  row, Row, targets, serves_local, serves_internal, egress_port, local_row, internal_row, expected,
}

map-map :
    {A B C : Type 0} (f : A → B) (g : B → C) (xs : List A)
    → map g (map f xs) ≡ map (λ x. g (f x)) xs
map-map f g [] = refl
map-map f g (x ∷ xs) = ap (λ ys. g (f x) ∷ ys) (map-map f g xs)

module _ (env : Platform) (input : SnapshotInput) where
  -- The rows of what is pushed, and the clusters' names.
  abbrev pushed_rows : Resources → List Row
  pushed_rows done = map row done.pushed_listeners

  abbrev named_clusters : List XdsCluster → List (List String)
  named_clusters cs = map (λ c. c.name ∷ []) cs

  abbrev Pushes : Resources → Resources → List Row → Type 0
  Pushes done next rows =
      (pushed_rows next ≡ pushed_rows done ++ rows)
      × (named_clusters next.pushed_clusters
          ≡ named_clusters done.pushed_clusters ++ map (λ x. x.row_targets) rows)

  push-Pushes :
      (done : Resources) (l : Listener) (c : XdsCluster) (x : Row)
      → row l ≡ x
      → c.name ∷ [] ≡ x.row_targets
      → Pushes done (push done l c) (x ∷ [])
  push-Pushes done l c x h k = (
    map-append row done.pushed_listeners (l ∷ []) ∙ ap (λ y. pushed_rows done ++ y ∷ []) h,
    map-append (λ d. d.name ∷ []) done.pushed_clusters (c ∷ [])
        ∙ ap (λ y. named_clusters done.pushed_clusters ++ y ∷ []) k,
  )

  stay-Pushes : (done : Resources) → Pushes done done []
  stay-Pushes done =
      (sym (append-nil (pushed_rows done)), sym (append-nil (named_clusters done.pushed_clusters)))

  local_listener-row :
      (r : DataChannel) (port : ℕ)
      → given_port (map_get input.port_allocations r.name) ≡ some port
      → row (local_listener env input r port) ≡ (local_row env input) r
  local_listener-row r port h = elim (Bool-cases (is_tcp_protocol r.protocol)) [
    | inl e ↦ ground arith
    | inr e ↦ ground arith
  ]

  local-Pushes :
      (r : DataChannel) (done next : Resources)
      → add_local env input r done ≡ some next
      → Pushes done next (map (local_row env input) (filter (serves_local env input) (r ∷ [])))
  unfolding add_local
  local-Pushes r done next h = elim (Option-cases (given_text r.endpoint)) [
    | inl e ↦ ground (arith, stay-Pushes done)
    | inr (endpoint, e) ↦ elim (Option-cases (given_port (map_get input.port_allocations r.name))) [
      | inl f ↦ ground (arith, stay-Pushes done)
      | inr (port, f) ↦ elim (Option-cases (parse_endpoint_url env endpoint)) [
        | inl g ↦ ground arith
        | inr (at, g) ↦ ground (
          arith,
          push-Pushes done (local_listener env input r port)
              (build_local_cluster env r.name at r.protocol) ((local_row env input) r)
              (local_listener-row r port f) refl,
        )
      ]
    ]
  ]

  internal_listener-row :
      (r : InternalRoute) (port : ℕ)
      → given_port (egress_port env input r) ≡ some port
      → row (internal_listener env input r port) ≡ (internal_row env input) r
  internal_listener-row r port h = elim (Bool-cases (is_tcp_protocol r.protocol)) [
    | inl e ↦ ground arith
    | inr e ↦ ground arith
  ]

  internal-Pushes :
      (r : InternalRoute) (done : Resources)
      → Pushes done
          (add_internal env input r done)
          (map (internal_row env input) (filter (serves_internal env input) (r ∷ [])))
  unfolding add_internal
  internal-Pushes r done = elim (Option-cases (given_port r.envoy_port)) [
    | inl e ↦ ground (arith, stay-Pushes done)
    | inr (peer_port, e) ↦ elim (Option-cases (given_text r.peer.envoy_address)) [
      | inl f ↦ ground (arith, stay-Pushes done)
      | inr (at, f) ↦ elim (Option-cases (given_port (egress_port env input r))) [
        | inl g ↦ ground (arith, stay-Pushes done)
        | inr (port, g) ↦ ground (
          arith,
          push-Pushes done (internal_listener env input r port)
              (build_remote_cluster env r.name r.peer.name
                (record { address = at; port_value = peer_port }) r.protocol)
              ((internal_row env input) r) (internal_listener-row r port g) refl,
        )
      ]
    ]
  ]

  -- Pushing some rows and then more.
  both-Pushes :
      (done mid next : Resources) (xs ys : List Row)
      → Pushes done mid xs
      → Pushes mid next ys
      → Pushes done next (xs ++ ys)
  both-Pushes done mid next xs ys h k = (
    k.0 ∙ ap (λ z. z ++ ys) h.0 ∙ append_assoc (pushed_rows done) xs ys,
    k.1
        ∙ ap (λ z. z ++ map (λ x. x.row_targets) ys) h.1
        ∙ append_assoc (named_clusters done.pushed_clusters) (map (λ x. x.row_targets) xs)
            (map (λ x. x.row_targets) ys)
        ∙ ap (λ z. named_clusters done.pushed_clusters ++ z)
            (sym (map-append (λ x. x.row_targets) xs ys)),
  )

  filter-cons :
      {A : Type 0} (p : A → Bool) (f : A → Row) (x : A) (xs : List A)
      → map f (filter p (x ∷ [])) ++ map f (filter p xs) ≡ map f (filter p (x ∷ xs))
  filter-cons p f x xs = elim (Bool-cases (p x)) [ inl e ↦ ground arith | inr e ↦ ground arith ]

  locals-Pushes :
      (rs : List DataChannel) (done next : Resources)
      → add_locals env input rs done ≡ some next
      → Pushes done next (map (local_row env input) (filter (serves_local env input) rs))
  unfolding add_locals
  locals-Pushes [] done next h = ground (arith, stay-Pushes done)
  locals-Pushes (r ∷ rs) done next h = elim (Option-cases (add_local env input r done)) [
    | inl e ↦ ground arith
    | inr (mid, e) ↦
        subst (Pushes done next) (filter-cons (serves_local env input) (local_row env input) r rs) (
          both-Pushes done mid next
            (map (local_row env input) (filter (serves_local env input) (r ∷ [])))
            (map (local_row env input) (filter (serves_local env input) rs))
            (local-Pushes r done mid e) (locals-Pushes rs mid next (ground arith)))
  ]

  internals-Pushes :
      (rs : List InternalRoute) (done : Resources)
      → Pushes done
          (add_internals env input rs done)
          (map (internal_row env input) (filter (serves_internal env input) rs))
  unfolding add_internals
  internals-Pushes [] done = stay-Pushes done
  internals-Pushes (r ∷ rs) done =
      let mid = add_internal env input r done in
      subst (Pushes done (add_internals env input rs mid))
        (filter-cons (serves_internal env input) (internal_row env input) r rs)
        (both-Pushes done mid (add_internals env input rs mid)
          (map (internal_row env input) (filter (serves_internal env input) (r ∷ [])))
          (map (internal_row env input) (filter (serves_internal env input) rs))
          (internal-Pushes r done) (internals-Pushes rs mid))

  abbrev nothing_yet : Resources
  nothing_yet = record { pushed_listeners = []; pushed_clusters = [] }

  snapshot-Pushes :
      (snapshot : XdsSnapshot)
      → build_xds_snapshot env input ≡ some snapshot
      → Pushes nothing_yet
          (record { pushed_listeners = snapshot.listeners; pushed_clusters = snapshot.clusters })
          (expected env input)
  unfolding build_xds_snapshot
  snapshot-Pushes snapshot h = elim (Option-cases (add_locals env input input.locals nothing_yet)) [
    | inl e ↦ ground arith
    | inr (mid, e) ↦ ground (
      arith,
      both-Pushes nothing_yet mid (add_internals env input input.internals mid)
          (map (local_row env input) (filter (serves_local env input) input.locals))
          (map (internal_row env input) (filter (serves_internal env input) input.internals))
          (locals-Pushes input.locals nothing_yet mid e) (internals-Pushes input.internals mid),
    )
  ]

  -- If a snapshot is built, its listeners are, in order, one for each local route with an endpoint
  -- and an allocated port, then one for each internal route with a port at the peer, an address of
  -- the peer and an allocated egress port: each with its name, its address and its allocated port,
  -- a TCP proxy exactly for protocol tcp, and sending to the cluster of its route alone.
  pub build_xds_snapshot-listeners :
      (snapshot : XdsSnapshot)
      → build_xds_snapshot env input ≡ some snapshot
      → map row snapshot.listeners ≡ expected env input
  build_xds_snapshot-listeners snapshot h = (snapshot-Pushes snapshot h).0

  -- If a snapshot is built, the clusters to which its listeners send are its own clusters, one for
  -- each listener and in the same order, so that no listener refers to a cluster that is missing.
  pub build_xds_snapshot-clusters :
      (snapshot : XdsSnapshot)
      → build_xds_snapshot env input ≡ some snapshot
      → map targets snapshot.listeners ≡ map (λ c. c.name ∷ []) snapshot.clusters
  build_xds_snapshot-clusters snapshot h =
      sym (map-map row (λ x. x.row_targets) snapshot.listeners)
      ∙ ap (map (λ x. x.row_targets)) (snapshot-Pushes snapshot h).0
      ∙ sym (snapshot-Pushes snapshot h).1

  abbrev parses : DataChannel → Bool
  parses r = elim (given_text r.endpoint) [
    | none ↦ true
    | some endpoint ↦ is_some (parse_endpoint_url env endpoint)
  ]

  locals-throws :
      (rs : List DataChannel) (done : Resources)
      → is_some (add_locals env input rs done)
        ≡ not (any (λ r. (serves_local env input) r && not (parses r)) rs)
  unfolding add_locals add_local
  locals-throws [] done = refl
  locals-throws (r ∷ rs) done = elim (Option-cases (given_text r.endpoint)) [
    | inl e ↦ ground (arith, locals-throws rs done)
    | inr (endpoint, e) ↦ elim (Option-cases (given_port (map_get input.port_allocations r.name))) [
      | inl f ↦ ground (arith, locals-throws rs done)
      | inr (port, f) ↦ elim (Option-cases (parse_endpoint_url env endpoint)) [
        | inl g ↦ ground arith
        | inr (at, g) ↦ ground (
          arith,
          locals-throws rs (
              push done (local_listener env input r port)
                (build_local_cluster env r.name at r.protocol)),
        )
      ]
    ]
  ]

  -- A snapshot is built unless the endpoint of some local route that has a port does not parse:
  -- then the whole build throws.
  pub build_xds_snapshot-throws :
      is_some (build_xds_snapshot env input)
      ≡ not (any (λ r. (serves_local env input) r && not (parses r)) input.locals)
  unfolding build_xds_snapshot
  build_xds_snapshot-throws = elim (Option-cases (add_locals env input input.locals nothing_yet)) [
    | inl e ↦ ground (arith, locals-throws input.locals nothing_yet)
    | inr (mid, e) ↦ ground (arith, locals-throws input.locals nothing_yet)
  ]
