-- ===== src/Ports/Sharing.antt =====
-- The allocator seen by its clients: which channel has which port.
use catalyst_router.Prelude.{
  ℕ, String, true, not, ◌≤◌, ◌≡◌, ◌≢◌, ◌∙◌, sym, ◌∷◌, ap, List, [], map, none, some, Option, arith,
  includes, if◌then◌else◌, string_key, nat_key, ◌==◌, Distinct, inl, inr, Option-cases, List-cases,
  ==_eq, ==_of_ne, lookup-filter_key, Distinct-filter,
}
use catalyst_router.Ports.{
  PortEntry, Allocator, AllocateResult, success, no_ports_available, entry_key, map_get, map_delete,
  map_set, set_delete, create_port_allocator, allocate_port, release_port, get_port,
}
use catalyst_router.Ports.Counts.{count, ports, covers, includes-count, count-map_delete}
use catalyst_router.Ports.Laws.{
  IsBalanced, map_get-map_set, allocate_port-IsBalanced, release_port-IsBalanced,
  create_port_allocator-IsBalanced,
}

abbrev pub port_of : AllocateResult → Option ℕ
port_of (success p) = some p
port_of no_ports_available = none

-- The three ways of `allocate`: the channel has a port, none is left, or it takes the first one.
pub allocate_cases {ℓ} :
    (P : Allocator × AllocateResult → Type ℓ) (a : Allocator) (k : String)
    → ((q : ℕ) → get_port a k ≡ some q → P (a, success q))
    → (get_port a k ≡ none → a.available ≡ [] → P (a, no_ports_available))
    → ((q : ℕ)
        → get_port a k ≡ none
        → P (
          record { available = set_delete a.available q; allocations = map_set a.allocations k q },
          success q,
        ))
    → P (allocate_port a k)
unfolding allocate_port
allocate_cases P a k had out took = elim (Option-cases (get_port a k)) [
  | inr (q, found) ↦ rw (found, allocate_port) (had q found)
  | inl new ↦ elim (List-cases a.available) [
    | inl none_left ↦ rw (new, none_left, allocate_port) (out new none_left)
    | inr (q, rest, free) ↦ rw (new, free, allocate_port) (took q new)
  ]
]

-- `allocate` returns what `getPort` then answers for the channel, and leaves every other channel's
-- port.
pub get_port-allocate_port :
    (a : Allocator) (k j : String)
    → get_port (allocate_port a k).0 j
      ≡ (if k == j then port_of (allocate_port a k).1 else get_port a j)
get_port-allocate_port a k j =
    allocate_cases (λ r. get_port r.0 j ≡ (if k == j then port_of r.1 else get_port a j)) a k
      (λ q h. ground (arith, ==_eq k j, λ (e : k ≡ j). ap (get_port a) e))
      (λ h _. ground (arith, ==_eq k j, λ (e : k ≡ j). ap (get_port a) e))
      (λ q h. map_get-map_set a.allocations k j q h)

pub allocate_port-held :
    (a : Allocator) (k : String) (q : ℕ)
    → get_port a k ≡ some q
    → allocate_port a k ≡ (a, success q)
unfolding allocate_port
allocate_port-held a k q h = rw (h, allocate_port)

pub allocate_port-out :
    (a : Allocator) (k : String)
    → get_port a k ≡ none
    → a.available ≡ []
    → allocate_port a k ≡ (a, no_ports_available)
unfolding allocate_port
allocate_port-out a k h e = ground arith

map_get-map_delete :
    (m : List (String × ℕ)) (k j : String)
    → map_get (map_delete m k) j ≡ (if k == j then none else map_get m j)
map_get-map_delete m k j = ground (arith, lookup-filter_key entry_key k j m)

-- `release` frees the channel's port and no other channel's.
pub get_port-release_port :
    (a : Allocator) (k j : String)
    → get_port (release_port a k) j ≡ (if k == j then none else get_port a j)
unfolding release_port
get_port-release_port a k j = elim (Option-cases (get_port a k)) [
  | inl gone ↦ rw (gone, release_port) (ground (arith, ==_eq k j, λ (e : k ≡ j). ap (get_port a) e))
  | inr (q, found) ↦ rw (found, release_port) (map_get-map_delete a.allocations k j)
]

held-count :
    (m : List (String × ℕ)) (k : String) (p : ℕ)
    → Distinct (map entry_key m)
    → map_get m k ≡ some p
    → 1 ≤ count p (ports m)
held-count m k p d h = ground (arith, count-map_delete m k p p d h)

-- Two channels with one port hold it twice.
held-twice :
    (m : List (String × ℕ)) (j k : String) (p : ℕ)
    → Distinct (map entry_key m)
    → j ≢ k
    → map_get m j ≡ some p
    → map_get m k ≡ some p
    → 2 ≤ count p (ports m)
held-twice m j k p d ne hj hk =
    let rest =
      held-count (map_delete m j) k p
        (Distinct-filter entry_key (λ kv. not (entry_key kv == j)) m d)
        (map_get-map_delete m j k ∙ rw (==_of_ne j k ne) hk) in
    ground (arith, count-map_delete m j p p d hj, rest)

-- What an allocator is asked to do.
pub data PortCall : Type 0 where
  allocates releases : (channel : String) → PortCall

abbrev pub after_call : PortCall → Allocator → Allocator
after_call (allocates channel) a = (allocate_port a channel).0
after_call (releases channel) a = release_port a channel

abbrev pub after_calls : List PortCall → Allocator → Allocator
after_calls [] a = a
after_calls (c ∷ cs) a = after_calls cs (after_call c a)

module _ {entries : List PortEntry} where
  calls-IsBalanced :
      (cs : List PortCall) (a : Allocator)
      → IsBalanced entries a
      → IsBalanced entries (after_calls cs a)
  calls-IsBalanced [] a b = b
  calls-IsBalanced (allocates k ∷ cs) a b =
      calls-IsBalanced cs (allocate_port a k).0 (allocate_port-IsBalanced entries a k b)
  calls-IsBalanced (releases k ∷ cs) a b =
      calls-IsBalanced cs (release_port a k) (release_port-IsBalanced entries a k b)

  get_port-covers :
      (a : Allocator) (k : String) (p : ℕ)
      → IsBalanced entries a
      → get_port a k ≡ some p
      → covers entries p ≡ true
  get_port-covers a k p b h = ground (arith, b.balance p, held-count a.allocations k p b.names h)

  get_port-apart :
      (a : Allocator) (j k : String) (p : ℕ)
      → IsBalanced entries a
      → j ≢ k
      → get_port a j ≡ some p
      → get_port a k ≡ some p
      → ⊥
  get_port-apart a j k p b ne hj hk =
      let two = held-twice a.allocations j k p b.names ne hj hk in ground (arith, b.balance p, two)

  -- `allocate` fails only if each port of the configuration is held by some channel.
  pub allocate_port-exhausted :
      (a : Allocator) (k : String) (p : ℕ)
      → IsBalanced entries a
      → (allocate_port a k).1 ≡ no_ports_available
      → covers entries p ≡ true
      → includes (ports a.allocations) p ≡ true
  unfolding allocate_port
  allocate_port-exhausted a k p b h c =
      ground (arith, b.balance p, includes-count p (ports a.allocations))

-- After any allocations and releases on an allocator that is created from a configuration and
-- allocations of distinct channels, two channels never have the same port, whichever entries of
-- the configuration overlap and whichever ports the first allocations share; and every port that
-- a channel has is one of the configuration.
pub after_calls-injective :
    (entries : List PortEntry) (existing : List (String × ℕ)) (cs : List PortCall) (j k : String)
    (p q : ℕ)
    → Distinct (map entry_key existing)
    → j ≢ k
    → get_port (after_calls cs (create_port_allocator entries existing)) j ≡ some p
    → get_port (after_calls cs (create_port_allocator entries existing)) k ≡ some q
    → (p ≢ q) × (covers entries p ≡ true) × (covers entries q ≡ true)
after_calls-injective entries existing cs j k p q d ne hj hk =
    let a = after_calls cs (create_port_allocator entries existing) in
    let b =
      calls-IsBalanced {entries = entries} cs (create_port_allocator entries existing)
        (create_port_allocator-IsBalanced entries existing d) in
    (
      λ same. get_port-apart a j k p b ne hj (hk ∙ ap some (sym same)),
      get_port-covers a j p b hj,
      get_port-covers a k q b hk,
    )
