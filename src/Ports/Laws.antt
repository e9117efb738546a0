-- ===== src/Ports/Laws.antt =====
-- What the allocator promises: no port is lost, made up or given to two channels.
use catalyst_router.Prelude.{
  ℕ, String, true, false, not, ◌+◌, ◌≡◌, refl, ◌∙◌, List, [], ◌∷◌, map, none, some, arith, includes,
  if◌then◌else◌, nat_key, string_key, ◌==◌, Distinct, inl, inr, Option-cases, Bool-cases,
  List-cases, ==_refl, ==_comm, All, lookup-push, Distinct-filter, Distinct-push,
}
use catalyst_router.Ports.{
  PortEntry, Allocator, expand_port_range, set_delete, set_of, entry_key, map_get, map_set,
  rehydrate, create_port_allocator, allocate_port, release_port,
}
use catalyst_router.Ports.Counts.{
  count, ports, covers, count-set_delete, count-set_add, count-set_of, count-expand, includes-count,
  map_set-new, count-map_set, count-map_delete,
}

-- Each channel has one entry, and each port of the configuration is free or held, once.
pub record IsBalanced (entries : List PortEntry) (a : Allocator) : Type 0 where
  pub names : Distinct (map entry_key a.allocations)
  pub balance :
      (p : ℕ)
      → count p a.available + count p (ports a.allocations) ≡ (if covers entries p then 1 else 0)

map_set-names :
    (m : List (String × ℕ)) (k : String) (v : ℕ)
    → map_get m k ≡ none
    → Distinct (map entry_key m)
    → Distinct (map entry_key (map_set m k v))
map_set-names m k v h d =
    rw (map_set-new m k v h) (Distinct-push entry_key m (k, v) (ground arith) d)

pub map_get-map_set :
    (m : List (String × ℕ)) (k j : String) (v : ℕ)
    → map_get m k ≡ none
    → map_get (map_set m k v) j ≡ (if k == j then some v else map_get m j)
map_get-map_set m k j v h =
    rw (map_set-new m k v h) (ground (arith, lookup-push entry_key j m (k, v)))

set_map-none :
    (m rest : List (String × ℕ)) (k : String) (v : ℕ)
    → map_get m k ≡ none
    → includes (map entry_key rest) k ≡ false
    → All (λ kv. map_get m kv.0 ≡ none) rest
    → All (λ kv. map_get (map_set m k v) kv.0 ≡ none) rest
set_map-none m [] k v h i a = tt
set_map-none m (kv ∷ rest) k v h i a = (
  map_get-map_set m k kv.0 v h ∙ ground (arith, ==_comm k kv.0),
  set_map-none m rest k v h (ground arith) a.1,
)

All-empty : (rest : List (String × ℕ)) → All (λ kv. map_get [] kv.0 ≡ none) rest
All-empty [] = tt
All-empty (kv ∷ rest) = (refl, All-empty rest)

module _ (entries : List PortEntry) where
  -- A free port moves to a channel that has none.
  take-IsBalanced :
      (a : Allocator) (k : String) (q : ℕ)
      → IsBalanced entries a
      → map_get a.allocations k ≡ none
      → includes a.available q ≡ true
      → IsBalanced entries
          (record { available = set_delete a.available q; allocations = map_set a.allocations k q })
  take-IsBalanced a k q b new free = record {
    names = map_set-names a.allocations k q new b.names;
    balance = λ p. ground (
      arith,
      count-map_set a.allocations k q p new,
      count-set_delete p q a.available,
      includes-count q a.available,
      b.balance p,
      b.balance q,
    );
  }

  -- Whatever the channel, `allocate` keeps the balance.
  pub allocate_port-IsBalanced :
      (a : Allocator) (k : String) → IsBalanced entries a → IsBalanced entries (allocate_port a k).0
  unfolding allocate_port
  allocate_port-IsBalanced a k b = elim (Option-cases (map_get a.allocations k)) [
    | inr (q, found) ↦ rw (found, allocate_port) b
    | inl new ↦ elim (List-cases a.available) [
      | inl none_left ↦ rw (new, none_left, allocate_port) b
      | inr (q, rest, free) ↦
          let taken = take-IsBalanced a k q b new (rw free (ground (arith, ==_refl q))) in
          rw (new, free, allocate_port) taken
    ]
  ]

  pub release_port-IsBalanced :
      (a : Allocator) (k : String) → IsBalanced entries a → IsBalanced entries (release_port a k)
  unfolding release_port
  release_port-IsBalanced a k b = elim (Option-cases (map_get a.allocations k)) [
    | inl gone ↦ rw (gone, release_port) b
    | inr (q, found) ↦
        rw (found, release_port)
          (record {
            names = Distinct-filter entry_key (λ kv. not (entry_key kv == k)) a.allocations b.names;
            balance = λ p. ground (
              arith,
              count-map_delete a.allocations k q p b.names found,
              count-map_delete a.allocations k q q b.names found,
              count-set_add p q a.available,
              b.balance p,
              b.balance q,
            );
          })
  ]

  rehydrate-IsBalanced :
      (rest : List (String × ℕ)) (a : Allocator)
      → IsBalanced entries a
      → Distinct (map entry_key rest)
      → All (λ kv. map_get a.allocations kv.0 ≡ none) rest
      → IsBalanced entries (rehydrate rest a)
  unfolding rehydrate
  rehydrate-IsBalanced [] a b d h = b
  rehydrate-IsBalanced ((k, q) ∷ rest) a b d h = elim (Bool-cases (includes a.available q)) [
    | inl free ↦
        rw (free, rehydrate)
          (rehydrate-IsBalanced rest _ (take-IsBalanced a k q b h.0 free) d.1
            (set_map-none a.allocations rest k q h.0 d.0 h.1))
    | inr taken ↦ rw (taken, rehydrate) (rehydrate-IsBalanced rest a b d.1 h.1)
  ]

  -- A new allocator, with or without allocations to take over, is balanced.
  pub create_port_allocator-IsBalanced :
      (existing : List (String × ℕ))
      → Distinct (map entry_key existing)
      → IsBalanced entries (create_port_allocator entries existing)
  unfolding create_port_allocator
  create_port_allocator-IsBalanced existing d =
      rehydrate-IsBalanced existing
        (record { available = set_of [] (expand_port_range entries); allocations = [] })
        (record {
          names = tt;
          balance = λ p.
              omega (arith, count-set_of [] (expand_port_range entries) p, count-expand entries p);
        })
        d (All-empty existing)
