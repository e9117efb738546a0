-- ===== src/Ports.antt =====
-- apps/envoy/src/port-allocator.ts: the pool of listener ports. The closure over `available` (a
-- `Set`, read in the order of insertion) and `allocations` (a `Map`) is a record of two lists.
mod Tests
mod Counts
pub mod Entries
pub mod Laws
pub mod Sharing
use catalyst_router.Prelude.{
  ℕ, zero, suc, String, Bool, not, ◌+◌, ◌-◌, List, [], ◌∷◌, ◌++◌, map, Option, none, some, filter,
  length, includes, lookup, if◌then◌else◌, leb, ◌==◌, nat_key, string_key, Key, any, set,
  find_index,
}

-- A `PortEntry`: one port, or the range from `start` to `end`.
pub data PortEntry : Type 0 where
  single : ℕ → PortEntry
  range : (start end : ℕ) → PortEntry

-- `for (let port = start; port <= end; port++)`, with the number of rounds left.
unfoldable pub upto : ℕ → ℕ → List ℕ
upto zero start = []
upto (suc n) start = start ∷ upto n (start + 1)

abbrev entry_ports : PortEntry → List ℕ
entry_ports (single p) = p ∷ []
entry_ports (range start end) = upto (end + 1 - start) start

unfoldable pub expand_port_range : List PortEntry → List ℕ
unfolding upto
expand_port_range [] = []
expand_port_range (e ∷ es) = entry_ports e ++ expand_port_range es

pub record Allocator : Type 0 where
  pub available : List ℕ
  pub allocations : List (String × ℕ)

-- `set.add(x)`: an element that is there keeps its place.
module _ {ℓ} {A : Type ℓ} ⦃e : Key A⦄ where
  abbrev pub set_add : List A → A → List A
  set_add xs x = if includes xs x then xs else xs ++ x ∷ []

  abbrev pub set_delete : List A → A → List A
  set_delete xs x = filter (λ y. not (y == x)) xs

  -- `new Set(xs)`, with what it holds already.
  pub set_of : List A → List A → List A
  set_of done [] = done
  set_of done (x ∷ xs) = set_of (set_add done x) xs

-- `map.get`, `map.set` (an entry that is there keeps its place) and `map.delete`.
abbrev pub entry_key : String × ℕ → String
entry_key kv = kv.0

abbrev value : Option (String × ℕ) → Option ℕ
value none = none
value (some kv) = some kv.1

abbrev pub map_get : List (String × ℕ) → String → Option ℕ
map_get m k = value (lookup entry_key k m)

abbrev pub map_set : List (String × ℕ) → String → ℕ → List (String × ℕ)
map_set m k v = elim (find_index (λ kv. entry_key kv == k) m) [
  | none ↦ m ++ (k, v) ∷ []
  | some (i, kv) ↦ set m i (k, v)
]

abbrev pub map_delete : List (String × ℕ) → String → List (String × ℕ)
map_delete m k = filter (λ kv. not (entry_key kv == k)) m

-- The loop over `existing`: a port outside the pool, or taken already, is passed over.
pub rehydrate : List (String × ℕ) → Allocator → Allocator
rehydrate [] a = a
rehydrate ((name, number) ∷ rest) a = rehydrate rest (
    if includes a.available number
    then record {
      available = set_delete a.available number;
      allocations = map_set a.allocations name number;
    }
    else a)

-- `createPortAllocator`; no `existing` map is the empty one.
unfoldable pub create_port_allocator : List PortEntry → List (String × ℕ) → Allocator
unfolding set_of rehydrate expand_port_range
create_port_allocator port_range existing =
    rehydrate existing
      (record { available = set_of [] (expand_port_range port_range); allocations = [] })

pub data AllocateResult : Type 0 where
  success : (port : ℕ) → AllocateResult
  no_ports_available : AllocateResult

unfoldable pub allocate_port : Allocator → String → Allocator × AllocateResult
allocate_port a channel = elim (map_get a.allocations channel) [
  | some existing ↦ (a, success existing)
  | none ↦ elim a.available [
    | [] ↦ (a, no_ports_available)
    | next ∷ rest ↦ (
      record {
        available = set_delete a.available next;
        allocations = map_set a.allocations channel next;
      },
      success next,
    )
  ]
]

unfoldable pub release_port : Allocator → String → Allocator
release_port a channel = elim (map_get a.allocations channel) [
  | none ↦ a
  | some number ↦ record {
    available = set_add a.available number;
    allocations = map_delete a.allocations channel;
  }
]

abbrev pub get_port : Allocator → String → Option ℕ
get_port a channel = map_get a.allocations channel

abbrev pub available_count : Allocator → ℕ
available_count a = length a.available
