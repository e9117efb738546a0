-- ===== src/Ports/Counts.antt =====
-- How often a port occurs, under the operations of the pool's set and map.
use catalyst_router.Prelude.{
  ℕ, zero, suc, String, Bool, true, false, ◌+◌, ◌-◌, ◌≤◌, min, max, ltb, ◌&&◌, ◌||◌, ◌≡◌, refl,
  List, [], ◌∷◌, ◌++◌, map, none, some, arith, includes, lookup, if◌then◌else◌, nat_beq, nat_key,
  string_key, Distinct, find_index_of_absent, filter_key-absent, map-append, ==_eq, leb,
}
use catalyst_router.Ports.{
  upto, PortEntry, single, range, expand_port_range, set_add, set_delete, set_of, entry_key,
  map_get, map_set, map_delete,
}

-- The occurrences of a port in a list.
abbrev pub count : ℕ → List ℕ → ℕ
count p [] = 0
count p (q ∷ qs) = (if nat_beq q p then 1 else 0) + count p qs

abbrev pub ports : List (String × ℕ) → List ℕ
ports m = map (λ kv. kv.1) m

pub count-append : (p : ℕ) (xs ys : List ℕ) → count p (xs ++ ys) ≡ count p xs + count p ys
count-append p [] ys = omega arith
count-append p (x ∷ xs) ys = omega (arith, count-append p xs ys)

pub count-set_delete :
    (p q : ℕ) (xs : List ℕ) → count p (set_delete xs q) ≡ (if nat_beq q p then 0 else count p xs)
count-set_delete p q [] = ground arith
count-set_delete p q (x ∷ xs) = ground (arith, count-set_delete p q xs)

pub includes-count :
    (p : ℕ) (xs : List ℕ) → includes xs p ≡ (if nat_beq (count p xs) 0 then false else true)
includes-count p [] = refl
includes-count p (x ∷ xs) = ground (arith, includes-count p xs)

pub count-set_add :
    (p q : ℕ) (xs : List ℕ)
    → count p (set_add xs q) ≡ max (count p xs) (if nat_beq q p then 1 else 0)
count-set_add p q xs = ground (arith, includes-count q xs, count-append p xs (q ∷ []))

-- A set has each element of the list once.
pub count-set_of :
    (done xs : List ℕ) (p : ℕ)
    → count p done ≤ 1
    → count p (set_of done xs) ≡ min 1 (count p done + count p xs)
unfolding set_of
count-set_of done [] p h = omega arith
count-set_of done (x ∷ xs) p h =
    ground (arith, count-set_of (set_add done x) xs p, count-set_add p x done)

-- Which ports a configuration names.
abbrev covers_entry : PortEntry → ℕ → Bool
covers_entry (single q) p = nat_beq q p
covers_entry (range start end) p = leb start p && leb p end

abbrev pub covers : List PortEntry → ℕ → Bool
covers [] p = false
covers (e ∷ es) p = covers_entry e p || covers es p

count-upto :
    (n start p : ℕ) → count p (upto n start) ≡ (if leb start p && ltb p (start + n) then 1 else 0)
unfolding upto
count-upto zero start p = ground arith
count-upto (suc n) start p = ground (arith, count-upto n (start + 1) p)

pub count-expand :
    (es : List PortEntry) (p : ℕ)
    → min 1 (count p (expand_port_range es)) ≡ (if covers es p then 1 else 0)
unfolding expand_port_range
count-expand [] p = omega arith
count-expand (single q ∷ es) p = ground (arith, count-expand es p)
count-expand (range start end ∷ es) p = ground (
  arith,
  count-expand es p,
  count-append p (upto (end + 1 - start) start) (expand_port_range es),
  count-upto (end + 1 - start) start p,
)

pub map_get-none :
    (m : List (String × ℕ)) (k : String) → map_get m k ≡ none → lookup entry_key k m ≡ none
map_get-none m k h = ground arith

pub map_set-new :
    (m : List (String × ℕ)) (k : String) (v : ℕ)
    → map_get m k ≡ none
    → map_set m k v ≡ m ++ (k, v) ∷ []
map_set-new m k v h = rw (find_index_of_absent entry_key k m (map_get-none m k h), map_set)

ports-append : (m n : List (String × ℕ)) → ports (m ++ n) ≡ ports m ++ ports n
ports-append m n = map-append (λ kv. kv.1) m n

-- A new entry of the map, and the removal of one.
pub count-map_set :
    (m : List (String × ℕ)) (k : String) (v p : ℕ)
    → map_get m k ≡ none
    → count p (ports (map_set m k v)) ≡ count p (ports m) + (if nat_beq v p then 1 else 0)
count-map_set m k v p h =
    rw (map_set-new m k v h, ports-append m ((k, v) ∷ []))
      (omega (arith, count-append p (ports m) (v ∷ [])))

pub count-map_delete :
    (m : List (String × ℕ)) (k : String) (v p : ℕ)
    → Distinct (map entry_key m)
    → map_get m k ≡ some v
    → count p (ports (map_delete m k)) + (if nat_beq v p then 1 else 0) ≡ count p (ports m)
count-map_delete [] k v p d h = cc
count-map_delete (x ∷ m) k v p d h =
    ground
      (arith, count-map_delete m k v p d.1, filter_key-absent entry_key k m, ==_eq (entry_key x) k)
