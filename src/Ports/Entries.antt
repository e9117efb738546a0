-- ===== src/Ports/Entries.antt =====
-- `Map` as a list of entries: reading after writing.
use catalyst_router.Prelude.{
  ℕ, String, ◌≡◌, refl, List, some, if◌then◌else◌, ◌==◌, string_key, arith, inl, inr, Option-cases,
  find_index, lookup-push, lookup-set, find_index-none,
}
use catalyst_router.Ports.{map_get, map_set, entry_key}

-- `map.set`, also on an entry that is there.
pub map_get-map_set_any :
    (m : List (String × ℕ)) (k j : String) (v : ℕ)
    → map_get (map_set m k v) j ≡ (if k == j then some v else map_get m j)
map_get-map_set_any m k j v = elim (Option-cases (find_index (λ kv. entry_key kv == k) m)) [
  | inl new ↦
      rw (new, map_set)
        (ground (
          arith,
          lookup-push entry_key j m (k, v)
              (find_index-none entry_key (λ kv. entry_key kv == k) m new),
        ))
  | inr ((i, kv), found) ↦
      rw (found, map_set) (ground (arith, lookup-set entry_key k j m (k, v) found refl))
]
