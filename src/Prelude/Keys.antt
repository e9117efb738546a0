-- ===== src/Prelude/Keys.antt =====
-- Lists whose elements carry a key: distinct keys, and the list as a map from keys.
use Prim.Native.Nat.{ℕ, suc}
use mathlib.Core.Path.{◌≡◌, refl, sym, ap, ap₂, ◌∙◌}
use mathlib.Core.Logic.{◌≢◌, inl, inr}
use mathlib.Core.Bool.{Bool, true, false, not}
use mathlib.Core.Option.{Option, none, some}
use mathlib.Core.List.{List, [], ◌∷◌, ◌++◌, map, map-append}
use native.Mathlib.Omega.{arith}
use catalyst_router.Prelude.Bools.{
  if◌then◌else◌, Key, ◌==◌, or_else, or_else-none, Bool-cases, Option-cases,
}
use catalyst_router.Prelude.Lists.{any, filter, find, find_index, set, includes}

module _ {ℓ} {K : Type ℓ} ⦃e : Key K⦄ where
  abbrev pub Distinct : List K → Type 0
  Distinct [] = Unit
  Distinct (k ∷ ks) = (includes ks k ≡ false) × Distinct ks

  pub ==_refl : (k : K) → (k == k) ≡ true
  ==_refl k = (e.same_key_iff k k).1 refl

  pub ==_eq : (j k : K) → (j == k) ≡ true → j ≡ k
  ==_eq j k h = (e.same_key_iff j k).0 h

  pub ==_of_ne : (j k : K) → j ≢ k → (j == k) ≡ false
  ==_of_ne j k h = elim (Bool-cases (j == k)) [ inl t ↦ absurd (h (==_eq j k t)) | inr f ↦ f ]

  pub ==_comm : (j k : K) → (j == k) ≡ (k == j)
  ==_comm j k = elim (Bool-cases (j == k)) [
    | inl t ↦ rw (==_eq j k t)
    | inr f ↦ rw f (sym (==_of_ne k j (λ h. ground (arith, (e.same_key_iff j k).1 (sym h)))))
  ]

  pub includes-append :
      (xs ys : List K) (k : K)
      → includes (xs ++ ys) k ≡ (if includes xs k then true else includes ys k)
  includes-append [] ys k = refl
  includes-append (x ∷ xs) ys k = ground (arith, includes-append xs ys k)

  pub Distinct-append :
      (ks : List K) (k : K) → Distinct ks → includes ks k ≡ false → Distinct (ks ++ k ∷ [])
  Distinct-append [] k d h = (refl, tt)
  Distinct-append (j ∷ ks) k d h = (
    includes-append ks (k ∷ []) j ∙ ground (arith, ==_comm j k),
    Distinct-append ks k d.1 (ground arith),
  )

module _ {ℓ κ} {A : Type ℓ} {K : Type κ} ⦃e : Key K⦄ (key : A → K) where
  -- The first element with a key.
  abbrev pub lookup : K → List A → Option A
  lookup k xs = find (λ x. key x == k) xs

  pub any-includes : (k : K) (xs : List A) → any (λ x. key x == k) xs ≡ includes (map key xs) k
  any-includes k [] = refl
  any-includes k (x ∷ xs) = ground (arith, any-includes k xs)

  pub lookup-none : (k : K) (xs : List A) → includes (map key xs) k ≡ false → lookup k xs ≡ none
  lookup-none k [] h = refl
  lookup-none k (x ∷ xs) h = ground (arith, lookup-none k xs)

  pub lookup-none_iff : (k : K) (xs : List A) → lookup k xs ≡ none → includes (map key xs) k ≡ false
  lookup-none_iff k [] h = refl
  lookup-none_iff k (x ∷ xs) h = ground (arith, lookup-none_iff k xs)

  pub lookup-key : (k : K) (xs : List A) {a : A} → lookup k xs ≡ some a → key a ≡ k
  lookup-key k [] h = cc
  lookup-key k (x ∷ xs) {a} h = ground (arith, lookup-key k xs {a = a}, ==_eq (key x) k)

  pub lookup-append :
      (k : K) (xs ys : List A) → lookup k (xs ++ ys) ≡ or_else (lookup k xs) (lookup k ys)
  lookup-append k [] ys = refl
  lookup-append k (x ∷ xs) ys = ground (arith, lookup-append k xs ys)

  -- `find_index` finds what `find` finds.
  pub find_index-find :
      (p : A → Bool) (xs : List A) {i : ℕ} {a : A}
      → find_index p xs ≡ some (i, a)
      → find p xs ≡ some a
  find_index-find p [] h = cc
  find_index-find p (x ∷ xs) h = elim (Bool-cases (p x)) [
    | inl t ↦ ground arith
    | inr f ↦ elim (Option-cases (find_index p xs)) [
      | inl n ↦ ground arith
      | inr ((j, b), s) ↦ ground (arith, find_index-find p xs s)
    ]
  ]

  pub find_index-none : (p : A → Bool) (xs : List A) → find_index p xs ≡ none → find p xs ≡ none
  find_index-none p [] h = refl
  find_index-none p (x ∷ xs) h = elim (Option-cases (find_index p xs)) [
    | inl n ↦ ground (arith, find_index-none p xs n)
    | inr ((j, b), s) ↦ ground arith
  ]

  -- To write an element with the same key keeps the list of keys.
  pub map-set :
      (p : A → Bool) (xs : List A) {i : ℕ} {a : A} (b : A)
      → find_index p xs ≡ some (i, a)
      → key b ≡ key a
      → map key (set xs i b) ≡ map key xs
  map-set p [] b h s = cc
  map-set p (x ∷ xs) {i} {a} b h s = elim (Bool-cases (p x)) [
    | inl t ↦
        let first : i ≡ 0 = ground arith in let found : x ≡ a = ground arith in rw (first, s, found)
    | inr f ↦ elim (Option-cases (find_index p xs)) [
      | inl n ↦ absurd (ground arith)
      | inr ((j, c), later) ↦
          let next : i ≡ suc j = ground arith in
          let found : c ≡ a = ground arith in
          rw next (ap (◌∷◌ (key x)) (map-set p xs b later (s ∙ ap key (sym found))))
    ]
  ]

  -- The map after such a write.
  pub lookup-set :
      (j k : K) (xs : List A) {i : ℕ} {a : A} (b : A)
      → find_index (λ x. key x == j) xs ≡ some (i, a)
      → key b ≡ j
      → lookup k (set xs i b) ≡ (if j == k then some b else lookup k xs)
  lookup-set j k [] b h s = cc
  lookup-set j k (x ∷ xs) {i} {a} b h s = elim (Bool-cases (key x == j)) [
    | inl t ↦
        let first : i ≡ 0 = ground arith in
        let same : key x ≡ j = ==_eq (key x) j t in rw (first, s, same) (ground arith)
    | inr f ↦ elim (Option-cases (find_index (λ y. key y == j) xs)) [
      | inl n ↦ absurd (ground arith)
      | inr ((m, c), later) ↦
          let next : i ≡ suc m = ground arith in
          let found : c ≡ a = ground arith in
          rw next
            (ground (arith, lookup-set j k xs b later s, ==_eq j k, ==_eq (key x) k, ==_comm j k))
    ]
  ]

  -- The map after the elements with a key are removed.
  pub lookup-filter_key :
      (j k : K) (xs : List A)
      → lookup k (filter (λ x. not (key x == j)) xs) ≡ (if j == k then none else lookup k xs)
  lookup-filter_key j k [] = ground arith
  lookup-filter_key j k (x ∷ xs) =
      ground
        (arith, lookup-filter_key j k xs, ==_eq (key x) k, ==_eq (key x) j, ==_comm j k, ==_refl k)

  pub includes-filter :
      (k : K) (p : A → Bool) (xs : List A)
      → includes (map key xs) k ≡ false
      → includes (map key (filter p xs)) k ≡ false
  includes-filter k p [] h = refl
  includes-filter k p (x ∷ xs) h = ground (arith, includes-filter k p xs)

  pub Distinct-filter :
      (p : A → Bool) (xs : List A) → Distinct (map key xs) → Distinct (map key (filter p xs))
  Distinct-filter p [] d = tt
  Distinct-filter p (x ∷ xs) d =
      ground (arith, Distinct-filter p xs d.1, includes-filter (key x) p xs d.0)

module _ {ℓ κ} {A : Type ℓ} {K : Type κ} ⦃e : Key K⦄ (key : A → K) where
  pub find_index-key :
      (j : K) (xs : List A) {i : ℕ} {a : A}
      → find_index (λ x. key x == j) xs ≡ some (i, a)
      → key a ≡ j
  find_index-key j xs h = lookup-key key j xs (find_index-find key (λ x. key x == j) xs h)

  pub Distinct-set :
      (j : K) (xs : List A) {i : ℕ} {a : A} (b : A)
      → find_index (λ x. key x == j) xs ≡ some (i, a)
      → key b ≡ j
      → Distinct (map key xs)
      → Distinct (map key (set xs i b))
  Distinct-set j xs b h s d =
      rw (map-set key (λ x. key x == j) xs b h (s ∙ sym (find_index-key j xs h))) d

  -- A new element at the end whose key is not there yet.
  pub Distinct-push :
      (xs : List A) (b : A)
      → lookup key (key b) xs ≡ none
      → Distinct (map key xs)
      → Distinct (map key (xs ++ b ∷ []))
  Distinct-push xs b h d =
      rw (map-append key xs (b ∷ []))
        (Distinct-append (map key xs) (key b) d (lookup-none_iff key (key b) xs h))

  -- A map that keeps the keys.
  pub map-key :
      (f : A → A) → ((a : A) → key (f a) ≡ key a) → (xs : List A) → map key (map f xs) ≡ map key xs
  map-key f same [] = refl
  map-key f same (x ∷ xs) = ap₂ ◌∷◌ (same x) (map-key f same xs)

  -- What a filter drops, its complement keeps: seen as a map, if the keys are distinct.
  pub lookup-filter-not :
      (k : K) (p : A → Bool) (xs : List A)
      → Distinct (map key xs)
      → lookup key k (filter (λ x. not (p x)) xs)
        ≡ (if includes (map key (filter p xs)) k then none else lookup key k xs)
  lookup-filter-not k p [] d = refl
  lookup-filter-not k p (x ∷ xs) d = ground (
    arith,
    lookup-filter-not k p xs d.1,
    lookup-none key k xs,
    ==_eq (key x) k,
    includes-filter key (key x) p xs d.0,
  )

  -- The map after an element with a new key is added.
  pub lookup-push :
      (k : K) (xs : List A) (b : A)
      → lookup key (key b) xs ≡ none
      → lookup key k (xs ++ b ∷ []) ≡ (if key b == k then some b else lookup key k xs)
  lookup-push k xs b h = lookup-append key k xs (b ∷ []) ∙ (elim (Bool-cases (key b == k)) [
    | inl t ↦
        rw t
          (ap (λ o. or_else o (some b)) (ap (λ j. lookup key j xs) (sym (==_eq (key b) k t)) ∙ h))
    | inr f ↦ rw f (or_else-none (lookup key k xs))
  ])

  -- The map after the elements with the key of `old` are removed.
  pub lookup-remove :
      (j k : K) (xs : List A) (old : A)
      → lookup key j xs ≡ some old
      → lookup key k (filter (λ x. not (key x == j)) xs)
        ≡ (if key old == k then none else lookup key k xs)
  lookup-remove j k xs old h =
      lookup-filter_key key j k xs
      ∙ ap (λ i. if i == k then none else lookup key k xs) (sym (lookup-key key j xs h))

  -- To remove a key that is not there changes nothing.
  pub filter_key-absent :
      (k : K) (xs : List A)
      → includes (map key xs) k ≡ false
      → filter (λ x. not (key x == k)) xs ≡ xs
  filter_key-absent k [] h = refl
  filter_key-absent k (x ∷ xs) h = ground (arith, filter_key-absent k xs)

  pub find_index_of_absent :
      (k : K) (xs : List A) → lookup key k xs ≡ none → find_index (λ x. key x == k) xs ≡ none
  find_index_of_absent k xs h = elim (Option-cases (find_index (λ x. key x == k) xs)) [
    | inl n ↦ n
    | inr ((i, a), s) ↦
        let found = find_index-find key (λ x. key x == k) xs s in absurd (ground arith)
  ]
