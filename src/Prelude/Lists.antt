-- ===== src/Prelude/Lists.antt =====
-- The array methods of the source over lists, measured and indexed by native numbers.
use Prim.Native.Nat.{ℕ, zero, suc, ◌+◌, ◌≤◌}
use mathlib.Core.Path.{◌≡◌, refl, sym, subst}
use mathlib.Core.Logic.{◌⊎◌, inl, inr}
use mathlib.Core.Bool.{Bool, false, ◌||◌}
use mathlib.Core.Option.{Option, none, some}
use mathlib.Core.List.{List, [], ◌∷◌, ◌++◌, map, Memᴰ}
use native.Mathlib.Omega.{arith}
use catalyst_router.Prelude.Bools.{if◌then◌else◌, Key, ◌==◌}

module _ {ℓ} {A : Type ℓ} where
  abbrev pub length : List A → ℕ
  length [] = 0
  length (x ∷ xs) = suc (length xs)

  -- `xs.some(p)`
  abbrev pub any : (A → Bool) → List A → Bool
  any p [] = false
  any p (x ∷ xs) = p x || any p xs

  -- `xs.filter(p)`
  abbrev pub filter : (A → Bool) → List A → List A
  filter p [] = []
  filter p (x ∷ xs) = if p x then x ∷ filter p xs else filter p xs

  -- `xs.find(p)`
  abbrev pub find : (A → Bool) → List A → Option A
  find p [] = none
  find p (x ∷ xs) = if p x then some x else find p xs

  -- `const i = xs.findIndex(p)` with `xs[i]`; `none` is the index -1
  abbrev pub shift : Option (ℕ × A) → Option (ℕ × A)
  shift none = none
  shift (some (i, a)) = some (suc i, a)

  abbrev pub find_index : (A → Bool) → List A → Option (ℕ × A)
  find_index p [] = none
  find_index p (x ∷ xs) = if p x then some (0, x) else shift (find_index p xs)

  -- `xs.map((x, j) => (j === i ? y : x))`
  abbrev pub set : List A → ℕ → A → List A
  set [] i y = []
  set (x ∷ xs) zero y = y ∷ xs
  set (x ∷ xs) (suc i) y = x ∷ set xs i y

-- `xs.includes(a)`
module _ {ℓ} {A : Type ℓ} ⦃e : Key A⦄ where
  abbrev pub includes : List A → A → Bool
  includes [] a = false
  includes (x ∷ xs) a = x == a || includes xs a

-- A predicate by recursion, which the tactics take apart and build.
abbrev pub All {ℓ κ} : {A : Type ℓ} → (A → Type κ) → List A → Type κ
All P [] = Unit
All P (x ∷ xs) = P x × All P xs

module _ {ℓ} {A : Type ℓ} where
  pub length-append : (xs ys : List A) → length (xs ++ ys) ≡ length xs + length ys
  length-append [] ys = omega arith
  length-append (x ∷ xs) ys = omega (arith, length-append xs ys)

  pub length-filter-le : (p : A → Bool) (xs : List A) → length (filter p xs) ≤ length xs
  length-filter-le p [] = omega arith
  length-filter-le p (x ∷ xs) = ground (arith, length-filter-le p xs)

  -- A filter that drops nothing drops no element.
  pub filter_all :
      (p : A → Bool) (xs : List A) → length (filter p xs) ≡ length xs → filter p xs ≡ xs
  filter_all p [] h = refl
  filter_all p (x ∷ xs) h = ground (arith, filter_all p xs, length-filter-le p xs)

module _ {ℓ κ} {A : Type ℓ} (P : A → Type κ) where
  pub All-append : (xs ys : List A) → All P xs → All P ys → All P (xs ++ ys)
  All-append [] ys h k = k
  All-append (x ∷ xs) ys h k = (h.0, All-append xs ys h.1 k)

  pub All-filter : (p : A → Bool) (xs : List A) → All P xs → All P (filter p xs)
  All-filter p [] h = tt
  All-filter p (x ∷ xs) h = ground (arith, All-filter p xs h.1)

  pub All-set : (xs : List A) (i : ℕ) (y : A) → All P xs → P y → All P (set xs i y)
  All-set [] i y h k = tt
  All-set (x ∷ xs) zero y h k = (k, h.1)
  All-set (x ∷ xs) (suc i) y h k = (h.0, All-set xs i y h.1 k)

  pub All-map {μ} :
      {B : Type μ} (f : B → A) (xs : List B) → All (λ b. P (f b)) xs → All P (map f xs)
  All-map f [] h = tt
  All-map f (x ∷ xs) h = (h.0, All-map f xs h.1)

  -- What holds of all elements holds of each, and conversely.
  pub All-get : (xs : List A) {x : A} → All P xs → Memᴰ x xs → P x
  All-get [] h m = elim m [ ]
  All-get (y ∷ xs) h (Memᴰ.head e) = subst P (sym e) h.0
  All-get (y ∷ xs) h (Memᴰ.tail m) = All-get xs h.1 m

  pub All-mem : (xs : List A) → ((x : A) → Memᴰ x xs → P x) → All P xs
  All-mem [] h = tt
  All-mem (x ∷ xs) h = (h x (Memᴰ.head refl), All-mem xs (λ y m. h y (Memᴰ.tail m)))

module _ {ℓ} {A : Type ℓ} where
  pub length-zero : (xs : List A) → length xs ≤ 0 → xs ≡ []
  length-zero [] h = refl
  length-zero (x ∷ xs) h = absurd (omega (arith, h))

  -- What stands in a list of one element stands alone.
  pub alone :
      (before later : List A) (a : A)
      → length (before ++ a ∷ later) ≤ 1
      → (before ≡ []) × (later ≡ [])
  alone before later a h =
      let l = length-append before (a ∷ later) in
      (length-zero before (omega (arith, l, h)), length-zero later (omega (arith, l, h)))

module _ {ℓ κ} {A : Type ℓ} (P : A → Type κ) where
  pub All-mid : (xs ys : List A) (a : A) → All P (xs ++ a ∷ ys) → P a
  All-mid [] ys a h = h.0
  All-mid (x ∷ xs) ys a h = All-mid xs ys a h.1

pub List-cases {ℓ} :
    {A : Type ℓ} (xs : List A) → (xs ≡ []) ⊎ ((x : A) × (rest : List A) × (xs ≡ x ∷ rest))
List-cases [] = inl refl
List-cases (x ∷ xs) = inr (x, xs, refl)
