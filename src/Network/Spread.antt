-- ===== src/Network/Spread.antt =====
-- An advertisement passes each node once at most, so that it stops.
use catalyst_router.Prelude.{
  ℕ, suc, ◌≤◌, ◌<◌, String, true, false, not, ◌≡◌, refl, sym, ap, subst, ◌∙◌, List, [], ◌∷◌, arith,
  All, All-get, includes, length, filter, Distinct, ◌==◌, string_key, ==_eq, ==_comm,
  length-filter-le,
}
use catalyst_router.Action.{UpdateItem}
use catalyst_router.Bus.Config.{Config}
use catalyst_router.Network.{Journey, Carries}
use catalyst_router.Network.Relays.{
  IsAdvert, IsRelay-IsAdvert, plan-IsFree, build_updates-IsRelay, sync_updates-IsAdvert,
}

-- The names other than one.
abbrev without : String → List String → List String
without x names = filter (λ n. not (n == x)) names

without-shorter :
    (x : String) (names : List String)
    → includes names x ≡ true
    → length (without x names) < length names
without-shorter x [] h = absurd (ground arith)
without-shorter x (n ∷ names) h =
    ground (arith, without-shorter x names, length-filter-le (λ m. not (m == x)) names)

without-keeps :
    (x y : String) (names : List String)
    → (x == y) ≡ false
    → includes names y ≡ true
    → includes (without x names) y ≡ true
without-keeps x y [] n h = h
without-keeps x y (m ∷ names) n h = ground (arith, without-keeps x y names, ==_eq m x, ==_eq m y)

abbrev Within : List String → List String → Type 0
Within names = All (λ n. includes names n ≡ true)

Within-without :
    (x : String) (xs names : List String)
    → includes xs x ≡ false
    → Within names xs
    → Within (without x names) xs
Within-without x [] names n w = tt
Within-without x (y ∷ ys) names n w = (
  without-keeps x y names (==_comm x y ∙ ground arith) w.0,
  Within-without x ys names (ground arith) w.1,
)

-- Distinct names from a list are no more than the list.
length-distinct :
    (xs names : List String) → Distinct xs → Within names xs → length xs ≤ length names
length-distinct [] names d w = omega arith
length-distinct (x ∷ xs) names d w =
    let rest = length-distinct xs (without x names) d.1 (Within-without x xs names d.0 w.1) in
    let fewer = without-shorter x names w.0 in omega arith

-- The path after some hops: distinct nodes of the list, one for each hop and one for the origin.
abbrev IsSimple : List String → ℕ → UpdateItem → Type 0
IsSimple names hops u =
    Distinct u.node_path × Within names u.node_path × (length u.node_path ≡ suc hops)

tail-same : (x y : String) (xs ys : List String) → x ∷ xs ≡ y ∷ ys → xs ≡ ys
tail-same x y xs ys h = cc

advert-IsSimple :
    (names : List String) (hops : ℕ) (c : Config) (item next : UpdateItem)
    → includes names c.node_name ≡ true
    → IsSimple names hops item
    → IsAdvert c next
    → Carries item next
    → IsSimple names (suc hops) next
advert-IsSimple names hops c item next n (d, w, l) (path, e, f) (node, e2) =
    let same : path ≡ item.node_path = tail-same c.node_name node path _ (sym e ∙ e2) in
    let told : next.node_path ≡ c.node_name ∷ item.node_path = e ∙ ap (λ p. c.node_name ∷ p) same in
    subst (λ p. Distinct p × Within names p × (length p ≡ suc (suc hops))) (sym told)
      ((subst (λ p. includes p c.node_name ≡ false) same f, d), (n, w), ap suc l)

journey-IsSimple :
    {names : List String} {hops : ℕ} {u : UpdateItem} → Journey names hops u → IsSimple names hops u
journey-IsSimple (Journey.departs c r n) = ((refl, tt), (n, tt), refl)
journey-IsSimple {names} (Journey.relayed {hops} {item} {next} clock c d state peer n j m t a k) =
    advert-IsSimple names hops c item next n (journey-IsSimple j)
      (IsRelay-IsAdvert c peer next a
        (All-get _ _ (build_updates-IsRelay c peer _ (plan-IsFree clock c.node_name d state)) t))
      k
journey-IsSimple {names} (Journey.synced {hops} {item} {next} c state peer n j v t k) =
    advert-IsSimple names hops c item next n (journey-IsSimple j)
      (All-get _ _ (sync_updates-IsAdvert c peer state v.loop_free) t) k

-- Among nodes whose names are in a list, an advertisement has made fewer hops than there are names
-- when it stops: no node sends it twice, and its path, whose nodes are distinct, has one name for
-- each hop and one for the node that it comes from.
pub journey-bounded :
    (names : List String) (hops : ℕ) (u : UpdateItem)
    → Journey names hops u
    → (hops < length names) × Distinct u.node_path × (length u.node_path ≡ suc hops)
journey-bounded names hops u j =
    let (d, w, l) = journey-IsSimple j in
    let few = length-distinct u.node_path names d w in (omega arith, d, l)
