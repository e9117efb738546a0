-- ===== src/Ports/Tests.antt =====
-- The pool of ports at concrete inputs.
use catalyst_router.Prelude.{
  ℕ, String, List, ap, arith, ◌≢◌, ◌==◌, true, ◌≡◌, refl, [], ◌∷◌, some, string_key, nat_key,
}
use catalyst_router.Samples.{two_ports}
use catalyst_router.Ports.{
  Allocator, create_port_allocator, allocate_port, release_port, get_port, no_ports_available,
}
use catalyst_router.Ports.Counts.{covers}
use catalyst_router.Ports.Laws.{
  IsBalanced, create_port_allocator-IsBalanced, allocate_port-IsBalanced,
}
use catalyst_router.Ports.Sharing.{PortCall, allocates, releases, after_calls-injective}

abbrev books_key : String
books_key = "books"

abbrev taken : Allocator
taken = create_port_allocator two_ports (("books", 10001) ∷ [])

taken-IsBalanced : IsBalanced two_ports taken
taken-IsBalanced = create_port_allocator-IsBalanced two_ports (("books", 10001) ∷ []) (refl, tt)

abbrev full : Allocator
full = (allocate_port taken "films").0

full-IsBalanced : IsBalanced two_ports full
full-IsBalanced = allocate_port-IsBalanced two_ports taken "films" taken-IsBalanced

-- A pool that is used up, and what is free after a release.
full-available : full.available ≡ []
unfolding create_port_allocator allocate_port
full-available = refl

freed-available : (release_port full "books").available ≡ 10001 ∷ []
unfolding create_port_allocator allocate_port release_port
freed-available = refl

books-port : get_port full "books" ≡ some 10001
unfolding create_port_allocator allocate_port
books-port = refl

full-no_ports_available : (allocate_port full "maps").1 ≡ no_ports_available
unfolding create_port_allocator allocate_port
full-no_ports_available = refl

abbrev first : ℕ
first = 10000

abbrev day : List PortCall
day = allocates "films" ∷ releases "books" ∷ allocates "maps" ∷ []

abbrev films : String
films = "films"

films-maps : films ≢ "maps"
films-maps e = absurd (ground (arith, ap (λ s. s == "films") e))

after_calls-injective_example :
    (first ≢ 10001) × (covers two_ports 10000 ≡ true) × (covers two_ports 10001 ≡ true)
unfolding create_port_allocator allocate_port release_port
after_calls-injective_example =
    after_calls-injective two_ports (("books", 10001) ∷ []) day "films" "maps" 10000 10001
      (refl, tt) films-maps refl refl
