-- ===== src/Node/Tests.antt =====
-- A node that starts without a token and checks it twice.
use catalyst_router.Prelude.{
  ℕ, ◌+◌, true, false, ◌≡◌, refl, List, [], ◌∷◌, if◌then◌else◌, nat_beq, none, some, arith,
}
use catalyst_router.Node.{NodeToken, Minted, minted, refused, mint_node_token}
use catalyst_router.Node.Renewal.{
  is_returned, mint_node_token-needs_all, Check, IsFresh, StaysLive, check_token-StaysLive,
}

abbrev unminted : NodeToken
unminted = record {
  node_token = none;
  token_issued_at = none;
  token_expires_at = none;
  is_running = false;
  service_token = none;
}

abbrev first_check : Check
first_check = record { now = 3601000; tokens = λ i. "b"; times = λ i. 3601000 + i }

-- Nearly six days later.
abbrev held : NodeToken
held = record {
  node_token = some "a";
  token_issued_at = some 1000;
  token_expires_at = some 604801000;
  is_running = true;
  service_token = some "a";
}

held-IsFresh : IsFresh 480240000 held
held-IsFresh = record {
  issued_at = 1000;
  positive = omega arith;
  issued = refl;
  expires = refl;
  early = omega arith;
}

abbrev late_checks : List Check
late_checks =
    record { now = 483840000; tokens = λ i. "b"; times = λ i. 483840000 + i }
    ∷ record { now = 487440000; tokens = λ i. "c"; times = λ i. 487440000 + i }
    ∷ []

check_token-StaysLive_example : StaysLive held late_checks
check_token-StaysLive_example =
    check_token-StaysLive 480240000 late_checks held
      (omega arith, omega arith, omega arith, (omega arith, omega arith, omega arith, tt))
      held-IsFresh

-- The auth service fails once, at the second attempt: the token that there is already does not help.
abbrev one_failure : ℕ → Minted
one_failure i = if nat_beq i 2 then refused "unavailable" else minted "a" (1000 + i)

mint_node_token-needs_all_example :
    (is_returned (mint_node_token true one_failure unminted).1 ≡ false)
    × ((mint_node_token true one_failure unminted).0.node_token ≡ some "a")
mint_node_token-needs_all_example = mint_node_token-needs_all one_failure unminted
