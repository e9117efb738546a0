-- ===== src/Node/Renewal.antt =====
-- The node's token is renewed in time, at the price of a token for each attempt.
use catalyst_router.Prelude.{
  ℕ, zero, suc, ◌+◌, ◌*◌, ◌≤◌, ◌<◌, String, Bool, true, false, ◌&&◌, ◌≡◌, refl, List, [], ◌∷◌,
  Option, some, arith, inl, inr, Bool-cases, leb,
}
use catalyst_router.Node.{
  token_ttl_ms, refresh_check_interval, Minted, minted, refused, NodeToken, MintResult, returned,
  thrown, keep_token, attempt_mint, mint_loop, mint_node_token, is_due, refresh_node_token,
}

abbrev pub is_returned : MintResult → Bool
is_returned returned = true
is_returned (thrown e) = false

abbrev is_minted : Minted → Bool
is_minted (minted token now) = true
is_minted (refused e) = false

-- All of some attempts, from one on, get a token.
abbrev pub all_minted : (ℕ → Minted) → ℕ → ℕ → Bool
all_minted auth attempt zero = true
all_minted auth attempt (suc left) = is_minted (auth attempt) && all_minted auth (attempt + 1) left

mint_loop-needs_all :
    (auth : ℕ → Minted) (attempt left : ℕ) (s : NodeToken)
    → is_returned (mint_loop auth attempt left s).1 ≡ all_minted auth attempt left
unfolding mint_loop
mint_loop-needs_all auth attempt zero s = refl
mint_loop-needs_all auth attempt (suc left) s =
    elim (auth attempt)
      as (λ got.
        is_returned (attempt_mint got s (mint_loop auth (attempt + 1) left)).1
        ≡ (is_minted got && all_minted auth (attempt + 1) left)) [
          | minted token now ↦ mint_loop-needs_all auth (attempt + 1) left (keep_token s token now)
          | refused e ↦ refl
        ]

-- The token that the last of some attempts gets.
abbrev last_token : (ℕ → Minted) → ℕ → ℕ → Option String → Option String
last_token auth attempt zero token = token
last_token auth attempt (suc left) token = elim (auth attempt) [
  | minted later now ↦ last_token auth (attempt + 1) left (some later)
  | refused e ↦ token
]

mint_loop-last :
    (auth : ℕ → Minted) (attempt left : ℕ) (s : NodeToken)
    → (mint_loop auth attempt left s).0.node_token ≡ last_token auth attempt left s.node_token
unfolding mint_loop
mint_loop-last auth attempt zero s = refl
mint_loop-last auth attempt (suc left) s =
    elim (auth attempt)
      as (λ got. (attempt_mint got s (mint_loop auth (attempt + 1) left)).0.node_token ≡ (elim got [
        | minted later now ↦ last_token auth (attempt + 1) left (some later)
        | refused e ↦ s.node_token
      ])) [
        | minted token now ↦ mint_loop-last auth (attempt + 1) left (keep_token s token now)
        | refused e ↦ refl
      ]

-- Minting the node's token returns only if each of the five attempts gets a token: an attempt is not
-- made because the one before it failed, and an error at any of them is thrown. The token kept is that
-- of the last attempt that got one before an error.
pub mint_node_token-needs_all :
    (auth : ℕ → Minted) (s : NodeToken)
    → (is_returned (mint_node_token true auth s).1 ≡ all_minted auth 1 5)
      × ((mint_node_token true auth s).0.node_token ≡ last_token auth 1 5 s.node_token)
unfolding mint_node_token
mint_node_token-needs_all auth s = (mint_loop-needs_all auth 1 5 s, mint_loop-last auth 1 5 s)

-- A check of the token: the time, and the tokens of the auth service with the times of the attempts.
pub record Check : Type 0 where
  pub now : ℕ
  pub tokens : ℕ → String
  pub times : ℕ → ℕ

-- The auth service mints a token at each attempt.
abbrev pub mints : Check → ℕ → Minted
mints k attempt = minted (k.tokens attempt) (k.times attempt)

abbrev pub check_token : Check → NodeToken → NodeToken
check_token k s = (refresh_node_token true (mints k) k.now s).0

-- The token has not expired at a time.
abbrev pub IsLive : ℕ → NodeToken → Type 0
IsLive now s = (expiry : ℕ) × (s.token_expires_at ≡ some expiry) × (now < expiry)

-- At every check the token has not expired yet.
abbrev pub StaysLive : NodeToken → List Check → Type 0
StaysLive s [] = Unit
StaysLive s (k ∷ ks) = IsLive k.now s × StaysLive (check_token k s) ks

-- A check comes an hour after the one before it at most, and the last attempt not before the check.
abbrev pub IsHourly : ℕ → List Check → Type 0
IsHourly before [] = Unit
IsHourly before (k ∷ ks) =
    (k.now ≤ before + refresh_check_interval)
    × (k.now ≤ k.times 5)
    × (0 < k.now)
    × IsHourly k.now ks

-- After a check, less than the share of the lifetime is over that makes the token due.
pub record IsFresh (before : ℕ) (s : NodeToken) : Type 0 where
  pub issued_at : ℕ
  pub positive : 0 < issued_at
  pub issued : s.token_issued_at ≡ some issued_at
  pub expires : s.token_expires_at ≡ some (issued_at + token_ttl_ms)
  pub early : before * 10 < issued_at * 10 + token_ttl_ms * 8

is_due-issued :
    (now i : ℕ)
    → 0 < i
    → is_due now (some i) (some (i + token_ttl_ms)) ≡ leb (i * 10 + token_ttl_ms * 8) (now * 10)
is_due-issued now i h = ground arith

mint-IsFresh :
    (k : Check) (s : NodeToken)
    → k.now ≤ k.times 5
    → 0 < k.now
    → IsFresh k.now (mint_node_token true (mints k) s).0
unfolding mint_node_token mint_loop
mint-IsFresh k s later h = record {
  issued_at = k.times 5;
  positive = omega arith;
  issued = refl;
  expires = refl;
  early = omega arith;
}

check-IsFresh :
    (before : ℕ) (k : Check) (s : NodeToken)
    → k.now ≤ k.times 5
    → 0 < k.now
    → IsFresh before s
    → IsFresh k.now (refresh_node_token true (mints k) k.now s).0
unfolding refresh_node_token
check-IsFresh before k s later h fresh =
    let due : is_due k.now s.token_issued_at s.token_expires_at
        ≡ leb (fresh.issued_at * 10 + token_ttl_ms * 8) (k.now * 10) =
      rw (fresh.issued, fresh.expires) (is_due-issued k.now fresh.issued_at fresh.positive) in
    elim (Bool-cases (is_due k.now s.token_issued_at s.token_expires_at)) [
      | inl old ↦ rw (old, refresh_node_token) (mint-IsFresh k s later h)
      | inr young ↦
          rw (young, refresh_node_token)
            (record {
              issued_at = fresh.issued_at;
              positive = fresh.positive;
              issued = fresh.issued;
              expires = fresh.expires;
              early = ground arith;
            })
    ]

-- Checks at most an hour apart, with an auth service that answers each attempt, find a token that
-- has not expired, each of them, if it was so young at the last check before them as a check leaves
-- it.
pub check_token-StaysLive :
    (before : ℕ) (ks : List Check) (s : NodeToken)
    → IsHourly before ks
    → IsFresh before s
    → StaysLive s ks
check_token-StaysLive before [] s t fresh = tt
check_token-StaysLive before (k ∷ ks) s (soon, later, positive, rest) fresh = (
  (fresh.issued_at + token_ttl_ms, fresh.expires, omega (arith, fresh.early)),
  check_token-StaysLive k.now ks (check_token k s) rest
      (check-IsFresh before k s later positive fresh),
)
