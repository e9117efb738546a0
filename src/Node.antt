-- ===== src/Node.antt =====
-- apps/orchestrator/src/v2/catalyst-service.ts: the node's own token, which the auth service mints
-- and which an hourly check renews. The auth service is an argument: what it answers to each attempt.
-- The times are milliseconds; `TOKEN_TTL_MS * 0.8` is a whole number.
pub mod State
mod Renewal
mod Tests
use catalyst_router.Prelude.{
  ℕ, zero, suc, ◌+◌, ◌-◌, ◌*◌, String, Bool, true, false, not, ◌||◌, Option, none, some, leb, ◌&&◌,
  nat_beq, if◌then◌else◌,
}

abbrev pub token_ttl_ms : ℕ
token_ttl_ms = 604800000

abbrev pub refresh_check_interval : ℕ
refresh_check_interval = 3600000

abbrev pub mint_token_max_attempts : ℕ
mint_token_max_attempts = 5

-- What an attempt gets: the token and the time then, or an error that is thrown.
pub data Minted : Type 0 where
  minted : (token : String) → (now : ℕ) → Minted
  refused : (error : String) → Minted

-- `service_token` is the token that the running service was told last.
pub record NodeToken : Type 0 where
  pub node_token : Option String
  pub token_issued_at : Option ℕ
  pub token_expires_at : Option ℕ
  pub is_running : Bool
  pub service_token : Option String

pub data MintResult : Type 0 where
  returned : MintResult
  thrown : (error : String) → MintResult

abbrev pub keep_token : NodeToken → String → ℕ → NodeToken
keep_token s token now = record {
  node_token = some token;
  token_issued_at = some now;
  token_expires_at = some (now + token_ttl_ms);
  is_running = s.is_running;
  service_token = if s.is_running then some token else s.service_token;
}

-- One attempt, and what remains of the loop if it does not throw.
abbrev pub attempt_mint :
    Minted → NodeToken → (NodeToken → NodeToken × MintResult) → NodeToken × MintResult
attempt_mint (minted token now) s rest = rest (keep_token s token now)
attempt_mint (refused e) s rest = (s, thrown e)

-- The `for` loop, with the number of the attempt and the attempts that are left.
unfoldable pub mint_loop : (ℕ → Minted) → ℕ → ℕ → NodeToken → NodeToken × MintResult
mint_loop auth attempt zero s = (s, returned)
mint_loop auth attempt (suc left) s =
    attempt_mint (auth attempt) s (mint_loop auth (attempt + 1) left)

-- `mintNodeToken`, if auth is configured.
unfoldable pub mint_node_token : Bool → (ℕ → Minted) → NodeToken → NodeToken × MintResult
unfolding mint_loop
mint_node_token has_auth auth s =
    if has_auth then mint_loop auth 1 mint_token_max_attempts s else (s, returned)

-- `now >= issuedAt + (expiresAt - issuedAt) * 0.8`, without fractions; a time that is 0 or missing
-- is falsy.
abbrev pub is_due : ℕ → Option ℕ → Option ℕ → Bool
is_due now (some i) (some e) =
    not (nat_beq i 0) && (not (nat_beq e 0) && leb (i * 10 + (e - i) * 8) (now * 10))
is_due now _ _ = false

-- `refreshNodeTokenIfNeeded`
unfoldable pub refresh_node_token : Bool → (ℕ → Minted) → ℕ → NodeToken → NodeToken × MintResult
unfolding mint_node_token
refresh_node_token has_auth auth now s =
    if not has_auth || not (is_due now s.token_issued_at s.token_expires_at)
    then (s, returned)
    else mint_node_token has_auth auth s
