-- ===== src/Keys.antt =====
-- packages/authorization/src/key-manager/persistent.ts: the signing keys of a node, with the key store
-- (key-manager/index.ts) as the key set that was saved last. Telemetry is left out. `jose` is a
-- parameter; a signed token's key is what its `kid` resolves to.
mod Rotation
mod History
mod Crash
mod Tests
use catalyst_router.Prelude.{
  ℕ, zero, suc, String, Bool, true, false, ◌≡◌, ◌+◌, List, [], ◌∷◌, ◌++◌, map, Option, none, some,
  find, or_else, if◌then◌else◌, ◌==◌, string_key,
}

-- Key pairs and their exported form. An exported private key imports as itself.
pub record Jose (K M : Type 0) : Type 0 where
  pub export_jwk : K → M
  pub import_jwk : M → K
  pub thumbprint : K → String
  pub import-export : (k : K) → import_jwk (export_jwk k) ≡ k

pub record ManagedKey (K : Type 0) : Type 0 where
  pub key_pair : K
  pub kid : String
  pub created_at : ℕ
  pub expires_at : Option ℕ

pub record SavedKey (M : Type 0) : Type 0 where
  pub jwk : M
  pub saved_kid : String
  pub iat : Option ℕ
  pub exp : Option ℕ

pub record KeyManager (K M : Type 0) : Type 0 where
  pub current_key : Option (ManagedKey K)
  pub previous_keys : List (ManagedKey K)
  pub initialized : Bool
  pub saved : Option (List (SavedKey M))

pub record RotationResult : Type 0 where
  pub previous_key_id : String
  pub new_key_id : String
  pub grace_period_ends_at : Option ℕ

pub record RotateOptions : Type 0 where
  pub immediate : Option Bool
  pub grace_period_ms : Option ℕ

abbrev pub new_manager : {K M : Type 0} → Option (List (SavedKey M)) → KeyManager K M
new_manager saved = record {
  current_key = none;
  previous_keys = [];
  initialized = false;
  saved = saved;
}

-- A time in a condition: 0 is falsy.
abbrev pub given_time : Option ℕ → Option ℕ
given_time none = none
given_time (some zero) = none
given_time (some (suc n)) = some (suc n)

abbrev pub default_grace_period_ms : ℕ
default_grace_period_ms = 86400000

abbrev pub time_or : ℕ → Option ℕ → ℕ
time_or other none = other
time_or other (some t) = t

abbrev pub is_immediate : Option Bool → Bool
is_immediate none = false
is_immediate (some b) = b

abbrev pub current_list : {K : Type 0} → Option (ManagedKey K) → List (ManagedKey K)
current_list none = []
current_list (some k) = k ∷ []

abbrev pub saved_list : {M : Type 0} → Option (List (SavedKey M)) → List (SavedKey M)
saved_list none = []
saved_list (some js) = js

abbrev pub key_of : {K : Type 0} → Option (ManagedKey K) → Option K
key_of none = none
key_of (some k) = some k.key_pair

module _ {K M : Type 0} where
  -- The keys in the order in which they are saved and published.
  abbrev pub all_keys : KeyManager K M → List (ManagedKey K)
  all_keys m = current_list m.current_key ++ m.previous_keys

  -- The key that `verify` checks a token's signature with, by the `kid` of the token's header.
  unfoldable pub find_key : KeyManager K M → String → Option K
  find_key m kid = key_of (find (λ k. k.kid == kid) (all_keys m))

  -- `getJwks`
  abbrev pub get_jwks : KeyManager K M → List (K × String)
  get_jwks m = map (λ k. (k.key_pair, k.kid)) (all_keys m)

  abbrev pub shutdown : KeyManager K M → KeyManager K M
  shutdown m = record m { current_key = none; previous_keys = []; initialized = false }

module _ {K M : Type 0} (jose : Jose K M) where
  abbrev pub save_key : ManagedKey K → SavedKey M
  save_key k = record {
    jwk = jose.export_jwk k.key_pair;
    saved_kid = k.kid;
    iat = some k.created_at;
    exp = k.expires_at;
  }

  abbrev pub persist : KeyManager K M → KeyManager K M
  persist m = record m { saved = some (map save_key (all_keys m)) }

  abbrev pub new_key : (now : ℕ) → K → ManagedKey K
  new_key now generated = record {
    key_pair = generated;
    kid = jose.thumbprint generated;
    created_at = now;
    expires_at = none;
  }

  abbrev pub generate_new_key : (now : ℕ) → K → KeyManager K M → KeyManager K M
  generate_new_key now generated m =
      persist (record m { current_key = some (new_key now generated) })

  abbrev pub load_key : (now : ℕ) → SavedKey M → ManagedKey K
  load_key now j = record {
    key_pair = jose.import_jwk j.jwk;
    kid = j.saved_kid;
    created_at = time_or now (given_time j.iat);
    expires_at = j.exp;
  }

  -- The loop over the saved keys: a key without an end is the current one.
  unfoldable pub load_keys :
      (now : ℕ)
      → List (SavedKey M)
      → Option (ManagedKey K)
      → List (ManagedKey K)
      → Option (ManagedKey K) × List (ManagedKey K)
  load_keys now [] current previous = (current, previous)
  load_keys now (j ∷ js) current previous = elim (given_time j.exp) [
    | none ↦ load_keys now js (some (load_key now j)) previous
    | some end ↦ load_keys now js current (previous ++ load_key now j ∷ [])
  ]

  -- A key is generated if none of the saved ones is current.
  abbrev pub with_current : (now : ℕ) → K → Option (ManagedKey K) → KeyManager K M → KeyManager K M
  with_current now generated none m = generate_new_key now generated m
  with_current now generated (some k) m = m

  unfoldable pub initialize : (now : ℕ) → K → KeyManager K M → KeyManager K M
  unfolding load_keys
  initialize now generated m =
      let loaded = load_keys now (saved_list m.saved) m.current_key m.previous_keys in
      let found = record m { current_key = loaded.0; previous_keys = loaded.1 } in
      if m.initialized
      then m
      else record (with_current now generated loaded.0 found) { initialized = true }

  abbrev pub rotate_from :
      Bool
      → ℕ
      → (now later : ℕ) → K
      → ManagedKey K
      → KeyManager K M
      → KeyManager K M × RotationResult
  rotate_from at_once grace now later generated old m =
      let started = generate_new_key now generated m in
      let ends = some (later + grace) in
      (
        persist (record started {
          previous_keys =
              if at_once
              then []
              else started.previous_keys ++ record old { expires_at = ends } ∷ [];
        }),
        record {
          previous_key_id = old.kid;
          new_key_id = jose.thumbprint generated;
          grace_period_ends_at = given_time (if at_once then old.expires_at else ends);
        },
      )

  -- `none` is a throw. The clock is read for the new key, and `later` for the old one.
  unfoldable pub rotate :
      (grace_option : Option ℕ)
      → RotateOptions
      → (now later : ℕ) → K
      → KeyManager K M
      → Option (KeyManager K M × RotationResult)
  rotate grace_option options now later generated m = elim m.current_key [
    | none ↦ none
    | some old ↦ some (
        rotate_from (is_immediate options.immediate)
          (time_or default_grace_period_ms (or_else options.grace_period_ms grace_option)) now later
          generated old m)
  ]
