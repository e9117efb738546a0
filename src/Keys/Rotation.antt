-- ===== src/Keys/Rotation.antt =====
-- Rotations and restarts of the key manager of packages/authorization/src/key-manager/persistent.ts.
use catalyst_router.Prelude.{
  ℕ, zero, suc, Bool, true, false, ◌≡◌, ◌≤◌, refl, sym, ap, ap₂, ◌∙◌, ◌+◌, List, [], ◌∷◌, ◌++◌, map,
  Option, none, some, is_some, All, All-append, append_assoc, append-nil, if◌then◌else◌, string_key,
  arith, inl, inr, Option-cases,
}
use catalyst_router.Keys.{
  Jose, ManagedKey, KeyManager, given_time, all_keys, current_list, shutdown, save_key, load_key,
  load_keys, new_key, initialize, rotate_from, time_or, new_manager, saved_list, with_current,
}

-- A time that is not 0.
abbrev pub IsTime : ℕ → Type 0
IsTime t = 1 ≤ t

IsTime_lem : (t : ℕ) → IsTime t → given_time (some t) ≡ some t
IsTime_lem zero h = absurd (omega (arith, h))
IsTime_lem (suc t) h = refl

-- A key that is no longer current: it has an end.
pub record IsRetired {K : Type 0} (k : ManagedKey K) : Type 0 where
  pub made : IsTime k.created_at
  pub ends : is_some (given_time k.expires_at) ≡ true

-- A manager that has a current key and whose saved keys are its keys.
pub record IsKept {K M : Type 0} (jose : Jose K M) (m : KeyManager K M) : Type 0 where
  pub held : ManagedKey K
  pub held-current : m.current_key ≡ some held
  pub held-open : given_time held.expires_at ≡ none
  pub held-made : IsTime held.created_at
  pub retired : All IsRetired m.previous_keys
  pub ready : m.initialized ≡ true
  pub kept : m.saved ≡ some (map (save_key jose) (all_keys m))

module _ {K M : Type 0} (jose : Jose K M) where
  load-save :
      (now : ℕ) (k : ManagedKey K) → IsTime k.created_at → load_key jose now (save_key jose k) ≡ k
  load-save now k h =
      ap₂ (λ p t. record k { key_pair = p; created_at = t }) (jose.import-export k.key_pair)
        (ap (time_or now) (IsTime_lem k.created_at h))

  load_retired :
      (now : ℕ) (ks : List (ManagedKey K)) (current : Option (ManagedKey K))
      (previous : List (ManagedKey K))
      → All IsRetired ks
      → load_keys jose now (map (save_key jose) ks) current previous ≡ (current, previous ++ ks)
  unfolding load_keys
  load_retired now [] current previous h = ap (λ x. (current, x)) (sym (append-nil previous))
  load_retired now (k ∷ ks) current previous h = elim (Option-cases (given_time k.expires_at)) [
    | inl e ↦ absurd (false-true (sym (ap is_some e) ∙ h.0.ends))
    | inr (end, e) ↦ rw e (
        ap (λ x. load_keys jose now (map (save_key jose) ks) current (previous ++ x ∷ []))
          (load-save now k h.0.made)
        ∙ load_retired now ks current (previous ++ k ∷ []) h.1
        ∙ ap (λ x. (current, x)) (append_assoc previous (k ∷ []) ks))
  ]
    where
      false-true : false ≡ true → ⊥
      false-true e = ground (arith, e)

  load_kept :
      (now : ℕ) (m : KeyManager K M) (k : IsKept jose m)
      → load_keys jose now (saved_list m.saved) none [] ≡ (some k.held, m.previous_keys)
  unfolding load_keys
  load_kept now m k =
      ap (λ s. load_keys jose now (saved_list s) none []) k.kept
      ∙ ap
          (λ c.
            load_keys jose now (map (save_key jose) (current_list c ++ m.previous_keys)) none [])
          k.held-current
      ∙ ap
          (λ (o : Option ℕ). elim o [
            | none ↦
                load_keys jose now (map (save_key jose) m.previous_keys)
                  (some (load_key jose now (save_key jose k.held))) []
            | some end ↦
                load_keys jose now (map (save_key jose) m.previous_keys) none
                  (load_key jose now (save_key jose k.held) ∷ [])
          ])
          k.held-open
      ∙ load_retired now m.previous_keys (some (load_key jose now (save_key jose k.held))) []
          k.retired
      ∙ ap (λ x. (some x, m.previous_keys)) (load-save now k.held k.held-made)

  -- A restart reads back what there was.
  pub initialize-shutdown :
      (now : ℕ) (generated : K) (m : KeyManager K M)
      → IsKept jose m
      → initialize jose now generated (shutdown m) ≡ m
  unfolding initialize
  initialize-shutdown now generated m k =
      ap
        (λ (l : Option (ManagedKey K) × List (ManagedKey K)).
          record (with_current jose now generated l.0
            (record (shutdown m) { current_key = l.0; previous_keys = l.1 })) {
              initialized = true;
            })
        (load_kept now m k)
      ∙ ap₂ (λ c i. record m { current_key = c; initialized = i }) (sym k.held-current)
          (sym k.ready)

  -- A first start on an empty store.
  pub first-IsKept :
      (now : ℕ) (generated : K)
      → IsTime now
      → IsKept jose (initialize jose now generated (new_manager none))
  unfolding initialize load_keys
  first-IsKept now generated h = record {
    held = new_key jose now generated;
    held-current = refl;
    held-open = refl;
    held-made = h;
    retired = tt;
    ready = refl;
    kept = refl;
  }

  pub rotate_from-IsKept :
      (at_once : Bool) (grace now later : ℕ) (generated : K) (m : KeyManager K M)
      → IsTime now
      → IsTime later
      → (k : IsKept jose m)
      → IsKept jose (rotate_from jose at_once grace now later generated k.held m).0
  rotate_from-IsKept at_once grace now later generated m h l k = record {
    held = new_key jose now generated;
    held-current = refl;
    held-open = refl;
    held-made = h;
    retired = kept_keys at_once;
    ready = k.ready;
    kept = refl;
  }
    where
      ended : is_some (given_time (some (later + grace))) ≡ true
      ended = ap is_some (IsTime_lem (later + grace) (omega (arith, l)))

      kept_keys :
          (b : Bool)
          → All IsRetired (
              if b
              then []
              else m.previous_keys ++ record k.held { expires_at = some (later + grace) } ∷ [])
      kept_keys true = tt
      kept_keys false =
          All-append IsRetired m.previous_keys _ k.retired
            (record { made = k.held-made; ends = ended }, tt)
