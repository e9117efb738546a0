-- ===== src/Keys/History.antt =====
-- Histories of the key manager of packages/authorization/src/key-manager/persistent.ts: which keys it
-- accepts after rotations, restarts, and a stop in the middle of a rotation.
use catalyst_router.Prelude.{
  ℕ, ◌+◌, or_else, String, Bool, true, false, not, ◌≡◌, refl, sym, ap, subst, ◌∙◌, ◌&&◌, ◌||◌, List,
  [], ◌∷◌, ◌++◌, Option, none, some, is_some, find, any, All, ◌==◌, string_key, arith,
}
use catalyst_router.Keys.{
  Jose, ManagedKey, KeyManager, RotateOptions, RotationResult, all_keys, current_list, key_of,
  find_key, shutdown, time_or, initialize, rotate, rotate_from, is_immediate, new_manager,
  default_grace_period_ms,
}
use catalyst_router.Keys.Rotation.{
  IsTime, IsKept, initialize-shutdown, rotate_from-IsKept, first-IsKept,
}

-- A token with this `kid` can be verified.
abbrev pub resolves : {K M : Type 0} → KeyManager K M → String → Bool
resolves m kid = is_some (find_key m kid)

pub data KeyEvent (K : Type 0) : Type 0 where
  rotated :
      (grace_option : Option ℕ) (options : RotateOptions) (now later : ℕ) (generated : K)
      → KeyEvent K
  restarted : (now : ℕ) (generated : K) → KeyEvent K

abbrev pub HasTimes : {K : Type 0} → KeyEvent K → Type 0
HasTimes (rotated grace options now later generated) = IsTime now × IsTime later
HasTimes (restarted now generated) = Unit

abbrev pub is_graceful : {K : Type 0} → KeyEvent K → Bool
is_graceful (rotated grace options now later generated) = not (is_immediate options.immediate)
is_graceful (restarted now generated) = true

abbrev pub state_or :
    {K M : Type 0} → KeyManager K M → Option (KeyManager K M × RotationResult) → KeyManager K M
state_or m none = m
state_or m (some r) = r.0

module _ {K : Type 0} where
  any-append :
      (p : ManagedKey K → Bool) (xs ys : List (ManagedKey K))
      → any p (xs ++ ys) ≡ any p xs || any p ys
  any-append p [] ys = refl
  any-append p (x ∷ xs) ys = ground (arith, any-append p xs ys)

  find-any :
      (p : ManagedKey K → Bool) (xs : List (ManagedKey K)) → is_some (key_of (find p xs)) ≡ any p xs
  find-any p [] = refl
  find-any p (x ∷ xs) = ground (arith, find-any p xs)

module _ {K M : Type 0} (jose : Jose K M) where
  abbrev pub run_event : KeyEvent K → KeyManager K M → KeyManager K M
  run_event (rotated grace options now later generated) m =
      state_or m (rotate jose grace options now later generated m)
  run_event (restarted now generated) m = initialize jose now generated (shutdown m)

  unfoldable pub run : List (KeyEvent K) → KeyManager K M → KeyManager K M
  run [] m = m
  run (e ∷ es) m = run es (run_event e m)

  abbrev pub named : String → ManagedKey K → Bool
  named kid k = k.kid == kid

  pub resolves-any :
      (m : KeyManager K M) (kid : String) (held : ManagedKey K)
      → m.current_key ≡ some held
      → resolves m kid ≡ any (named kid) (held ∷ m.previous_keys)
  unfolding find_key
  resolves-any m kid held e =
      find-any (named kid) (all_keys m)
      ∙ ap (λ c. any (named kid) (current_list c ++ m.previous_keys)) e

  rotate_from-resolves :
      (at_once : Bool) (grace now later : ℕ) (generated : K) (m : KeyManager K M) (kid : String)
      (k : IsKept jose m)
      → resolves (rotate_from jose at_once grace now later generated k.held m).0 kid
        ≡ jose.thumbprint generated == kid || not at_once && resolves m kid
  unfolding find_key
  rotate_from-resolves true grace now later generated m kid k = ground arith
  rotate_from-resolves false grace now later generated m kid k = ground (
    arith,
    resolves-any m kid k.held k.held-current,
    find-any (named kid) (all_keys (rotate_from jose false grace now later generated k.held m).0),
    any-append (named kid) m.previous_keys
        (record k.held { expires_at = some (later + grace) } ∷ []),
  )

  rotate_kept :
      (grace_option : Option ℕ) (options : RotateOptions) (now later : ℕ) (generated : K)
      (m : KeyManager K M) (k : IsKept jose m)
      → rotate jose grace_option options now later generated m
        ≡ some (
            rotate_from jose
              (is_immediate options.immediate)
              (time_or default_grace_period_ms (or_else options.grace_period_ms grace_option))
              now
              later
              generated
              k.held
              m)
  unfolding rotate
  rotate_kept grace_option options now later generated m k =
      let grace = time_or default_grace_period_ms (or_else options.grace_period_ms grace_option) in
      let from = λ (old : ManagedKey K).
        rotate_from jose (is_immediate options.immediate) grace now later generated old m in
      ap (λ (c : Option (ManagedKey K)). elim c [ none ↦ none | some old ↦ some (from old) ])
        k.held-current

  rotate-resolves :
      (grace_option : Option ℕ) (options : RotateOptions) (now later : ℕ) (generated : K)
      (m : KeyManager K M) (kid : String)
      → IsKept jose m
      → resolves (state_or m (rotate jose grace_option options now later generated m)) kid
        ≡ jose.thumbprint generated == kid || not (is_immediate options.immediate) && resolves m kid
  rotate-resolves grace_option options now later generated m kid k =
      ap (λ r. resolves (state_or m r) kid)
        (rotate_kept grace_option options now later generated m k)
      ∙ rotate_from-resolves (is_immediate options.immediate) _ now later generated m kid k

  run_event-IsKept :
      (e : KeyEvent K) (m : KeyManager K M)
      → HasTimes e
      → IsKept jose m
      → IsKept jose (run_event e m)
  run_event-IsKept (rotated grace_option options now later generated) m h k =
      subst (λ r. IsKept jose (state_or m r))
        (sym (rotate_kept grace_option options now later generated m k))
        (rotate_from-IsKept jose (is_immediate options.immediate) _ now later generated m h.0 h.1 k)
  run_event-IsKept (restarted now generated) m h k =
      subst (IsKept jose) (sym (initialize-shutdown jose now generated m k)) k

  pub run-IsKept :
      (es : List (KeyEvent K)) (m : KeyManager K M)
      → All HasTimes es
      → IsKept jose m
      → IsKept jose (run es m)
  unfolding run
  run-IsKept [] m h k = k
  run-IsKept (e ∷ es) m h k = run-IsKept es (run_event e m) h.1 (run_event-IsKept e m h.0 k)

  event-resolves :
      (e : KeyEvent K) (m : KeyManager K M) (kid : String)
      → IsKept jose m
      → is_graceful e ≡ true
      → resolves m kid ≡ true
      → resolves (run_event e m) kid ≡ true
  event-resolves (rotated grace_option options now later generated) m kid k g h =
      ground (arith, rotate-resolves grace_option options now later generated m kid k, g, h)
  event-resolves (restarted now generated) m kid k g h =
      ap (λ n. resolves n kid) (initialize-shutdown jose now generated m k) ∙ h

  run-resolves :
      (es : List (KeyEvent K)) (m : KeyManager K M) (kid : String)
      → All HasTimes es
      → All (λ e. is_graceful e ≡ true) es
      → IsKept jose m
      → resolves m kid ≡ true
      → resolves (run es m) kid ≡ true
  unfolding run
  run-resolves [] m kid h g k r = r
  run-resolves (e ∷ es) m kid h g k r =
      run-resolves es (run_event e m) kid h.1 g.1 (run_event-IsKept e m h.0 k)
        (event-resolves e m kid k g.0 r)

-- A node: a first start on an empty store, then any rotations and restarts.
abbrev pub life : {K M : Type 0} → Jose K M → (now : ℕ) → K → List (KeyEvent K) → KeyManager K M
life jose now generated es = run jose es (initialize jose now generated (new_manager none))

-- After a first start on an empty store and any history of rotations and restarts, at times that are
-- not 0, to shut the manager down and to initialize it again, at any time, gives the manager back as
-- it was, whatever key could be generated.
pub life-initialize :
    {K M : Type 0} (jose : Jose K M) (now again : ℕ) (generated other : K) (es : List (KeyEvent K))
    → IsTime now
    → All HasTimes es
    → initialize jose again other (shutdown (life jose now generated es))
      ≡ life jose now generated es
life-initialize jose now again generated other es h hs =
    initialize-shutdown jose again other (life jose now generated es)
      (run-IsKept jose es _ hs (first-IsKept jose now generated h))

-- After a first start on an empty store and any history, every further history in which no rotation
-- is immediate, at times that are not 0 and however late, leaves each `kid` that resolves resolving:
-- no grace period ends.
pub life-resolves :
    {K M : Type 0} (jose : Jose K M) (now : ℕ) (generated : K) (es later : List (KeyEvent K))
    (kid : String)
    → IsTime now
    → All HasTimes es
    → All HasTimes later
    → All (λ e. is_graceful e ≡ true) later
    → resolves (life jose now generated es) kid ≡ true
    → resolves (run jose later (life jose now generated es)) kid ≡ true
life-resolves jose now generated es later kid h hs ls gs r =
    run-resolves jose later (life jose now generated es) kid ls gs
      (run-IsKept jose es _ hs (first-IsKept jose now generated h)) r

-- After a first start on an empty store and any history, at times that are not 0, let the manager
-- rotate, at any times. Then a `kid` resolves exactly if it is that of the new key, or if it resolved
-- before and the rotation is not an immediate one.
pub life-rotate :
    {K M : Type 0} (jose : Jose K M) (start now later : ℕ) (first generated : K)
    (es : List (KeyEvent K)) (grace_option : Option ℕ) (options : RotateOptions) (kid : String)
    → IsTime start
    → All HasTimes es
    → resolves
        (state_or
          (life jose start first es)
          (rotate jose grace_option options now later generated (life jose start first es)))
        kid
      ≡ jose.thumbprint generated == kid
        || not (is_immediate options.immediate) && resolves (life jose start first es) kid
life-rotate jose start now later first generated es grace_option options kid h hs =
    rotate-resolves jose grace_option options now later generated (life jose start first es) kid
      (run-IsKept jose es _ hs (first-IsKept jose start first h))
