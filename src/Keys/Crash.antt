-- ===== src/Keys/Crash.antt =====
-- `rotate` of packages/authorization/src/key-manager/persistent.ts saves twice: in `generateNewKey`, and
-- at its end. A node that stops in between starts again from the first save.
use catalyst_router.Prelude.{ℕ, String, ◌≡◌, refl, ap, ◌∙◌, List, ◌||◌, ◌==◌, string_key, any, All}
use catalyst_router.Keys.{Jose, KeyManager, generate_new_key, new_key, initialize, new_manager}
use catalyst_router.Keys.Rotation.{IsTime, IsKept, initialize-shutdown, first-IsKept}
use catalyst_router.Keys.History.{
  KeyEvent, HasTimes, resolves, resolves-any, run-IsKept, life, named,
}

module _ {K M : Type 0} (jose : Jose K M) where
  abbrev pub interrupted : (now again : ℕ) (generated other : K) → KeyManager K M → KeyManager K M
  interrupted now again generated other m =
      initialize jose again other (new_manager (generate_new_key jose now generated m).saved)

  halfway-IsKept :
      (now : ℕ) (generated : K) (m : KeyManager K M)
      → IsTime now
      → IsKept jose m
      → IsKept jose (generate_new_key jose now generated m)
  halfway-IsKept now generated m h k = record {
    held = new_key jose now generated;
    held-current = refl;
    held-open = refl;
    held-made = h;
    retired = k.retired;
    ready = k.ready;
    kept = refl;
  }

  interrupted-resolves :
      (now again : ℕ) (generated other : K) (m : KeyManager K M) (kid : String)
      → IsTime now
      → IsKept jose m
      → resolves (interrupted now again generated other m) kid
        ≡ jose.thumbprint generated == kid || any (named jose kid) m.previous_keys
  interrupted-resolves now again generated other m kid h k =
      ap (λ n. resolves n kid)
        (initialize-shutdown jose again other (generate_new_key jose now generated m)
          (halfway-IsKept now generated m h k))
      ∙ resolves-any jose (generate_new_key jose now generated m) kid (new_key jose now generated)
          refl

-- After a first start on an empty store and any history, at times that are not 0, let a node stop in
-- a rotation between its two saves, graceful or not, and start again. Then a `kid` resolves only if
-- it is that of the new key or of a key that was retired before: that of the key that was current
-- is lost, unless it is one of those.
pub life-interrupted :
    {K M : Type 0} (jose : Jose K M) (start now again : ℕ) (first generated other : K)
    (es : List (KeyEvent K)) (kid : String)
    → IsTime start
    → IsTime now
    → All HasTimes es
    → resolves (interrupted jose now again generated other (life jose start first es)) kid
      ≡ jose.thumbprint generated == kid
        || any (named jose kid) (life jose start first es).previous_keys
life-interrupted jose start now again first generated other es kid h n hs =
    interrupted-resolves jose now again generated other (life jose start first es) kid n
      (run-IsKept jose es _ hs (first-IsKept jose start first h))
