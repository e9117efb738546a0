-- ===== src/Keys/Tests.antt =====
-- Three keys, a graceful rotation, a restart and an immediate rotation.
use catalyst_router.Prelude.{
  ℕ, true, false, not, ◌≡◌, refl, List, [], ◌∷◌, none, some, ◌||◌, ◌&&◌, ◌==◌, string_key, any, All,
  arith, if◌then◌else◌, nat_beq,
}
use catalyst_router.Keys.{
  Jose, RotateOptions, find_key, initialize, load_keys, rotate, is_immediate,
}
use catalyst_router.Keys.Rotation.{IsTime}
use catalyst_router.Keys.History.{
  KeyEvent, rotated, restarted, HasTimes, resolves, run, life, named, state_or, life-resolves,
  life-rotate,
}
use catalyst_router.Keys.Crash.{interrupted, life-interrupted}

-- A key pair is a number, exported as itself.
abbrev digits : Jose ℕ ℕ
digits = record {
  export_jwk = λ k. k;
  import_jwk = λ j. j;
  thumbprint = λ k. if nat_beq k 1 then "one" else (if nat_beq k 2 then "two" else "three");
  import-export = λ k. refl;
}

abbrev gracefully : RotateOptions
gracefully = record { immediate = none; grace_period_ms = some 60000 }

abbrev at_once : RotateOptions
at_once = record { immediate = some true; grace_period_ms = none }

abbrev past : List (KeyEvent ℕ)
past = rotated none gracefully 1000 1001 2 ∷ []

-- The grace period is over after the restart.
abbrev future : List (KeyEvent ℕ)
future = restarted 900000 7 ∷ []

first-IsTime : IsTime 1
first-IsTime = omega arith

past-HasTimes : All HasTimes past
past-HasTimes = ((omega arith, omega arith), tt)

-- The first key is accepted long after its end.
life-resolves_example : resolves (run digits future (life digits 1 1 past)) "one" ≡ true
unfolding run find_key initialize load_keys rotate
life-resolves_example =
    life-resolves digits 1 1 past future "one" first-IsTime past-HasTimes (tt, tt) (refl, tt) refl

-- The current key is lost if the node stops between the saves, and the one before it is not.
life-interrupted_example :
    resolves (interrupted digits 2000 3000 3 7 (life digits 1 1 past)) "two"
    ≡ digits.thumbprint 3 == "two" || any (named digits "two") (life digits 1 1 past).previous_keys
life-interrupted_example =
    life-interrupted digits 1 2000 3000 1 3 7 past "two" first-IsTime (omega arith) past-HasTimes

interrupted-lost : resolves (interrupted digits 2000 3000 3 7 (life digits 1 1 past)) "two" ≡ false
unfolding run find_key initialize load_keys rotate
interrupted-lost = refl

immediate-lost :
    resolves (run digits (rotated none at_once 2000 2001 3 ∷ []) (life digits 1 1 past)) "one"
    ≡ false
unfolding run find_key initialize load_keys rotate
immediate-lost = refl

life-rotate_example :
    resolves
      (state_or
        (life digits 1 1 past)
        (rotate digits none gracefully 2000 2001 3 (life digits 1 1 past)))
      "one"
    ≡ digits.thumbprint 3 == "one"
      || not (is_immediate gracefully.immediate) && resolves (life digits 1 1 past) "one"
life-rotate_example =
    life-rotate digits 1 2000 2001 1 3 past none gracefully "one" first-IsTime past-HasTimes
