-- ===== src/Timers/Interval.antt =====
-- apps/orchestrator/src/v2/tick-manager.ts. The timer is whether it runs, and with what period.
use catalyst_router.Prelude.{
  ℕ, Bool, true, ◌*◌, ◌/◌, ◌≤◌, min, max, ◌≡◌, sym, ap, subst, List, [], ◌∷◌, Option, none, some,
  filter, ltb, nat_beq, if◌then◌else◌, arith, inl, inr, List-cases, Bool-cases, Memᴰ,
}

pub record TickManager : Type 0 where
  pub timer : Option ℕ
  pub interval_ms : ℕ

unfoldable pub start : TickManager → TickManager
start t = elim t.timer [
  | some period ↦ t
  | none ↦ record { timer = some t.interval_ms; interval_ms = t.interval_ms }
]

abbrev pub stop : TickManager → TickManager
stop t = record { timer = none; interval_ms = t.interval_ms }

-- `Math.min(first, ...rest)`
pub min_of : ℕ → List ℕ → ℕ
min_of n [] = n
min_of n (m ∷ ms) = min n (min_of m ms)

abbrev pub new_interval : ℕ → List ℕ → ℕ
new_interval h hs = max 1000 (min_of h hs / 3)

abbrev restart : TickManager → TickManager
restart t = elim t.timer [ none ↦ t | some period ↦ start (stop t) ]

unfoldable pub recalculate : TickManager → List ℕ → TickManager
unfolding start
recalculate t hold_times = elim (filter (ltb 0) hold_times) [
  | [] ↦ t
  | h ∷ hs ↦
      if nat_beq (new_interval h hs) t.interval_ms
      then t
      else restart (record { timer = t.timer; interval_ms = new_interval h hs })
]

min_of-head : (h : ℕ) (hs : List ℕ) → min_of h hs ≤ h
unfolding min_of
min_of-head h [] = ground arith
min_of-head h (m ∷ ms) = ground arith

min_of-le : {x : ℕ} (h : ℕ) (hs : List ℕ) → Memᴰ x (h ∷ hs) → min_of h hs ≤ x
unfolding min_of
min_of-le h hs (Memᴰ.head e) = ground (arith, e, min_of-head h hs)
min_of-le h [] (Memᴰ.tail m) = elim m [ ]
min_of-le h (y ∷ ms) (Memᴰ.tail m) = ground (arith, min_of-le y ms m)

mem-filter : (p : ℕ → Bool) (xs : List ℕ) {x : ℕ} → Memᴰ x xs → p x ≡ true → Memᴰ x (filter p xs)
mem-filter p [] m h = m
mem-filter p (y ∷ ys) {x} (Memᴰ.head e) h = rw (sym (ap p e), h) (Memᴰ.head e)
mem-filter p (y ∷ ys) (Memᴰ.tail m) h = elim (Bool-cases (p y)) [
  | inl e ↦ rw e (Memᴰ.tail (mem-filter p ys m h))
  | inr e ↦ rw e (mem-filter p ys m h)
]

-- After a recalculation with some positive hold time, the interval is at least a second, and three
-- of it fit in every positive hold time of at least three seconds.
pub recalculate-fits :
    (t : TickManager) (hold_times : List ℕ) (hold : ℕ)
    → Memᴰ hold hold_times
    → 3000 ≤ hold
    → (1000 ≤ (recalculate t hold_times).interval_ms)
      × (3 * (recalculate t hold_times).interval_ms ≤ hold)
unfolding recalculate start
recalculate-fits t hold_times hold m h = elim (List-cases (filter (ltb 0) hold_times)) [
  | inl e ↦ elim (subst (Memᴰ hold) e (mem-filter (ltb 0) hold_times m (ground arith))) [ ]
  | inr (y, ys, e) ↦
      ground (
        arith,
        min_of-le y ys (subst (Memᴰ hold) e (mem-filter (ltb 0) hold_times m (ground arith))),
      )
]
