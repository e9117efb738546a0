-- ===== src/Queue/Order.antt =====
-- The tasks of the queue run one at a time, in the order in which they came, and none is stuck.
use catalyst_router.Prelude.{
  ℕ, zero, suc, Bool, true, false, ◌≡◌, ◌≢◌, refl, List, [], ◌∷◌, ◌⊎◌, inl, inr, All,
}
use catalyst_router.Queue.{
  Task, waiting, running, settled, is_settled, enqueue, begin_at, settle_at, QueueEvent, enqueued,
  turn, ended, after_event, after_events,
}

abbrev Waits : Task → Type 0
Waits t = t ≡ waiting

-- First those that have ended, then one that runs, if any, then those that wait.
abbrev pub InOrder : List Task → Type 0
InOrder [] = Unit
InOrder (settled is_ok ∷ ts) = InOrder ts
InOrder (running ∷ ts) = All Waits ts
InOrder (waiting ∷ ts) = All Waits ts

All-enqueue : (ts : List Task) → All Waits ts → All Waits (enqueue ts)
All-enqueue [] h = (refl, tt)
All-enqueue (t ∷ ts) h = (h.0, All-enqueue ts h.1)

enqueue-InOrder : (ts : List Task) → InOrder ts → InOrder (enqueue ts)
enqueue-InOrder [] h = tt
enqueue-InOrder (settled is_ok ∷ ts) h = enqueue-InOrder ts h
enqueue-InOrder (running ∷ ts) h = All-enqueue ts h
enqueue-InOrder (waiting ∷ ts) h = All-enqueue ts h

-- Behind a task that has not ended nothing begins, and what waits does not end.
begin_at-Waits : (i : ℕ) (ts : List Task) → All Waits ts → All Waits (begin_at false i ts)
begin_at-Waits i [] h = tt
begin_at-Waits zero (waiting ∷ ts) h = h
begin_at-Waits zero (running ∷ ts) h = h
begin_at-Waits zero (settled is_ok ∷ ts) h = h
begin_at-Waits (suc i) (waiting ∷ ts) h = (h.0, begin_at-Waits i ts h.1)
begin_at-Waits (suc i) (running ∷ ts) h = (h.0, begin_at-Waits i ts h.1)
begin_at-Waits (suc i) (settled is_ok ∷ ts) h = absurd (settled-waits is_ok h.0)
  where
    settled-waits : (b : Bool) → settled b ≡ waiting → ⊥
    settled-waits b e = cc

settle_at-Waits :
    (i : ℕ) (is_ok : Bool) (ts : List Task) → All Waits ts → All Waits (settle_at i is_ok ts)
settle_at-Waits i is_ok [] h = tt
settle_at-Waits zero is_ok (waiting ∷ ts) h = h
settle_at-Waits zero is_ok (running ∷ ts) h = absurd (running-waits h.0)
  where
    running-waits : running ≡ waiting → ⊥
    running-waits e = cc
settle_at-Waits zero is_ok (settled b ∷ ts) h = h
settle_at-Waits (suc i) is_ok (t ∷ ts) h = (h.0, settle_at-Waits i is_ok ts h.1)

begin_at-InOrder : (i : ℕ) (ts : List Task) → InOrder ts → InOrder (begin_at true i ts)
begin_at-InOrder i [] h = tt
begin_at-InOrder zero (waiting ∷ ts) h = h
begin_at-InOrder zero (running ∷ ts) h = h
begin_at-InOrder zero (settled is_ok ∷ ts) h = h
begin_at-InOrder (suc i) (waiting ∷ ts) h = begin_at-Waits i ts h
begin_at-InOrder (suc i) (running ∷ ts) h = begin_at-Waits i ts h
begin_at-InOrder (suc i) (settled is_ok ∷ ts) h = begin_at-InOrder i ts h

Waits-InOrder : (ts : List Task) → All Waits ts → InOrder ts
Waits-InOrder [] h = tt
Waits-InOrder (waiting ∷ ts) h = h.1
Waits-InOrder (running ∷ ts) h = h.1
Waits-InOrder (settled is_ok ∷ ts) h = Waits-InOrder ts h.1

settle_at-InOrder :
    (i : ℕ) (is_ok : Bool) (ts : List Task) → InOrder ts → InOrder (settle_at i is_ok ts)
settle_at-InOrder i is_ok [] h = tt
settle_at-InOrder zero is_ok (waiting ∷ ts) h = h
settle_at-InOrder zero is_ok (running ∷ ts) h = Waits-InOrder ts h
settle_at-InOrder zero is_ok (settled b ∷ ts) h = h
settle_at-InOrder (suc i) is_ok (waiting ∷ ts) h = settle_at-Waits i is_ok ts h
settle_at-InOrder (suc i) is_ok (running ∷ ts) h = settle_at-Waits i is_ok ts h
settle_at-InOrder (suc i) is_ok (settled b ∷ ts) h = settle_at-InOrder i is_ok ts h

event-InOrder : (e : QueueEvent) (ts : List Task) → InOrder ts → InOrder (after_event e ts)
unfolding after_event
event-InOrder enqueued ts h = enqueue-InOrder ts h
event-InOrder (turn i) ts h = begin_at-InOrder i ts h
event-InOrder (ended i is_ok) ts h = settle_at-InOrder i is_ok ts h

events-InOrder : (es : List QueueEvent) (ts : List Task) → InOrder ts → InOrder (after_events es ts)
unfolding after_events
events-InOrder [] ts h = h
events-InOrder (e ∷ es) ts h = events-InOrder es (after_event e ts) (event-InOrder e ts h)

abbrev pub HasEnded : Task → Type 0
HasEnded t = is_settled t ≡ true

-- Some task can begin or runs and can end.
abbrev pub CanMove : List Task → Type 0
CanMove ts = (i : ℕ) × ((begin_at true i ts ≢ ts) ⊎ ((is_ok : Bool) → settle_at i is_ok ts ≢ ts))

moves : (ts : List Task) → All HasEnded ts ⊎ CanMove ts
moves [] = inl tt
moves (waiting ∷ ts) = inr (0, inl (λ e. running-waiting e))
  where
    running-waiting : running ∷ ts ≡ waiting ∷ ts → ⊥
    running-waiting e = cc
moves (running ∷ ts) = inr (0, inr (λ is_ok e. settled-running is_ok e))
  where
    settled-running : (b : Bool) → settled b ∷ ts ≡ running ∷ ts → ⊥
    settled-running b e = cc
moves (settled is_ok ∷ ts) = elim (moves ts) [
  | inl all_ended ↦ inl (refl, all_ended)
  | inr (i, inl begins) ↦ inr (suc i, inl (λ e. begins (tail-eq e)))
  | inr (i, inr ends) ↦ inr (suc i, inr (λ b e. ends b (tail-eq e)))
]
  where
    tail-eq : {xs ys : List Task} → settled is_ok ∷ xs ≡ settled is_ok ∷ ys → xs ≡ ys
    tail-eq e = cc

-- After any tasks that came, turns and ends, well or with an error, in any order: the tasks that have
-- ended are the first that came, one at most runs after them, and the others wait. Unless all have
-- ended, one of them can begin or end.
pub after_events-InOrder :
    (es : List QueueEvent)
    → InOrder (after_events es [])
      × (All HasEnded (after_events es []) ⊎ CanMove (after_events es []))
after_events-InOrder es = (events-InOrder es [] tt, moves (after_events es []))
