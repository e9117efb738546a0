-- ===== src/Queue.antt =====
-- packages/routing/src/v2/rib/action-queue.ts: one dispatch at a time. A task of the queue is what
-- follows the promise of the task before it; when a promise's turn comes, and when a task ends, is up
-- to the events.
mod Order
mod Tests
use catalyst_router.Prelude.{ℕ, zero, suc, Bool, true, false, List, [], ◌∷◌, ◌++◌, if◌then◌else◌}

-- A task that was enqueued: it waits, runs, or has ended, well or with an error.
pub data Task : Type 0 where
  waiting running : Task
  settled : (is_ok : Bool) → Task

abbrev pub is_settled : Task → Bool
is_settled (settled is_ok) = true
is_settled _ = false

-- `enqueue`: the new task is `tail.then(fn)`, and the new tail waits for it, whether it fails or not.
abbrev pub enqueue : List Task → List Task
enqueue tasks = tasks ++ waiting ∷ []

-- A task begins if it waits and what it follows has settled; `ready` says so of the first.
abbrev pub begin_at : (ready : Bool) → ℕ → List Task → List Task
begin_at ready i [] = []
begin_at ready zero (waiting ∷ ts) = (if ready then running else waiting) ∷ ts
begin_at ready zero (t ∷ ts) = t ∷ ts
begin_at ready (suc i) (t ∷ ts) = t ∷ begin_at (is_settled t) i ts

-- A task that runs ends.
abbrev pub settle_at : ℕ → Bool → List Task → List Task
settle_at i is_ok [] = []
settle_at zero is_ok (running ∷ ts) = settled is_ok ∷ ts
settle_at zero is_ok (t ∷ ts) = t ∷ ts
settle_at (suc i) is_ok (t ∷ ts) = t ∷ settle_at i is_ok ts

pub data QueueEvent : Type 0 where
  enqueued : QueueEvent
  turn : (task : ℕ) → QueueEvent
  ended : (task : ℕ) → (is_ok : Bool) → QueueEvent

unfoldable pub after_event : QueueEvent → List Task → List Task
after_event enqueued ts = enqueue ts
after_event (turn i) ts = begin_at true i ts
after_event (ended i is_ok) ts = settle_at i is_ok ts

unfoldable pub after_events : List QueueEvent → List Task → List Task
unfolding after_event
after_events [] ts = ts
after_events (e ∷ es) ts = after_events es (after_event e ts)
