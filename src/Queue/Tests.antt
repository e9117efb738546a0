-- ===== src/Queue/Tests.antt =====
-- Two tasks, of which the first fails.
use catalyst_router.Prelude.{false, List, [], ◌∷◌, All, ◌⊎◌}
use catalyst_router.Queue.{QueueEvent, enqueued, turn, ended, after_events}
use catalyst_router.Queue.Order.{InOrder, HasEnded, CanMove, after_events-InOrder}

abbrev failing_first : List QueueEvent
failing_first = enqueued ∷ enqueued ∷ turn 1 ∷ turn 0 ∷ ended 0 false ∷ turn 1 ∷ []

after_events-InOrder_example :
    InOrder (after_events failing_first [])
    × (All HasEnded (after_events failing_first []) ⊎ CanMove (after_events failing_first []))
after_events-InOrder_example = after_events-InOrder failing_first
