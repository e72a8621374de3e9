-- ===== src/Queue/Tests.antt =====
-- Orders of steps of the threads that use main/utilities/include/Queue.h.
use bell.Prelude.{ℕ, ◌≡◌, refl, true, false, List, [], ◌∷◌, ◌++◌, none}
use bell.Queue.{
  waited, undefined_after, ended, Queue, Action, push_store, push_locked, pop, wake, load_force,
  take_front, clear_store, clear_locked, Event, silent, pushed, popped, refused, cleared, pick,
  step, run, new_queue, is_empty,
}
use bell.Queue.Order.{all_in, all_out, run_in_order}
use bell.Queue.Calm.{NoClear, NoFault}
use bell.Queue.Races.{run-NoFault, run_races}

-- Two calls of push that take the mutex in the other order, a wpop and a pop between them.
abbrev busy : List (Action ℕ)
busy =
    push_store 1
    ∷ push_store 2
    ∷ push_locked 0
    ∷ wake false
    ∷ load_force
    ∷ take_front
    ∷ pop
    ∷ push_locked 0
    ∷ []

abbrev busy_events : List (Event ℕ)
busy_events = silent ∷ silent ∷ pushed 2 ∷ silent ∷ silent ∷ popped 2 ∷ refused ∷ pushed 1 ∷ []

abbrev left : Queue ℕ
left = record { items = 1 ∷ []; force_exit = false; pushing = []; clearing = 0; inside = none }

run-busy : run busy new_queue ≡ ended busy_events left
unfolding run step pick is_empty
run-busy = refl

busy-NoClear : NoClear busy
unfolding NoClear
busy-NoClear = (tt, (tt, (tt, (tt, (tt, (tt, (tt, (tt, tt))))))))

run_in_order_example : all_in busy_events ≡ all_out busy_events ++ 1 ∷ []
run_in_order_example = run_in_order busy busy_events left run-busy

run-NoFault_example : NoFault (run busy new_queue)
run-NoFault_example = run-NoFault busy busy-NoClear

run_races_example :
    run {A = ℕ} (clear_store ∷ wake false ∷ push_store 7 ∷ load_force ∷ take_front ∷ []) new_queue
    ≡ undefined_after (silent ∷ silent ∷ silent ∷ silent ∷ [])
run_races_example = run_races new_queue 7 refl refl

-- The mutex is held: pop has to wait.
must_wait : run (push_store 1 ∷ push_locked 0 ∷ wake false ∷ pop ∷ []) (new_queue {A = ℕ}) ≡ waited
unfolding run step pick is_empty
must_wait = refl

clears :
    run {A = ℕ}
      (push_store 1 ∷ push_locked 0 ∷ clear_store ∷ clear_locked ∷ wake true ∷ load_force ∷ [])
      new_queue
    ≡ ended
        (silent ∷ pushed 1 ∷ silent ∷ cleared (1 ∷ []) ∷ silent ∷ refused ∷ [])
        (record { items = []; force_exit = true; pushing = []; clearing = 0; inside = none })
unfolding run step pick is_empty
clears = refl
