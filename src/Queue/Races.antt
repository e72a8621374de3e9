-- ===== src/Queue/Races.antt =====
-- When the calls of main/utilities/include/Queue.h may read the front of an empty `std::queue`.
use bell.Prelude.{◌≡◌, refl, false, List, [], ◌∷◌, none}
use bell.Queue.{
  Result, waits, undefined, went, Outcome, waited, undefined_after, ended, Queue, Action,
  push_store, wake, load_force, take_front, clear_store, Event, silent, step, run, new_queue,
  is_empty, and_then, go_on,
}
use bell.Queue.Calm.{NoClear, NoFault, IsCalm, StaysCalm, step-Calm}

module _ {A : Type 0} where
  run_after : (e : Event A) (r : Outcome A) → NoFault r → NoFault (and_then e r)
  unfolding and_then
  run_after e waited sound = tt
  run_after e (undefined_after events) sound = sound
  run_after e (ended events q) sound = tt

  go_on-NoFault :
      (r : Result A) (rest : Queue A → Outcome A)
      → StaysCalm r
      → ((q : Queue A) → IsCalm q → NoFault (rest q))
      → NoFault (go_on r rest)
  unfolding go_on
  go_on-NoFault waits rest calm later = tt
  go_on-NoFault undefined rest calm later = calm
  go_on-NoFault (went e q) rest calm later = run_after e (rest q) (later q calm)

  calm-NoFault :
      (actions : List (Action A)) (q : Queue A)
      → NoClear actions
      → IsCalm q
      → NoFault (run actions q)
  unfolding run NoClear
  calm-NoFault [] q n c = tt
  calm-NoFault (a ∷ actions) q n c =
      go_on-NoFault (step a q) _ (step-Calm a q n.0 c) (λ q' c'. calm-NoFault actions q' n.1 c')

  -- As long as no thread calls `clear`, no call reads the front of an empty queue, in whatever order the
  -- threads step: no sequence of steps has undefined behaviour.
  pub run-NoFault : (actions : List (Action A)) → NoClear actions → NoFault (run actions new_queue)
  run-NoFault actions n =
      calm-NoFault actions new_queue n
        (record { unforced_yet = refl; not_clearing = refl; backed = tt })

  -- From every queue that is empty and whose mutex is free: a `clear` stores `m_forceExit`, a `wpop` ends its
  -- wait, a `push` resets `m_forceExit`, and then the `wpop` reads the front of the empty queue, which is
  -- undefined behaviour.
  pub run_races :
      (q : Queue A) (x : A)
      → q.items ≡ []
      → q.inside ≡ none
      → run (clear_store ∷ wake false ∷ push_store x ∷ load_force ∷ take_front ∷ []) q
        ≡ undefined_after (silent ∷ silent ∷ silent ∷ silent ∷ [])
  unfolding run step is_empty
  run_races q x empty free = rw (empty, free) refl
