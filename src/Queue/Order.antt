-- ===== src/Queue/Order.antt =====
-- The queue of main/utilities/include/Queue.h is first in, first out, in whatever order its threads step.
use mathlib.Core.Path.{subst}
use bell.Prelude.{
  ℕ, zero, suc, ◌≡◌, refl, sym, ap, ◌∙◌, Bool, true, false, List, [], ◌∷◌, ◌++◌, Option, none, some,
  if◌then◌else◌, append_assoc, append-nil,
}
use bell.Queue.{
  Queue, Inside, woken, unforced, Action, push_store, push_locked, pop, wake, load_force,
  take_front, clear_store, clear_locked, Result, waits, undefined, went, Outcome, waited,
  undefined_after, ended, Event, silent, pushed, popped, refused, cleared, pick, step, run,
  new_queue, append, pop_front, give_front, when_free, load, taken, clear_all, and_then, go_on,
}

module _ {A : Type 0} where
  -- What a step puts in, and what it takes out.
  abbrev pub put_in : Event A → List A
  put_in silent = []
  put_in (pushed x) = x ∷ []
  put_in (popped x) = []
  put_in refused = []
  put_in (cleared xs) = []

  abbrev pub taken_out : Event A → List A
  taken_out silent = []
  taken_out (pushed x) = []
  taken_out (popped x) = x ∷ []
  taken_out refused = []
  taken_out (cleared xs) = xs

  unfoldable pub all_in : List (Event A) → List A
  all_in [] = []
  all_in (e ∷ es) = put_in e ++ all_in es

  unfoldable pub all_out : List (Event A) → List A
  all_out [] = []
  all_out (e ∷ es) = taken_out e ++ all_out es

  -- A step that is done puts in behind what is there and takes out from the front.
  abbrev IsKept : List A → Result A → Type 0
  IsKept items waits = Unit {0}
  IsKept items undefined = Unit {0}
  IsKept items (went e q) = items ++ put_in e ≡ taken_out e ++ q.items

  append-Kept : (q : Queue A) (o : Option (A × List A)) → IsKept q.items (append q o)
  unfolding append
  append-Kept q none = tt
  append-Kept q (some (x, rest)) = refl

  pop_front-Kept : (q : Queue A) (xs : List A) → q.items ≡ xs → IsKept q.items (pop_front q xs)
  unfolding pop_front
  pop_front-Kept q [] e = append-nil q.items
  pop_front-Kept q (x ∷ xs) e = append-nil q.items ∙ e

  give_front-Kept :
      (q : Queue A) (timed : Bool) (xs : List A)
      → q.items ≡ xs
      → IsKept q.items (give_front q timed xs)
  unfolding give_front
  give_front-Kept q timed (x ∷ xs) e = append-nil q.items ∙ e
  give_front-Kept q true [] e = append-nil q.items
  give_front-Kept q false [] e = tt

  when_free-Kept :
      (items : List A) (i : Option Inside) (r : Result A)
      → IsKept items r
      → IsKept items (when_free i r)
  unfolding when_free
  when_free-Kept items none r kept = kept
  when_free-Kept items (some i) r kept = tt

  either-Kept :
      (items : List A) (b : Bool) (r r' : Result A)
      → IsKept items r
      → IsKept items r'
      → IsKept items (if b then r else r')
  either-Kept items true r r' kept kept' = kept
  either-Kept items false r r' kept kept' = kept'

  load-Kept : (q : Queue A) (i : Option Inside) → IsKept q.items (load q i)
  unfolding load
  load-Kept q none = tt
  load-Kept q (some (unforced timed)) = tt
  load-Kept q (some (woken timed)) =
      either-Kept q.items q.force_exit _ _ (append-nil q.items) (append-nil q.items)

  taken-Kept : (q : Queue A) (i : Option Inside) → IsKept q.items (taken q i)
  unfolding taken
  taken-Kept q none = tt
  taken-Kept q (some (woken timed)) = tt
  taken-Kept q (some (unforced timed)) = give_front-Kept q timed q.items refl

  clear_all-Kept : (q : Queue A) (n : ℕ) → IsKept q.items (clear_all q n)
  unfolding clear_all
  clear_all-Kept q zero = tt
  clear_all-Kept q (suc n) = refl

  wake-Kept :
      (q q' : Queue A) (b : Bool)
      → q'.items ≡ q.items
      → IsKept q.items (if b then went silent q' else waits)
  wake-Kept q q' b same =
      either-Kept q.items b (went silent q') waits (append-nil q.items ∙ sym same) tt

  step-Kept : (a : Action A) (q : Queue A) → IsKept q.items (step a q)
  unfolding step
  step-Kept (push_store x) q = append-nil q.items
  step-Kept (push_locked k) q = when_free-Kept q.items q.inside _ (append-Kept q (pick k q.pushing))
  step-Kept pop q = when_free-Kept q.items q.inside _ (pop_front-Kept q q.items refl)
  step-Kept (wake timed) q = when_free-Kept q.items q.inside _ (wake-Kept q _ _ refl)
  step-Kept load_force q = load-Kept q q.inside
  step-Kept take_front q = taken-Kept q q.inside
  step-Kept clear_store q = append-nil q.items
  step-Kept clear_locked q = when_free-Kept q.items q.inside _ (clear_all-Kept q q.clearing)

  abbrev RunKept : List A → Outcome A → Type 0
  RunKept items waited = Unit {0}
  RunKept items (undefined_after events) = Unit {0}
  RunKept items (ended events q) = items ++ all_in events ≡ all_out events ++ q.items

  run_after :
      (items : List A) (e : Event A) (q : Queue A) (r : Outcome A)
      → IsKept items (went e q)
      → RunKept q.items r
      → RunKept items (and_then e r)
  unfolding and_then all_in all_out
  run_after items e q waited kept rest = tt
  run_after items e q (undefined_after events) kept rest = tt
  run_after items e q (ended events q') kept rest =
      sym (append_assoc items (put_in e) (all_in events))
      ∙ ap (λ xs. xs ++ all_in events) kept
      ∙ append_assoc (taken_out e) q.items (all_in events)
      ∙ ap (λ xs. taken_out e ++ xs) rest
      ∙ sym (append_assoc (taken_out e) (all_out events) q'.items)

  go_on-Kept :
      (items : List A) (r : Result A) (rest : Queue A → Outcome A)
      → IsKept items r
      → ((q : Queue A) → RunKept q.items (rest q))
      → RunKept items (go_on r rest)
  unfolding go_on
  go_on-Kept items waits rest kept later = tt
  go_on-Kept items undefined rest kept later = tt
  go_on-Kept items (went e q) rest kept later = run_after items e q (rest q) kept (later q)

  run-Kept : (actions : List (Action A)) (q : Queue A) → RunKept q.items (run actions q)
  unfolding run all_in all_out
  run-Kept [] q = append-nil q.items
  run-Kept (a ∷ actions) q = go_on-Kept q.items (step a q) _ (step-Kept a q) (run-Kept actions)

  -- Whatever steps the threads take and in whatever order, as long as none of them has undefined behaviour:
  -- the elements that were put in, in this order, are those that were taken out by `pop`, `wpop`, `wtpop` and
  -- `clear`, in this order, and then those that are still in the queue.
  pub run_in_order :
      (actions : List (Action A)) (events : List (Event A)) (q : Queue A)
      → run actions new_queue ≡ ended events q
      → all_in events ≡ all_out events ++ q.items
  run_in_order actions events q ran = subst (RunKept []) ran (run-Kept actions new_queue)
