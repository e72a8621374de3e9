-- ===== src/Queue.antt =====
-- `Queue` of main/utilities/include/Queue.h, used by several threads at once. A step is what one thread does
-- between two points where another may come in: a store or load of `m_forceExit`, which the mutex does not
-- guard, or a stretch under the mutex. A wait may end whenever its condition holds; notifications and clocks
-- are not modelled.
pub mod Order
pub mod Calm
pub mod Races
mod Tests
use bell.Prelude.{
  ℕ, zero, suc, Bool, true, false, not, ◌||◌, List, [], ◌∷◌, ◌++◌, Option, none, some, length,
  if◌then◌else◌,
}

-- Where `wpop` and `wtpop` are while they hold the mutex: behind the wait, or behind the load of
-- `m_forceExit`. The flag tells `wtpop`.
pub data Inside : Type 0 where
  woken : Bool → Inside
  unforced : Bool → Inside

-- `pushing` and `clearing` are the calls of `push` and `clear` that have stored `m_forceExit` and have not
-- taken the mutex yet. The mutex is taken where `inside` is not `none`.
pub record Queue (A : Type 0) : Type 0 where
  pub items : List A
  pub force_exit : Bool
  pub pushing : List A
  pub clearing : ℕ
  pub inside : Option Inside

module _ {A : Type 0} where
  abbrev pub new_queue : Queue A
  new_queue = record { items = []; force_exit = false; pushing = []; clearing = 0; inside = none }

-- What a thread does next.
module _ (A : Type 0) where
  pub data Action : Type 0 where
    -- A call of `push`, and the part of the waiting call at a position that is under the mutex.
    push_store : A → Action
    push_locked : ℕ → Action
    pop : Action
    -- The end of the wait of `wpop` or `wtpop`, the load of `m_forceExit` behind it, and the rest.
    wake : Bool → Action
    load_force : Action
    take_front : Action
    clear_store : Action
    clear_locked : Action

  -- What a step does to the elements, and what is returned.
  pub data Event : Type 0 where
    silent : Event
    pushed : A → Event
    popped : A → Event
    refused : Event
    cleared : List A → Event

  -- A step that has to wait, or of a call that is not at this point; one whose behaviour is undefined; and
  -- one that is done.
  pub data Result : Type 0 where
    waits : Result
    undefined : Result
    went : Event → Queue A → Result

  -- A sequence of steps: one of them has to wait, or the behaviour is undefined from there on, or all are
  -- done.
  pub data Outcome : Type 0 where
    waited : Outcome
    undefined_after : List Event → Outcome
    ended : List Event → Queue A → Outcome

module _ {A : Type 0} where
  keep : A → Option (A × List A) → Option (A × List A)
  keep x none = none
  keep x (some (y, ys)) = some (y, x ∷ ys)

  -- The element at a position, and the others.
  unfoldable pub pick : ℕ → List A → Option (A × List A)
  unfolding keep
  pick k [] = none
  pick zero (x ∷ xs) = some (x, xs)
  pick (suc k) (x ∷ xs) = keep x (pick k xs)

  -- `isEmpty`, `isExit` and `size`; `int` has 32 bits, and the length is below 2^31.
  unfoldable pub is_empty : Queue A → Bool
  is_empty q = elim q.items [ [] ↦ true | x ∷ xs ↦ false ]

  abbrev pub is_exit : Queue A → Bool
  is_exit q = q.force_exit

  abbrev pub size : Queue A → ℕ
  size q = length q.items

  -- Under the mutex, `push` appends.
  unfoldable pub append : Queue A → Option (A × List A) → Result A
  append q none = waits
  append q (some (x, rest)) =
      went (pushed x) (record q { items = q.items ++ x ∷ []; pushing = rest })

  -- `pop`
  unfoldable pub pop_front : Queue A → List A → Result A
  pop_front q [] = went refused q
  pop_front q (x ∷ xs) = went (popped x) (record q { items = xs })

  -- What `wpop` and `wtpop` do behind their load of `m_forceExit`. `wpop` takes the front of the
  -- `std::queue` without a test: if there is none, the behaviour is undefined.
  unfoldable pub give_front : Queue A → Bool → List A → Result A
  give_front q timed (x ∷ xs) = went (popped x) (record q { inside = none; items = xs })
  give_front q true [] = went refused (record q { inside = none })
  give_front q false [] = undefined

  unfoldable pub when_free : Option Inside → Result A → Result A
  when_free none r = r
  when_free (some i) r = waits

  unfoldable pub load : Queue A → Option Inside → Result A
  load q (some (woken timed)) =
      if q.force_exit
      then went refused (record q { inside = none })
      else went silent (record q { inside = some (unforced timed) })
  load q (some (unforced timed)) = waits
  load q none = waits

  unfoldable pub taken : Queue A → Option Inside → Result A
  taken q (some (unforced timed)) = give_front q timed q.items
  taken q (some (woken timed)) = waits
  taken q none = waits

  unfoldable pub clear_all : Queue A → ℕ → Result A
  clear_all q zero = waits
  clear_all q (suc n) = went (cleared q.items) (record q { clearing = n; items = [] })

  -- One step.
  unfoldable pub step : Action A → Queue A → Result A
  unfolding append pop_front give_front when_free load taken clear_all
  step (push_store x) q = went silent (record q { force_exit = false; pushing = x ∷ q.pushing })
  step (push_locked k) q = when_free q.inside (append q (pick k q.pushing))
  step pop q = when_free q.inside (pop_front q q.items)
  step (wake timed) q = when_free q.inside (
      if timed || (not (is_empty q) || q.force_exit)
      then went silent (record q { inside = some (woken timed) })
      else waits)
  step load_force q = load q q.inside
  step take_front q = taken q q.inside
  step clear_store q = went silent (record q { clearing = suc q.clearing; force_exit = true })
  step clear_locked q = when_free q.inside (clear_all q q.clearing)

  unfoldable pub and_then : Event A → Outcome A → Outcome A
  and_then e waited = waited
  and_then e (undefined_after events) = undefined_after (e ∷ events)
  and_then e (ended events q) = ended (e ∷ events) q

  unfoldable pub go_on : Result A → (Queue A → Outcome A) → Outcome A
  unfolding and_then
  go_on waits rest = waited
  go_on undefined rest = undefined_after []
  go_on (went e q) rest = and_then e (rest q)

  -- The steps of all threads in the order in which they come.
  unfoldable pub run : List (Action A) → Queue A → Outcome A
  unfolding go_on
  run [] q = ended [] q
  run (a ∷ actions) q = go_on (step a q) (λ q'. run actions q')
