-- ===== src/Queue/Calm.antt =====
-- The queue of main/utilities/include/Queue.h while no thread calls `clear`: no step reads the front of an
-- empty `std::queue`.
use bell.Prelude.{
  ℕ, zero, suc, ◌≡◌, refl, Bool, true, false, ◌||◌, not, List, [], ◌∷◌, Option, none, some,
  if◌then◌else◌,
}
use bell.Queue.{
  Result, waits, undefined, went, Outcome, waited, undefined_after, ended, Queue, Inside, woken,
  unforced, Action, push_store, push_locked, pop, wake, load_force, take_front, clear_store,
  clear_locked, silent, pick, step, is_empty, append, pop_front, give_front, when_free, load, taken,
  clear_all,
}

module _ {A : Type 0} where
  -- The step is not the beginning of `clear`.
  abbrev pub NotClear : Action A → Type 0
  NotClear clear_store = ⊥
  NotClear (push_store x) = Unit {0}
  NotClear (push_locked k) = Unit {0}
  NotClear pop = Unit {0}
  NotClear (wake timed) = Unit {0}
  NotClear load_force = Unit {0}
  NotClear take_front = Unit {0}
  NotClear clear_locked = Unit {0}

  unfoldable pub NoClear : List (Action A) → Type 0
  NoClear [] = Unit {0}
  NoClear (a ∷ actions) = NotClear a × NoClear actions

  -- No step has had undefined behaviour.
  abbrev pub NoFault : Outcome A → Type 0
  NoFault waited = Unit {0}
  NoFault (undefined_after events) = ⊥
  NoFault (ended events q) = Unit {0}

  -- A `wpop` that holds the mutex found an element there.
  abbrev pub Backed : List A → Option Inside → Type 0
  Backed items none = Unit {0}
  Backed items (some (woken true)) = Unit {0}
  Backed items (some (unforced true)) = Unit {0}
  Backed items (some (woken false)) = (x : A) × (xs : List A) × (items ≡ x ∷ xs)
  Backed items (some (unforced false)) = (x : A) × (xs : List A) × (items ≡ x ∷ xs)

  pub record IsCalm (q : Queue A) : Type 0 where
    pub unforced_yet : q.force_exit ≡ false
    pub not_clearing : q.clearing ≡ 0
    pub backed : Backed q.items q.inside

  abbrev pub StaysCalm : Result A → Type 0
  StaysCalm waits = Unit {0}
  StaysCalm undefined = ⊥
  StaysCalm (went e q) = IsCalm q

  unheld : (items : List A) (i : Option Inside) → i ≡ none → Backed items i
  unheld items none free = tt
  unheld items (some i) free = absurd (cc)

  when_free-Calm :
      (i : Option Inside) (r : Result A) → (i ≡ none → StaysCalm r) → StaysCalm (when_free i r)
  unfolding when_free
  when_free-Calm none r calm = calm refl
  when_free-Calm (some i) r calm = tt

  append-Calm :
      (q : Queue A) (o : Option (A × List A)) → IsCalm q → q.inside ≡ none → StaysCalm (append q o)
  unfolding append
  append-Calm q none c free = tt
  append-Calm q (some (x, rest)) c free = record {
    unforced_yet = c.unforced_yet;
    not_clearing = c.not_clearing;
    backed = unheld _ _ free;
  }

  pop_front-Calm :
      (q : Queue A) (xs : List A) → IsCalm q → q.inside ≡ none → StaysCalm (pop_front q xs)
  unfolding pop_front
  pop_front-Calm q [] c free = c
  pop_front-Calm q (x ∷ xs) c free = record {
    unforced_yet = c.unforced_yet;
    not_clearing = c.not_clearing;
    backed = unheld _ _ free;
  }

  enter :
      (q : Queue A) (i : Inside)
      → IsCalm q
      → Backed q.items (some i)
      → StaysCalm (went silent (record q { inside = some i }))
  enter q i c backed = record {
    unforced_yet = c.unforced_yet;
    not_clearing = c.not_clearing;
    backed = backed;
  }

  leave : (q : Queue A) (xs : List A) → IsCalm q → IsCalm (record q { inside = none; items = xs })
  leave q xs c = record {
    unforced_yet = c.unforced_yet;
    not_clearing = c.not_clearing;
    backed = tt;
  }

  -- Where the wait of `wpop` ends and `m_forceExit` is not set, there is an element.
  woken-Backed :
      (q : Queue A) (xs : List A)
      → q.items ≡ xs
      → q.force_exit ≡ false
      → (not (is_empty q) || q.force_exit) ≡ true
      → Backed q.items (some (woken false))
  unfolding is_empty
  woken-Backed q [] e free ends =
      let stays : (not (is_empty q) || q.force_exit) ≡ false = rw (e, free) refl in absurd (cc)
  woken-Backed q (x ∷ xs) e free ends = (x, xs, e)

  enter_if :
      (b : Bool) (r : Result A) → (b ≡ true → StaysCalm r) → StaysCalm (if b then r else waits)
  enter_if true r calm = calm refl
  enter_if false r calm = tt

  load_if :
      (b : Bool) (r r' : Result A) → b ≡ false → StaysCalm r' → StaysCalm (if b then r else r')
  load_if true r r' e calm = absurd (cc)
  load_if false r r' e calm = calm

  wake-Calm :
      (q : Queue A) (timed : Bool)
      → IsCalm q
      → StaysCalm (
          if timed || (not (is_empty q) || q.force_exit)
          then went silent (record q { inside = some (woken timed) })
          else waits)
  wake-Calm q true c = enter q (woken true) c tt
  wake-Calm q false c =
      enter_if _ _
        (λ ends. enter q (woken false) c (woken-Backed q q.items refl c.unforced_yet ends))

  load-Calm : (q : Queue A) (i : Option Inside) → IsCalm q → Backed q.items i → StaysCalm (load q i)
  unfolding load
  load-Calm q none c b = tt
  load-Calm q (some (unforced timed)) c b = tt
  load-Calm q (some (woken true)) c b = load_if _ _ _ c.unforced_yet (enter q (unforced true) c tt)
  load-Calm q (some (woken false)) c b = load_if _ _ _ c.unforced_yet (enter q (unforced false) c b)

  give_front-Calm :
      (q : Queue A) (timed : Bool) (xs : List A)
      → IsCalm q
      → Backed xs (some (unforced timed))
      → StaysCalm (give_front q timed xs)
  unfolding give_front
  give_front-Calm q timed (x ∷ xs) c b = leave q xs c
  give_front-Calm q true [] c b = leave q q.items c
  give_front-Calm q false [] c (x, xs, e) = absurd (cc)

  taken-Calm :
      (q : Queue A) (i : Option Inside) → IsCalm q → Backed q.items i → StaysCalm (taken q i)
  unfolding taken
  taken-Calm q none c b = tt
  taken-Calm q (some (woken timed)) c b = tt
  taken-Calm q (some (unforced timed)) c b = give_front-Calm q timed q.items c b

  clear_all-Calm : (q : Queue A) (n : ℕ) → n ≡ 0 → StaysCalm (clear_all q n)
  unfolding clear_all
  clear_all-Calm q zero e = tt
  clear_all-Calm q (suc n) e = absurd (cc)

  pub step-Calm : (a : Action A) (q : Queue A) → NotClear a → IsCalm q → StaysCalm (step a q)
  unfolding step
  step-Calm clear_store q n c = elim n [ ]
  step-Calm (push_store x) q _ c = record {
    unforced_yet = refl;
    not_clearing = c.not_clearing;
    backed = c.backed;
  }
  step-Calm (push_locked k) q _ c = when_free-Calm q.inside _ (append-Calm q (pick k q.pushing) c)
  step-Calm pop q _ c = when_free-Calm q.inside _ (pop_front-Calm q q.items c)
  step-Calm (wake timed) q _ c = when_free-Calm q.inside _ (λ _. wake-Calm q timed c)
  step-Calm load_force q _ c = load-Calm q q.inside c c.backed
  step-Calm take_front q _ c = taken-Calm q q.inside c c.backed
  step-Calm clear_locked q _ c =
      when_free-Calm q.inside _ (λ _. clear_all-Calm q q.clearing c.not_clearing)
