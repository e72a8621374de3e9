-- ===== src/Prelude/Lists.antt =====
-- Lists measured and indexed by native numbers, under the library's names, and `memcpy`.
use Prim.Native.Nat.{ℕ, zero, suc, ◌+◌, ◌-◌, ◌≤◌, ◌<◌, min}
use mathlib.Core.Path.{◌≡◌, refl, sym, ap, ◌∙◌}
use mathlib.Core.List.{List, [], ◌∷◌, ◌++◌, map}
use mathlib.Core.Option.{Option, none, some}
use native.Mathlib.Omega.{arith}

module _ {ℓ} {A : Type ℓ} where
  abbrev pub length : List A → ℕ
  length [] = 0
  length (x ∷ xs) = suc (length xs)

  abbrev pub get_elem? : List A → ℕ → Option A
  get_elem? [] i = none
  get_elem? (x ∷ xs) zero = some x
  get_elem? (x ∷ xs) (suc i) = get_elem? xs i

  abbrev pub get_or : List A → ℕ → A → A
  get_or [] i d = d
  get_or (x ∷ xs) zero d = x
  get_or (x ∷ xs) (suc i) d = get_or xs i d

  abbrev pub take : ℕ → List A → List A
  take zero xs = []
  take (suc n) [] = []
  take (suc n) (x ∷ xs) = x ∷ take n xs

  abbrev pub drop : ℕ → List A → List A
  drop zero xs = xs
  drop (suc n) [] = []
  drop (suc n) (x ∷ xs) = drop n xs

  abbrev pub replicate : ℕ → A → List A
  replicate zero a = []
  replicate (suc n) a = a ∷ replicate n a

  -- `memcpy(xs + i, ys, length ys)`. What would fall behind the end of `xs` is dropped.
  abbrev pub copy_at : List A → ℕ → List A → List A
  copy_at [] i ys = []
  copy_at (x ∷ xs) zero [] = x ∷ xs
  copy_at (x ∷ xs) zero (y ∷ ys) = y ∷ copy_at xs zero ys
  copy_at (x ∷ xs) (suc i) ys = x ∷ copy_at xs i ys

module _ {ℓ} {A : Type ℓ} where
  pub length-append : (xs ys : List A) → length (xs ++ ys) ≡ length xs + length ys
  length-append [] ys = omega arith
  length-append (x ∷ xs) ys = omega (arith, length-append xs ys)

  pub take-append-drop : (n : ℕ) (xs : List A) → take n xs ++ drop n xs ≡ xs
  take-append-drop zero xs = refl
  take-append-drop (suc n) [] = refl
  take-append-drop (suc n) (x ∷ xs) = ap (◌∷◌ x) (take-append-drop n xs)

  pub length-take : (n : ℕ) (xs : List A) → length (take n xs) ≡ min n (length xs)
  length-take zero xs = omega arith
  length-take (suc n) [] = omega arith
  length-take (suc n) (x ∷ xs) = omega (arith, length-take n xs)

  pub length-drop : (n : ℕ) (xs : List A) → length (drop n xs) ≡ length xs - n
  length-drop zero xs = omega arith
  length-drop (suc n) [] = omega arith
  length-drop (suc n) (x ∷ xs) = omega (arith, length-drop n xs)

  pub length-replicate : (n : ℕ) (a : A) → length (replicate n a) ≡ n
  length-replicate zero a = refl
  length-replicate (suc n) a = ap suc (length-replicate n a)

  pub length-copy_at : (xs : List A) (i : ℕ) (ys : List A) → length (copy_at xs i ys) ≡ length xs
  length-copy_at [] i ys = refl
  length-copy_at (x ∷ xs) zero [] = refl
  length-copy_at (x ∷ xs) zero (y ∷ ys) = ap suc (length-copy_at xs zero ys)
  length-copy_at (x ∷ xs) (suc i) ys = ap suc (length-copy_at xs i ys)

  pub length-map {κ} : {B : Type κ} (xs : List A) (f : A → B) → length (map f xs) ≡ length xs
  length-map [] f = refl
  length-map (x ∷ xs) f = ap suc (length-map xs f)

  pub take-length-append : (xs ys : List A) → take (length xs) (xs ++ ys) ≡ xs
  take-length-append [] ys = refl
  take-length-append (x ∷ xs) ys = ap (◌∷◌ x) (take-length-append xs ys)

  pub drop-length-append : (xs ys : List A) → drop (length xs) (xs ++ ys) ≡ ys
  drop-length-append [] ys = refl
  drop-length-append (x ∷ xs) ys = drop-length-append xs ys

  pub take-all : (n : ℕ) (xs : List A) → length xs ≤ n → take n xs ≡ xs
  take-all zero [] h = refl
  take-all zero (x ∷ xs) h = absurd (omega arith)
  take-all (suc n) [] h = refl
  take-all (suc n) (x ∷ xs) h = ap (◌∷◌ x) (take-all n xs (omega arith))

  pub take-min : (n m : ℕ) (xs : List A) → length xs ≡ m → take (min n m) xs ≡ take n xs
  take-min zero m xs h = ap (λ k. take k xs) {y = 0} (omega arith)
  take-min (suc n) m [] h = take-all _ [] (omega arith)
  take-min (suc n) m (x ∷ xs) h =
      ap (λ k. take k (x ∷ xs)) e ∙ ap (◌∷◌ x) (take-min n (length xs) xs refl)
    where
      e : min (suc n) m ≡ suc (min n (length xs))
      e = omega arith

  pub drop-all : (n : ℕ) (xs : List A) → length xs ≤ n → drop n xs ≡ []
  drop-all zero [] h = refl
  drop-all zero (x ∷ xs) h = absurd (omega arith)
  drop-all (suc n) [] h = refl
  drop-all (suc n) (x ∷ xs) h = drop-all n xs (omega arith)

  pub drop-min : (n m : ℕ) (xs : List A) → length xs ≡ m → drop (min n m) xs ≡ drop n xs
  drop-min zero m xs h = ap (λ k. drop k xs) {y = 0} (omega arith)
  drop-min (suc n) m [] h = drop-all _ [] (omega arith)
  drop-min (suc n) m (x ∷ xs) h = ap (λ k. drop k (x ∷ xs)) e ∙ drop-min n (length xs) xs refl
    where
      e : min (suc n) m ≡ suc (min n (length xs))
      e = omega arith

  pub take-nil : (n : ℕ) → take {A = A} n [] ≡ []
  take-nil zero = refl
  take-nil (suc n) = refl

  pub get_or-take :
      (n : ℕ) (xs : List A) (i : ℕ) (d : A) → i < n → get_or (take n xs) i d ≡ get_or xs i d
  get_or-take zero xs i d h = absurd (omega arith)
  get_or-take (suc n) [] i d h = refl
  get_or-take (suc n) (x ∷ xs) zero d h = refl
  get_or-take (suc n) (x ∷ xs) (suc i) d h = get_or-take n xs i d (omega arith)

  pub get_or-drop :
      (n : ℕ) (xs : List A) (i : ℕ) (d : A) → get_or (drop n xs) i d ≡ get_or xs (n + i) d
  get_or-drop zero xs i d = ap (λ k. get_or xs k d) (omega arith)
  get_or-drop (suc n) [] i d = refl
  get_or-drop (suc n) (x ∷ xs) i d = get_or-drop n xs i d ∙ ap (λ k. get_or (x ∷ xs) k d) e
    where
      e : suc (n + i) ≡ suc n + i
      e = omega arith

  pub get_or-append_left :
      (xs ys : List A) (i : ℕ) (d : A) → i < length xs → get_or (xs ++ ys) i d ≡ get_or xs i d
  get_or-append_left [] ys i d h = absurd (omega arith)
  get_or-append_left (x ∷ xs) ys zero d h = refl
  get_or-append_left (x ∷ xs) ys (suc i) d h = get_or-append_left xs ys i d (omega arith)

  pub get_or-append_right :
      (xs ys : List A) (i : ℕ) (d : A)
      → length xs ≤ i
      → get_or (xs ++ ys) i d ≡ get_or ys (i - length xs) d
  get_or-append_right [] ys i d h = ap (λ k. get_or ys k d) (omega arith)
  get_or-append_right (x ∷ xs) ys zero d h = absurd (omega arith)
  get_or-append_right (x ∷ xs) ys (suc i) d h =
      get_or-append_right xs ys i d (omega arith) ∙ ap (λ k. get_or ys k d) (omega arith)

  -- What stands at an index after a copy.
  pub get_or-copy_at_below :
      (xs : List A) (i : ℕ) (ys : List A) (j : ℕ) (d : A)
      → j < i
      → get_or (copy_at xs i ys) j d ≡ get_or xs j d
  get_or-copy_at_below [] i ys j d h = refl
  get_or-copy_at_below (x ∷ xs) zero ys j d h = absurd (omega arith)
  get_or-copy_at_below (x ∷ xs) (suc i) ys zero d h = refl
  get_or-copy_at_below (x ∷ xs) (suc i) ys (suc j) d h =
      get_or-copy_at_below xs i ys j d (omega arith)

  pub get_or-copy_at_above :
      (xs : List A) (i : ℕ) (ys : List A) (j : ℕ) (d : A)
      → i + length ys ≤ j
      → get_or (copy_at xs i ys) j d ≡ get_or xs j d
  get_or-copy_at_above [] i ys j d h = refl
  get_or-copy_at_above (x ∷ xs) zero [] j d h = refl
  get_or-copy_at_above (x ∷ xs) zero (y ∷ ys) zero d h = absurd (omega arith)
  get_or-copy_at_above (x ∷ xs) zero (y ∷ ys) (suc j) d h =
      get_or-copy_at_above xs zero ys j d (omega arith)
  get_or-copy_at_above (x ∷ xs) (suc i) ys zero d h = absurd (omega arith)
  get_or-copy_at_above (x ∷ xs) (suc i) ys (suc j) d h =
      get_or-copy_at_above xs i ys j d (omega arith)

  pub get_or-copy_at_in :
      (xs : List A) (i : ℕ) (ys : List A) (k j : ℕ) (d : A)
      → j ≡ i + k
      → k < length ys
      → j < length xs
      → get_or (copy_at xs i ys) j d ≡ get_or ys k d
  get_or-copy_at_in [] i ys k j d e h l = absurd (omega arith)
  get_or-copy_at_in (x ∷ xs) zero [] k j d e h l = absurd (omega arith)
  get_or-copy_at_in (x ∷ xs) zero (y ∷ ys) zero zero d e h l = refl
  get_or-copy_at_in (x ∷ xs) zero (y ∷ ys) zero (suc j) d e h l = absurd (omega arith)
  get_or-copy_at_in (x ∷ xs) zero (y ∷ ys) (suc k) zero d e h l = absurd (omega arith)
  get_or-copy_at_in (x ∷ xs) zero (y ∷ ys) (suc k) (suc j) d e h l =
      get_or-copy_at_in xs zero ys k j d (omega arith) (omega arith) (omega arith)
  get_or-copy_at_in (x ∷ xs) (suc i) ys k zero d e h l = absurd (omega arith)
  get_or-copy_at_in (x ∷ xs) (suc i) ys k (suc j) d e h l =
      get_or-copy_at_in xs i ys k j d (omega arith) (omega arith) (omega arith)

module _ {ℓ} {A : Type ℓ} where
  pub drop-add : (n m : ℕ) (xs : List A) → drop m (drop n xs) ≡ drop (n + m) xs
  drop-add zero m xs = ap (λ k. drop k xs) (omega arith)
  drop-add (suc n) m [] =
      let e : suc (n + m) ≡ suc n + m = omega arith in
      drop-all m [] (omega arith) ∙ ap (λ k. drop {A = A} k []) e
  drop-add (suc n) m (x ∷ xs) =
      let e : suc (n + m) ≡ suc n + m = omega arith in drop-add n m xs ∙ ap (λ k. drop k (x ∷ xs)) e

  -- Bytes copied behind those that are held
  pub take-copy_at :
      (xs : List A) (n : ℕ) (ys : List A)
      → n + length ys ≤ length xs
      → take (n + length ys) (copy_at xs n ys) ≡ take n xs ++ ys
  take-copy_at xs zero [] h = refl
  take-copy_at [] zero (y ∷ ys) h = absurd (omega arith)
  take-copy_at (x ∷ xs) zero (y ∷ ys) h =
      ap (λ k. take k (y ∷ copy_at xs 0 ys)) {y = suc (0 + length ys)} (omega arith)
      ∙ ap (◌∷◌ y) (take-copy_at xs zero ys (omega arith))
  take-copy_at [] (suc n) ys h = absurd (omega arith)
  take-copy_at (x ∷ xs) (suc n) ys h =
      ap (λ k. take k (x ∷ copy_at xs n ys)) {y = suc (n + length ys)} (omega arith)
      ∙ ap (◌∷◌ x) (take-copy_at xs n ys (omega arith))

  pub drop-append : (n : ℕ) (xs ys : List A) → n ≤ length xs → drop n (xs ++ ys) ≡ drop n xs ++ ys
  drop-append zero xs ys h = refl
  drop-append (suc n) [] ys h = absurd (omega arith)
  drop-append (suc n) (x ∷ xs) ys h = drop-append n xs ys (omega arith)

  pub drop-take : (n m : ℕ) (xs : List A) → drop n (take m xs) ≡ take (m - n) (drop n xs)
  drop-take zero m xs = ap (λ k. take k xs) (omega arith)
  drop-take (suc n) zero xs = ap (λ k. take k (drop (suc n) xs)) {x = 0} (omega arith)
  drop-take (suc n) (suc m) [] = sym (take-nil (suc m - suc n))
  drop-take (suc n) (suc m) (x ∷ xs) = drop-take n m xs ∙ ap (λ k. take k (drop n xs)) (omega arith)

  pub take-take : (n m : ℕ) (xs : List A) → n ≤ m → take n (take m xs) ≡ take n xs
  take-take zero m xs h = refl
  take-take (suc n) zero xs h = absurd (omega arith)
  take-take (suc n) (suc m) [] h = refl
  take-take (suc n) (suc m) (x ∷ xs) h = ap (◌∷◌ x) (take-take n m xs (omega arith))

  pub take-append : (n : ℕ) (xs ys : List A) → take (length xs + n) (xs ++ ys) ≡ xs ++ take n ys
  take-append n [] ys = ap (λ k. take k ys) (omega arith)
  take-append n (x ∷ xs) ys =
      let e : suc (length xs) + n ≡ suc (length xs + n) = omega arith in
      ap (λ k. take k (x ∷ (xs ++ ys))) e ∙ ap (◌∷◌ x) (take-append n xs ys)
