-- ===== src/X509Bundle/Names.antt =====
-- The order in which `memcmp` puts the names of main/io/X509Bundle.cpp, and what a sorted bundle gives
-- the binary search.
use Prim.Native.Nat.{Ordering}
use bell.Prelude.{
  ℕ, zero, suc, ◌≤◌, ◌≡◌, ◌≢◌, ◌↔◌, refl, ap, Bool, true, false, List, [], ◌∷◌, ◌&&◌, length, ltb,
  if◌then◌else◌, arith, ◌==◌, take,
}
use bell.X509Bundle.{order}

-- The first bytes of `xs` are `ys`.
unfoldable pub starts_with : List ℕ → List ℕ → Bool
starts_with xs [] = true
starts_with [] (y ∷ ys) = false
starts_with (x ∷ xs) (y ∷ ys) = x == y && starts_with xs ys

-- The comparison of the first bytes of the issuer, as many as the name has.
pub order-take : (n : ℕ) (xs ys : List ℕ) → length ys ≡ n → order (take n xs) ys ≡ order xs ys
unfolding order
order-take zero [] [] h = refl
order-take zero (x ∷ xs) [] h = refl
order-take zero xs (y ∷ ys) h = absurd (omega arith)
order-take (suc n) [] (y ∷ ys) h = refl
order-take (suc n) (x ∷ xs) (y ∷ ys) h =
    ap (λ o. if x == y then o else if ltb x y then Ordering.lt else Ordering.gt)
      (order-take n xs ys (omega arith))
order-take (suc n) xs [] h = absurd (omega arith)

pub order-starts_with :
    (xs ys : List ℕ)
    → length ys ≤ length xs
    → (order xs ys ≡ Ordering.eq) ↔ (starts_with xs ys ≡ true)
unfolding order starts_with
order-starts_with [] [] le = (λ _. refl, λ _. refl)
order-starts_with (x ∷ xs) [] le = (λ _. refl, λ _. refl)
order-starts_with [] (y ∷ ys) le = absurd (omega arith)
order-starts_with (x ∷ xs) (y ∷ ys) le =
    let ih = order-starts_with xs ys (omega arith) in
    (λ e. ground (arith, ih.0), λ e. ground (arith, ih.1))

-- A wanted name above the later of two names is above the earlier one; and so on.
pub order-below :
    (t a b : List ℕ)
    → length a ≤ length t
    → order a b ≡ Ordering.lt
    → order t b ≢ Ordering.lt
    → order t a ≡ Ordering.gt
unfolding order
order-below [] [] b le lt ge = cc
order-below [] (x ∷ a) b le lt ge = absurd (omega arith)
order-below (z ∷ t) [] b le lt ge = absurd (cc)
order-below (z ∷ t) (x ∷ a) [] le lt ge = absurd (cc)
order-below (z ∷ t) (x ∷ a) (y ∷ b) le lt ge = ground (arith, order-below t a b)

pub order-above :
    (t a b : List ℕ)
    → length b ≤ length t
    → order a b ≡ Ordering.lt
    → order t a ≡ Ordering.lt
    → order t b ≡ Ordering.lt
unfolding order
order-above [] a b le lt ge = ground arith
order-above (z ∷ t) [] b le lt ge = absurd (cc)
order-above (z ∷ t) (x ∷ a) [] le lt ge = absurd (cc)
order-above (z ∷ t) (x ∷ a) (y ∷ b) le lt ge = ground (arith, order-above t a b)
