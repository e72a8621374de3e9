-- ===== src/Prelude/Bits.antt =====
-- Masks and disjoint fields of a byte, as arithmetic. Each fact is checked at every byte.
use Prim.Native.Nat.{ℕ, zero, suc, ◌+◌, ◌-◌, ◌*◌, ◌/◌, ◌%◌, ◌^◌, ◌<◌, bit_and, bit_or}
use mathlib.Core.Path.{◌≡◌, refl}
use mathlib.Core.Bool.{Bool, true, ◌&&◌}
use native.Mathlib.Omega.{arith}
use bell.Prelude.Tests.{◌==◌, ==_iff}

-- A test that holds at every number below the bound.
unfoldable pub all_below : ℕ → (ℕ → Bool) → Bool
all_below zero test = true
all_below (suc bound) test = all_below bound test && test bound

pub all_below_sound :
    (bound : ℕ) (test : ℕ → Bool) (v : ℕ) → all_below bound test ≡ true → v < bound → test v ≡ true
unfolding all_below
all_below_sound zero test v passed below = absurd (omega arith)
all_below_sound (suc bound) test v passed below =
    ground (arith, all_below_sound bound test v (ground arith))

-- To check an equation at every number below a bound.
pub eq-all_below :
    (n : ℕ) (f g : ℕ → ℕ) (x : ℕ) → all_below n (λ y. f y == g y) ≡ true → x < n → f x ≡ g x
eq-all_below n f g x h lt = (==_iff (f x) (g x)).0 (all_below_sound n _ x h lt)

low_table : all_below 9 (λ k. all_below 256 (λ v. bit_and v (2 ^ k - 1) == v % 2 ^ k)) ≡ true
unfolding all_below
low_table = refl

pub bit_and-low : (k v : ℕ) → k < 9 → v < 256 → bit_and v (2 ^ k - 1) ≡ v % 2 ^ k
bit_and-low k v hk hv =
    eq-all_below 256 (λ v. bit_and v (2 ^ k - 1)) (λ v. v % 2 ^ k) v
      (all_below_sound 9 (λ k. all_below 256 (λ v. bit_and v (2 ^ k - 1) == v % 2 ^ k)) k low_table
        hk)
      hv

high_table :
    all_below 9 (λ k. all_below 256 (λ v. bit_and v (256 - 2 ^ k) == v / 2 ^ k * 2 ^ k)) ≡ true
unfolding all_below
high_table = refl

pub bit_and-high : (k v : ℕ) → k < 9 → v < 256 → bit_and v (256 - 2 ^ k) ≡ v / 2 ^ k * 2 ^ k
bit_and-high k v hk hv =
    eq-all_below 256 (λ v. bit_and v (256 - 2 ^ k)) (λ v. v / 2 ^ k * 2 ^ k) v
      (all_below_sound 9 (λ k. all_below 256 (λ v. bit_and v (256 - 2 ^ k) == v / 2 ^ k * 2 ^ k)) k
        high_table hk)
      hv

or_table :
    all_below 9 (λ k.
      all_below (2 ^ (8 - k)) (λ x. all_below (2 ^ k) (λ y. bit_or (x * 2 ^ k) y == x * 2 ^ k + y)))
    ≡ true
unfolding all_below
or_table = refl

pub bit_or-disjoint :
    (k x y : ℕ) → k < 9 → x < 2 ^ (8 - k) → y < 2 ^ k → bit_or (x * 2 ^ k) y ≡ x * 2 ^ k + y
bit_or-disjoint k x y hk hx hy =
    eq-all_below (2 ^ k) (λ y. bit_or (x * 2 ^ k) y) (λ y. x * 2 ^ k + y) y
      (all_below_sound (2 ^ (8 - k))
        (λ x. all_below (2 ^ k) (λ y. bit_or (x * 2 ^ k) y == x * 2 ^ k + y)) x
        (all_below_sound 9
          (λ k.
            all_below (2 ^ (8 - k))
              (λ x. all_below (2 ^ k) (λ y. bit_or (x * 2 ^ k) y == x * 2 ^ k + y)))
          k or_table hk)
        hx)
      hy
