-- ===== src/Prelude/Words.antt =====
-- `&` and `|` on numbers of any width, split at a bit: each acts on the parts above and below it.
use Prim.Native.Nat.{
  ℕ, zero, suc, ◌+◌, ◌-◌, ◌*◌, ◌/◌, ◌%◌, ◌^◌, ◌≤◌, ◌<◌, min, max, bit_and, bit_or, digits, bitwise,
  bit_and-bitwise, bit_or-bitwise, bit_xor, bit_xor-bitwise, differ,
}
use native.Mathlib.Nat.{pow-suc, one-le-pow}
use mathlib.Core.Path.{◌≡◌, refl, ap, ap₂, ◌∙◌}
use native.Mathlib.Omega.{arith}

module _ (rest : ℕ → ℕ) (bit : ℕ → ℕ → ℕ) where
  -- Fuel above the first number does not matter.
  digits_enough :
      (v : ℕ) (w : ℕ) (fuel spare : ℕ)
      → v ≤ fuel
      → v ≤ spare
      → digits rest bit fuel v w ≡ digits rest bit spare v w
  digits_enough zero w zero zero e s = refl
  digits_enough zero w zero (suc spare) e s = refl
  digits_enough zero w (suc fuel) zero e s = refl
  digits_enough zero w (suc fuel) (suc spare) e s = refl
  digits_enough (suc v) w zero spare e s = absurd (omega arith)
  digits_enough (suc v) w (suc fuel) zero e s = absurd (omega arith)
  digits_enough (suc v) w (suc fuel) (suc spare) e s =
      ap (λ t. t * 2 + bit (suc v % 2) (w % 2))
        (digits_enough (suc v / 2) (w / 2) fuel spare (omega arith) (omega arith))

  lowest_digit :
      (v w : ℕ)
      → bitwise rest bit (suc v) w
        ≡ bitwise rest bit (suc v / 2) (w / 2) * 2 + bit (suc v % 2) (w % 2)
  lowest_digit v w =
      ap (λ t. t * 2 + bit (suc v % 2) (w % 2))
        (digits_enough (suc v / 2) (w / 2) v (suc v / 2) (omega arith) (omega arith))

and_digit : (v w : ℕ) → bit_and v w ≡ bit_and (v / 2) (w / 2) * 2 + min (v % 2) (w % 2)
and_digit zero w = omega (arith, bit_and-bitwise 0 w, bit_and-bitwise (0 / 2) (w / 2))
and_digit (suc v) w = rw (bit_and-bitwise, bit_and-bitwise) (lowest_digit (λ _. 0) min v w)

or_digit : (v w : ℕ) → bit_or v w ≡ bit_or (v / 2) (w / 2) * 2 + max (v % 2) (w % 2)
or_digit zero w = omega (arith, bit_or-bitwise 0 w, bit_or-bitwise (0 / 2) (w / 2))
or_digit (suc v) w = rw (bit_or-bitwise, bit_or-bitwise) (lowest_digit (λ t. t) max v w)

double : (x k : ℕ) → x * 2 ^ suc k ≡ x * 2 ^ k * 2
double x k = omega (arith, ap (λ (t : ℕ). x * t) (pow-suc 2 k))

-- A number cut at bit `k`, in both operands.
pub bit_or_split :
    (k x a y b : ℕ)
    → a < 2 ^ k
    → b < 2 ^ k
    → bit_or (x * 2 ^ k + a) (y * 2 ^ k + b) ≡ bit_or x y * 2 ^ k + bit_or a b
bit_or_split zero x a y b ha hb =
    let ea : a ≡ 0 = omega arith in let eb : b ≡ 0 = omega arith in rw (ea, eb) (ground arith)
bit_or_split (suc k) x a y b ha hb =
    let ih =
      bit_or_split k x (a / 2) y (b / 2) (omega (arith, pow-suc 2 k))
        (omega (arith, pow-suc 2 k)) in
    let hx : (x * 2 ^ suc k + a) / 2 ≡ x * 2 ^ k + a / 2 = omega (arith, double x k) in
    let hy : (y * 2 ^ suc k + b) / 2 ≡ y * 2 ^ k + b / 2 = omega (arith, double y k) in
    omega (
      arith,
      or_digit (x * 2 ^ suc k + a) (y * 2 ^ suc k + b),
      ap₂ bit_or hx hy ∙ ih,
      double x k,
      double y k,
      or_digit a b,
      double (bit_or x y) k,
    )

xor_digit : (v w : ℕ) → bit_xor v w ≡ bit_xor (v / 2) (w / 2) * 2 + differ (v % 2) (w % 2)
xor_digit zero w = omega (arith, bit_xor-bitwise 0 w, bit_xor-bitwise (0 / 2) (w / 2))
xor_digit (suc v) w = rw (bit_xor-bitwise, bit_xor-bitwise) (lowest_digit (λ t. t) differ v w)

pub bit_xor_split :
    (k x a y b : ℕ)
    → a < 2 ^ k
    → b < 2 ^ k
    → bit_xor (x * 2 ^ k + a) (y * 2 ^ k + b) ≡ bit_xor x y * 2 ^ k + bit_xor a b
bit_xor_split zero x a y b ha hb =
    let ea : a ≡ 0 = omega arith in let eb : b ≡ 0 = omega arith in rw (ea, eb) (ground arith)
bit_xor_split (suc k) x a y b ha hb =
    let ih =
      bit_xor_split k x (a / 2) y (b / 2) (omega (arith, pow-suc 2 k))
        (omega (arith, pow-suc 2 k)) in
    let hx : (x * 2 ^ suc k + a) / 2 ≡ x * 2 ^ k + a / 2 = omega (arith, double x k) in
    let hy : (y * 2 ^ suc k + b) / 2 ≡ y * 2 ^ k + b / 2 = omega (arith, double y k) in
    let mx : (x * 2 ^ suc k + a) % 2 ≡ a % 2 = omega (arith, double x k) in
    let my : (y * 2 ^ suc k + b) % 2 ≡ b % 2 = omega (arith, double y k) in
    omega (
      arith,
      xor_digit (x * 2 ^ suc k + a) (y * 2 ^ suc k + b),
      ap₂ bit_xor hx hy ∙ ih,
      double x k,
      double y k,
      xor_digit a b,
      double (bit_xor x y) k,
      ap₂ differ mx my,
    )

pub bit_and_split :
    (k x a y b : ℕ)
    → a < 2 ^ k
    → b < 2 ^ k
    → bit_and (x * 2 ^ k + a) (y * 2 ^ k + b) ≡ bit_and x y * 2 ^ k + bit_and a b
bit_and_split zero x a y b ha hb =
    let ea : a ≡ 0 = omega arith in let eb : b ≡ 0 = omega arith in rw (ea, eb) (ground arith)
bit_and_split (suc k) x a y b ha hb =
    let ih =
      bit_and_split k x (a / 2) y (b / 2) (omega (arith, pow-suc 2 k))
        (omega (arith, pow-suc 2 k)) in
    let hx : (x * 2 ^ suc k + a) / 2 ≡ x * 2 ^ k + a / 2 = omega (arith, double x k) in
    let hy : (y * 2 ^ suc k + b) / 2 ≡ y * 2 ^ k + b / 2 = omega (arith, double y k) in
    omega (
      arith,
      and_digit (x * 2 ^ suc k + a) (y * 2 ^ suc k + b),
      ap₂ bit_and hx hy ∙ ih,
      double x k,
      double y k,
      and_digit a b,
      double (bit_and x y) k,
    )

zero_below : (n v : ℕ) → v ≤ n → (bit_and v 0 ≡ 0) × (bit_or v 0 ≡ v)
zero_below n zero h = (refl, refl)
zero_below zero (suc v) h = absurd (omega arith)
zero_below (suc n) (suc v) h =
    let ih = zero_below n (suc v / 2) (omega arith) in
    (omega (arith, and_digit (suc v) 0, ih.0), omega (arith, or_digit (suc v) 0, ih.1))

pub bit_and-zero : (v : ℕ) → bit_and v 0 ≡ 0
bit_and-zero v = (zero_below v v (omega arith)).0

pub bit_or-zero : (v : ℕ) → bit_or v 0 ≡ v
bit_or-zero v = (zero_below v v (omega arith)).1

-- A mask of ones keeps what lies below it.
pub bit_and_ones : (k v : ℕ) → v < 2 ^ k → bit_and v (2 ^ k - 1) ≡ v
bit_and_ones zero v h = let e : v ≡ 0 = omega arith in rw e
bit_and_ones (suc k) v h =
    let ones : (2 ^ suc k - 1) / 2 ≡ 2 ^ k - 1 = omega (arith, pow-suc 2 k) in
    let ih = bit_and_ones k (v / 2) (omega (arith, pow-suc 2 k)) in
    omega (
      arith,
      and_digit v (2 ^ suc k - 1),
      ap (bit_and (v / 2)) ones,
      ih,
      pow-suc 2 k,
      one-le-pow k 2 (omega arith),
    )

pub zero-bit_or : (v : ℕ) → bit_or 0 v ≡ v
zero-bit_or v = bit_or-bitwise 0 v

-- A mask of `m` ones above `k` zeros clears the `k` low bits.
pub keep_above :
    (k m v : ℕ) → v / 2 ^ k < 2 ^ m → bit_and v ((2 ^ m - 1) * 2 ^ k) ≡ v / 2 ^ k * 2 ^ k
keep_above k m v h =
    let low : v % 2 ^ k < 2 ^ k = omega (arith, one-le-pow k 2 (omega arith)) in
    let cut : v ≡ v / 2 ^ k * 2 ^ k + v % 2 ^ k = grind arith in
    ap₂ bit_and cut (omega arith)
    ∙ bit_and_split k (v / 2 ^ k) (v % 2 ^ k) (2 ^ m - 1) 0 low (one-le-pow k 2 (omega arith))
    ∙ ap₂ (λ s t. s * 2 ^ k + t) (bit_and_ones m (v / 2 ^ k) h) (bit_and-zero (v % 2 ^ k))
    ∙ omega arith

pub or_low : (k x q : ℕ) → x < 2 ^ k → bit_or x (q * 2 ^ k) ≡ q * 2 ^ k + x
or_low k x q h =
    ap₂ bit_or {v = q * 2 ^ k + 0} (omega arith) (omega arith)
    ∙ bit_or_split k 0 x q 0 h (one-le-pow k 2 (omega arith))
    ∙ ap₂ (λ s t. s * 2 ^ k + t) (zero-bit_or q) (bit_or-zero x)

pub or_high : (k q x : ℕ) → x < 2 ^ k → bit_or (q * 2 ^ k) x ≡ q * 2 ^ k + x
or_high k q x h =
    ap₂ bit_or {v = 0 * 2 ^ k + x} (omega arith) (omega arith)
    ∙ bit_or_split k q 0 0 x (one-le-pow k 2 (omega arith)) h
    ∙ ap₂ (λ s t. s * 2 ^ k + t) (bit_or-zero q) (zero-bit_or x)

-- A mask of `k` ones is the remainder.
pub keep_below : (k v : ℕ) → bit_and v (2 ^ k - 1) ≡ v % 2 ^ k
keep_below k v =
    let p : 0 < 2 ^ k = one-le-pow k 2 (omega arith) in
    let low : v % 2 ^ k < 2 ^ k = omega (arith, p) in
    let cut : v ≡ v / 2 ^ k * 2 ^ k + v % 2 ^ k = grind arith in
    ap₂ bit_and {v = 0 * 2 ^ k + (2 ^ k - 1)} cut (omega arith)
    ∙ bit_and_split k (v / 2 ^ k) (v % 2 ^ k) 0 (2 ^ k - 1) low (omega (arith, p))
    ∙ ap₂ (λ s t. s * 2 ^ k + t) (bit_and-zero (v / 2 ^ k)) (bit_and_ones k (v % 2 ^ k) low)
    ∙ omega arith

-- The mask that clears the `m` bits from bit `k` on, below `n` bits that it keeps.
abbrev pub field_mask : ℕ → ℕ → ℕ → ℕ
field_mask k m n = (2 ^ n - 1) * 2 ^ m * 2 ^ k + (2 ^ k - 1)

-- A word with `x` in that field.
abbrev pub with_field : ℕ → ℕ → ℕ → ℕ → ℕ
with_field k m v x = (v / 2 ^ k / 2 ^ m * 2 ^ m + x) * 2 ^ k + v % 2 ^ k

clear_field :
    (k m n v : ℕ)
    → v / 2 ^ k / 2 ^ m < 2 ^ n
    → bit_and v (field_mask k m n) ≡ v / 2 ^ k / 2 ^ m * 2 ^ m * 2 ^ k + v % 2 ^ k
clear_field k m n v h =
    let p : 0 < 2 ^ k = one-le-pow k 2 (omega arith) in
    let low : v % 2 ^ k < 2 ^ k = omega (arith, p) in
    let cut : v ≡ v / 2 ^ k * 2 ^ k + v % 2 ^ k = grind arith in
    ap (λ t. bit_and t (field_mask k m n)) cut
    ∙ bit_and_split k (v / 2 ^ k) (v % 2 ^ k) ((2 ^ n - 1) * 2 ^ m) (2 ^ k - 1) low
        (omega (arith, p))
    ∙ ap₂ (λ s t. s * 2 ^ k + t) (keep_above m n (v / 2 ^ k) h) (bit_and_ones k (v % 2 ^ k) low)

-- Clearing a field and joining a value puts the value there, on either side of the `|`.
pub set_field :
    (k m n v x : ℕ)
    → v / 2 ^ k / 2 ^ m < 2 ^ n
    → x < 2 ^ m
    → bit_or (bit_and v (field_mask k m n)) (x * 2 ^ k) ≡ with_field k m v x
set_field k m n v x h hx =
    let p : 0 < 2 ^ k = one-le-pow k 2 (omega arith) in
    let low : v % 2 ^ k < 2 ^ k = omega (arith, p) in
    ap₂ bit_or {v = x * 2 ^ k + 0} (clear_field k m n v h) (omega arith)
    ∙ bit_or_split k (v / 2 ^ k / 2 ^ m * 2 ^ m) (v % 2 ^ k) x 0 low p
    ∙ ap₂ (λ s t. s * 2 ^ k + t) (or_high m (v / 2 ^ k / 2 ^ m) x hx) (bit_or-zero (v % 2 ^ k))

pub set_field_left :
    (k m n v x : ℕ)
    → v / 2 ^ k / 2 ^ m < 2 ^ n
    → x < 2 ^ m
    → bit_or (x * 2 ^ k) (bit_and v (field_mask k m n)) ≡ with_field k m v x
set_field_left k m n v x h hx =
    let p : 0 < 2 ^ k = one-le-pow k 2 (omega arith) in
    let low : v % 2 ^ k < 2 ^ k = omega (arith, p) in
    ap₂ bit_or {x = x * 2 ^ k} {y = x * 2 ^ k + 0} (omega arith) (clear_field k m n v h)
    ∙ bit_or_split k x 0 (v / 2 ^ k / 2 ^ m * 2 ^ m) (v % 2 ^ k) p low
    ∙ ap₂ (λ s t. s * 2 ^ k + t) (or_low m x (v / 2 ^ k / 2 ^ m) hx) (zero-bit_or (v % 2 ^ k))

-- A `|` or `&` with a mask that leaves the `k` low bits alone.
pub or_above : (k v q : ℕ) → bit_or v (q * 2 ^ k) ≡ bit_or (v / 2 ^ k) q * 2 ^ k + v % 2 ^ k
or_above k v q =
    let p : 0 < 2 ^ k = one-le-pow k 2 (omega arith) in
    let low : v % 2 ^ k < 2 ^ k = omega (arith, p) in
    let cut : v ≡ v / 2 ^ k * 2 ^ k + v % 2 ^ k = grind arith in
    ap₂ bit_or {v = q * 2 ^ k + 0} cut (omega arith)
    ∙ bit_or_split k (v / 2 ^ k) (v % 2 ^ k) q 0 low p
    ∙ ap (λ t. bit_or (v / 2 ^ k) q * 2 ^ k + t) (bit_or-zero (v % 2 ^ k))

pub and_above :
    (k v q : ℕ) → bit_and v (q * 2 ^ k + (2 ^ k - 1)) ≡ bit_and (v / 2 ^ k) q * 2 ^ k + v % 2 ^ k
and_above k v q =
    let p : 0 < 2 ^ k = one-le-pow k 2 (omega arith) in
    let low : v % 2 ^ k < 2 ^ k = omega (arith, p) in
    let cut : v ≡ v / 2 ^ k * 2 ^ k + v % 2 ^ k = grind arith in
    ap (λ t. bit_and t (q * 2 ^ k + (2 ^ k - 1))) cut
    ∙ bit_and_split k (v / 2 ^ k) (v % 2 ^ k) q (2 ^ k - 1) low (omega (arith, p))
    ∙ ap (λ t. bit_and (v / 2 ^ k) q * 2 ^ k + t) (bit_and_ones k (v % 2 ^ k) low)

-- A `|` with ones everywhere gives the ones.
pub bit_or_ones : (k v : ℕ) → v < 2 ^ k → bit_or v (2 ^ k - 1) ≡ 2 ^ k - 1
bit_or_ones zero v h = let e : v ≡ 0 = omega arith in rw e (zero-bit_or 0)
bit_or_ones (suc k) v h =
    let ones : (2 ^ suc k - 1) / 2 ≡ 2 ^ k - 1 = omega (arith, pow-suc 2 k) in
    let ih = bit_or_ones k (v / 2) (omega (arith, pow-suc 2 k)) in
    omega (
      arith,
      or_digit v (2 ^ suc k - 1),
      ap (bit_or (v / 2)) ones,
      ih,
      pow-suc 2 k,
      one-le-pow k 2 (omega arith),
    )
