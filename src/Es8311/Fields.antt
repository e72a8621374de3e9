-- ===== src/Es8311/Fields.antt =====
-- Bytes that the ES8311 driver builds from masks and shifts, as sums of fields.
use Prim.Native.Nat.{bit_and, bit_or}
use bell.Prelude.{
  ℕ, ◌+◌, ◌-◌, ◌*◌, ◌/◌, ◌%◌, ◌^◌, ◌≤◌, ◌<◌, ◌≡◌, refl, ◌∙◌, Bool, true, arith, ◌==◌, bit_and-low,
  bit_and-high, bit_or-disjoint, eq-all_below, all_below, all_below_sound,
}
use bell.Es8311.{shl8, pred8}

-- A mask that keeps the high bits, and a value below it.
pub keep_high :
    (k v x : ℕ)
    → k < 9
    → v < 256
    → v / 2 ^ k < 2 ^ (8 - k)
    → x < 2 ^ k
    → v / 2 ^ k * 2 ^ k + x < 256
    → bit_or (bit_and v (256 - 2 ^ k)) x % 256 ≡ v / 2 ^ k * 2 ^ k + x
keep_high k v x hk hv hh hx hs =
    rw (bit_and-high k v hk hv, bit_or-disjoint k (v / 2 ^ k) x hk hh hx) (omega arith)

zero-bit_or : (x : ℕ) → x < 256 → bit_or 0 x ≡ x
zero-bit_or x h = bit_or-disjoint 8 0 x (omega arith) (omega arith) h ∙ omega arith

bit_and-zero : (v : ℕ) → v < 256 → bit_and v 0 ≡ 0
bit_and-zero v h = bit_and-low 0 v (omega arith) h ∙ omega arith

-- A mask of zero keeps nothing.
pub keep_none : (v x : ℕ) → v < 256 → x < 256 → bit_or (bit_and v 0) x ≡ x
keep_none v x hv hx = rw (bit_and-zero v hv) (zero-bit_or x hx)

pub keep_none_byte : (v x : ℕ) → v < 256 → x < 256 → bit_or (bit_and v 0) x % 256 ≡ x
keep_none_byte v x hv hx = rw (keep_none v x hv hx) (omega arith)

row : ℕ → ℕ → Bool
row v p = all_below 4 (λ m. bit_or (bit_or v (p * 32)) (m * 8) == p * 32 + m * 8 + v)

rows : all_below 8 (λ v. all_below 8 (row v)) ≡ true
unfolding all_below row
rows = refl

three_fields :
    (v p m : ℕ) → v < 8 → p < 8 → m < 4 → bit_or (bit_or v (p * 32)) (m * 8) ≡ p * 32 + m * 8 + v
unfolding row
three_fields v p m hv hp hm =
    eq-all_below 4 (λ m. bit_or (bit_or v (p * 32)) (m * 8)) (λ m. p * 32 + m * 8 + v) m
      (all_below_sound 8 (row v) p (all_below_sound 8 (λ v. all_below 8 (row v)) v rows hv) hp) hm

-- Register 2: the divider above the multiplier above three bits that are kept.
pub divider_byte :
    (v d m : ℕ)
    → v < 256
    → 1 ≤ d
    → d ≤ 8
    → m < 4
    → bit_or (bit_or (bit_and v 7) (shl8 (pred8 d) 5)) (shl8 m 3) % 256
      ≡ (d - 1) * 32 + m * 8 + v % 8
divider_byte v d m hv h1 h8 hm =
    let low : bit_and v 7 ≡ v % 8 = bit_and-low 3 v (omega arith) hv in
    let upper : shl8 (pred8 d) 5 ≡ (d - 1) * 32 = omega arith in
    let middle : shl8 m 3 ≡ m * 8 = omega arith in
    rw (low, upper, middle, three_fields (v % 8) (d - 1) m (omega arith) (omega arith) hm)
      (omega arith)

-- Register 5: two dividers of four bits.
pub dividers_byte :
    (v a d : ℕ)
    → v < 256
    → 1 ≤ a
    → a ≤ 16
    → 1 ≤ d
    → d ≤ 16
    → bit_or (bit_or (bit_and v 0) (shl8 (pred8 a) 4)) (pred8 d) % 256 ≡ (a - 1) * 16 + (d - 1)
dividers_byte v a d hv ha ha' hd hd' =
    let upper : shl8 (pred8 a) 4 ≡ (a - 1) * 16 = omega arith in
    let lower : pred8 d ≡ d - 1 = omega arith in
    rw
      (
        upper,
        lower,
        keep_none v ((a - 1) * 16) hv (omega arith),
        bit_or-disjoint 4 (a - 1) (d - 1) (omega arith) (omega arith) (omega arith),
      )
      (omega arith)

-- Register 3: the top bit is kept, and a mode bit stands above a rate of six bits.
pub mode_byte :
    (v m r : ℕ)
    → v < 256
    → m < 2
    → r < 64
    → bit_or (bit_or (bit_and v 128) (shl8 m 6)) r % 256 ≡ v / 128 * 128 + m * 64 + r
mode_byte v m r hv hm hr =
    let upper : shl8 m 6 ≡ m * 64 = omega arith in
    let kept : bit_and v 128 ≡ v / 128 * 128 = bit_and-high 7 v (omega arith) hv in
    let inner : bit_or (v / 128 * 128) (m * 64) ≡ (v / 128 * 2 + m) * 64 =
      bit_or-disjoint 7 (v / 128) (m * 64) (omega arith) (omega arith) (omega arith)
      ∙ omega arith in
    rw (upper, kept, inner, bit_or-disjoint 6 (v / 128 * 2 + m) r (omega arith) (omega arith) hr)
      (omega arith)

-- The width of a sample stands in bits 4:2.
width_table :
    all_below 256
      (λ v. all_below 8 (λ w. bit_or (bit_and v 0xe3) (w * 4) % 256 == v / 32 * 32 + w * 4 + v % 4))
    ≡ true
unfolding all_below
width_table = refl

pub width_byte :
    (v w : ℕ)
    → v < 256
    → w < 8
    → bit_or (bit_and v 0xe3) (w * 4) % 256 ≡ v / 32 * 32 + w * 4 + v % 4
width_byte v w hv hw =
    eq-all_below 8 (λ w. bit_or (bit_and v 0xe3) (w * 4) % 256) (λ w. v / 32 * 32 + w * 4 + v % 4) w
      (all_below_sound 256 _ v width_table hv) hw

-- The power-down bit of the DAC, set and cleared.
stop_table : all_below 256 (λ v. bit_or v 0x02 % 256 == v / 4 * 4 + 2 + v % 2) ≡ true
unfolding all_below
stop_table = refl

start_table :
    all_below 256 (λ v. bit_and (bit_or v 0x02 % 256) 0xfd % 256 == v / 4 * 4 + v % 2) ≡ true
unfolding all_below
start_table = refl

pub stop_byte : (v : ℕ) → v < 256 → bit_or v 0x02 % 256 ≡ v / 4 * 4 + 2 + v % 2
stop_byte v h = eq-all_below 256 _ (λ v. v / 4 * 4 + 2 + v % 2) v stop_table h

pub start_byte : (v : ℕ) → v < 256 → bit_and (bit_or v 0x02 % 256) 0xfd % 256 ≡ v / 4 * 4 + v % 2
start_byte v h = eq-all_below 256 _ (λ v. v / 4 * 4 + v % 2) v start_table h

-- Two gains, one after the other.
abbrev gains : ℕ → ℕ → ℕ → Bool
gains v g h = bit_or (bit_and (bit_or v g % 256) 7) h % 256 == bit_or (bit_or v g) h

gain_table : all_below 8 (λ v. all_below 8 (λ g. all_below 8 (gains v g))) ≡ true
unfolding all_below
gain_table = refl

pub gain_byte :
    (v g h : ℕ)
    → v < 256
    → g < 8
    → h < 8
    → bit_or (bit_and (bit_or (bit_and v 7) g % 256) 7) h % 256 ≡ bit_or (bit_or (v % 8) g) h
gain_byte v g h hv hg hh =
    let low : bit_and v 7 ≡ v % 8 = bit_and-low 3 v (omega arith) hv in
    rw low (
      eq-all_below 8 (λ h. bit_or (bit_and (bit_or (v % 8) g % 256) 7) h % 256)
        (λ h. bit_or (bit_or (v % 8) g) h) h
        (all_below_sound 8 (λ g. all_below 8 (gains (v % 8) g)) g
          (all_below_sound 8 (λ v. all_below 8 (λ g. all_below 8 (gains v g))) (v % 8) gain_table
            (omega arith))
          hg)
        hh)
