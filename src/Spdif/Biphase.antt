-- ===== src/Spdif/Biphase.antt =====
-- The words of main/audio-sinks/esp/SPDIFAudioSink.cpp are the biphase mark code of the samples.
use Prim.Native.Nat.{bit_xor, bit_xor-bitwise}
use bell.Prelude.{
  ℕ, zero, suc, ◌+◌, ◌-◌, ◌*◌, ◌/◌, ◌%◌, ◌^◌, ◌<◌, ◌≡◌, refl, ap, ap₂, ◌∙◌, Bool, true, false, not,
  inl, inr, List, [], ◌∷◌, ◌++◌, arith, length, ltb, ◌==◌, if◌then◌else◌, Bool-cases, all_below,
  eq-all_below, bit_xor_split,
}
use native.Mathlib.Nat.{pow-suc}
use bell.Spdif.{sign_extend, sample_word}
use bell.Spdif.Table.{bmc}

-- The bits of a byte, the highest first.
abbrev pub bits : ℕ → ℕ → List Bool
bits zero v = []
bits (suc k) v = (v / 2 ^ k % 2 == 1) ∷ bits k v

-- A cell of the code has two halves. Its first half differs from its second half for a one.
abbrev pub first_half : Bool → Bool → Bool
first_half one second = if one then not second else second

abbrev pub half : Bool → ℕ
half true = 1
half false = 0

-- Biphase mark code from the last bit sent back to the first, where the last half cell has the level
-- `last`: each cell begins with a change of level. The last cell stands lowest in the number.
abbrev pub biphase : List Bool → Bool → ℕ
biphase [] last = 0
biphase (b ∷ bs) last =
    2 * half (first_half b last) + half last + 4 * biphase bs (not (first_half b last))

-- The level of the half cell before those of the bits.
abbrev pub level_before : List Bool → Bool → Bool
level_before [] last = last
level_before (b ∷ bs) last = level_before bs (not (first_half b last))

biphase-append :
    (xs ys : List Bool) (last : Bool)
    → biphase (xs ++ ys) last ≡ biphase xs last + 4 ^ length xs * biphase ys (level_before xs last)
biphase-append [] ys last = omega arith
biphase-append (b ∷ xs) ys last =
    let next = not (first_half b last) in
    omega (
      arith,
      biphase-append xs ys next,
      ap (λ (t : ℕ). t * biphase ys (level_before xs next)) (pow-suc 4 (length xs)),
    )

table_high : all_below 256 (λ v. biphase (bits 8 v) true == bmc v) ≡ true
unfolding all_below bmc
table_high = refl

table_low : all_below 256 (λ v. biphase (bits 8 v) false == 2 ^ 16 - 1 - bmc v) ≡ true
unfolding all_below bmc
table_low = refl

table_level : all_below 256 (λ v. half (level_before (bits 8 v) true) == 1 - bmc v / 2 ^ 15) ≡ true
unfolding all_below bmc
table_level = refl

table_bound : all_below 256 (λ v. bmc v / 2 ^ 16 == 0) ≡ true
unfolding all_below bmc
table_bound = refl

table_same : all_below 256 (λ v. bit_xor (bmc v) 0 == bmc v) ≡ true
unfolding all_below bmc
table_same = refl

table_flipped : all_below 256 (λ v. bit_xor (bmc v) (2 ^ 16 - 1) == 2 ^ 16 - 1 - bmc v) ≡ true
unfolding all_below bmc
table_flipped = refl

pub bmc_bound : (v : ℕ) → v < 256 → bmc v < 2 ^ 16
bmc_bound v h = omega (arith, eq-all_below 256 (λ t. bmc t / 2 ^ 16) (λ t. 0) v table_bound h)

-- A code begins with a high level exactly when the level before it, read backwards, is low.
level_before-half : (v : ℕ) → v < 256 → half (level_before (bits 8 v) true) ≡ 1 - bmc v / 2 ^ 15
level_before-half v h =
    eq-all_below 256 (λ t. half (level_before (bits 8 t) true)) (λ t. 1 - bmc t / 2 ^ 15) v
      table_level h

test_alike : (n : ℕ) → n < 2 ^ 16 → (1 - n / 2 ^ 15 == 1) ≡ ltb n (2 ^ 15)
test_alike n h = ground arith

code_at :
    (b : Bool) (v : ℕ) → v < 256 → biphase (bits 8 v) b ≡ (if b then bmc v else 2 ^ 16 - 1 - bmc v)
code_at true v h = eq-all_below 256 (λ t. biphase (bits 8 t) true) bmc v table_high h
code_at false v h =
    eq-all_below 256 (λ t. biphase (bits 8 t) false) (λ t. 2 ^ 16 - 1 - bmc t) v table_low h

half-level : (b : Bool) → b ≡ (half b == 1)
half-level true = refl
half-level false = refl

level_before-table : (v : ℕ) → v < 256 → level_before (bits 8 v) true ≡ ltb (bmc v) (2 ^ 15)
level_before-table v h =
    half-level (level_before (bits 8 v) true)
    ∙ ap (λ (n : ℕ). n == 1) (level_before-half v h)
    ∙ test_alike (bmc v) (bmc_bound v h)

-- The code of two bytes, by the table.
two_codes :
    (low high : ℕ)
    → low < 256
    → high < 256
    → biphase (bits 8 high ++ bits 8 low) true
      ≡ bmc high + 2 ^ 16 * (if ltb (bmc high) (2 ^ 15) then bmc low else 2 ^ 16 - 1 - bmc low)
two_codes low high hl hh =
    biphase-append (bits 8 high) (bits 8 low) true
    ∙ ap₂ (λ (s : ℕ) (t : Bool). s + 4 ^ 8 * biphase (bits 8 low) t)
        (eq-all_below 256 (λ v. biphase (bits 8 v) true) bmc high table_high hh)
        (level_before-table high hh)
    ∙ ap (λ (t : ℕ). bmc high + 2 ^ 16 * t) (code_at (ltb (bmc high) (2 ^ 15)) low hl)

low_zero :
    (l h : ℕ)
    → h < 2 ^ 16
    → (t : ℕ) → bit_xor (l * 2 ^ 16) (t * 2 ^ 16 + h) ≡ bit_xor l t * 2 ^ 16 + h
low_zero l h bound t =
    ap (λ (n : ℕ). bit_xor n (t * 2 ^ 16 + h)) (omega arith)
    ∙ bit_xor_split 16 l 0 t h (omega arith) bound
    ∙ ap (λ (n : ℕ). bit_xor l t * 2 ^ 16 + n) (bit_xor-bitwise 0 h)

-- Both bytes: the code of the low byte follows that of the high byte, inverted when that one starts
-- with a high level.
pair_of_codes :
    (low high : ℕ)
    → low < 256
    → high < 256
    → bit_xor (bmc low * 2 ^ 16) (sign_extend (bmc high)) ≡ biphase (bits 8 high ++ bits 8 low) true
unfolding sign_extend
pair_of_codes low high hl hh = elim (Bool-cases (ltb (bmc high) (2 ^ 15))) [
  | inl small ↦
      rw (small, two_codes low high hl hh, small)
        (ap (λ (n : ℕ). bit_xor (bmc low * 2 ^ 16) n) (omega arith)
          ∙ low_zero (bmc low) (bmc high) (bmc_bound high hh) 0
          ∙ omega (arith, eq-all_below 256 (λ v. bit_xor (bmc v) 0) bmc low table_same hl))
  | inr large ↦
      rw (large, two_codes low high hl hh, large)
        (low_zero (bmc low) (bmc high) (bmc_bound high hh) (2 ^ 16 - 1)
          ∙ omega (
            arith,
            eq-all_below 256 (λ v. bit_xor (bmc v) (2 ^ 16 - 1)) (λ v. 2 ^ 16 - 1 - bmc v) low
                table_flipped hl,
          ))
]

-- For two bytes of a sample, the word of the loop of `feedPCMFrames` is the biphase mark code of the
-- sixteen bits of the sample, each cell with two halves, less the highest half cell, which is cleared.
pub sample_word_lem :
    (low high : ℕ)
    → low < 256
    → high < 256
    → sample_word low high ≡ biphase (bits 8 high ++ bits 8 low) true % 2 ^ 31
unfolding sample_word
sample_word_lem low high hl hh = rw (pair_of_codes low high hl hh) (omega arith)
