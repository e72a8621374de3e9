-- ===== src/BinaryReader/Reads.antt =====
-- The value that the bytes delivered make.
use Prim.Native.Nat.{bit_or}
use bell.Prelude.{
  ℕ, ◌+◌, ◌-◌, ◌*◌, ◌%◌, ◌^◌, ◌<◌, ◌≡◌, ap, ◌∙◌, [], ◌∷◌, arith, ltb, if◌then◌else◌, or_low,
  or_high, bit_or_split, bit_or_ones, zero-bit_or,
}
use bell.BinaryReader.{ByteStream, join4, widen, read_int, read_long}

-- Four bytes delivered make an integer, highest byte first.
pub join4_lem :
    (b0 b1 b2 b3 : ℕ)
    → b0 < 256
    → b1 < 256
    → b2 < 256
    → b3 < 256
    → join4 (b0 ∷ b1 ∷ b2 ∷ b3 ∷ []) ≡ b0 * 2 ^ 24 + b1 * 2 ^ 16 + b2 * 2 ^ 8 + b3
join4_lem b0 b1 b2 b3 h0 h1 h2 h3 =
    ap (λ t. bit_or (bit_or t (b1 * 2 ^ 16)) (b0 * 2 ^ 24) % 2 ^ 32) (or_low 8 b3 b2 (omega arith))
    ∙ ap (λ t. bit_or t (b0 * 2 ^ 24) % 2 ^ 32) (or_low 16 (b2 * 2 ^ 8 + b3) b1 (omega arith))
    ∙ ap (λ t. t % 2 ^ 32) (or_low 24 (b1 * 2 ^ 16 + (b2 * 2 ^ 8 + b3)) b0 (omega arith))
    ∙ omega arith

module _ (stream : ByteStream) where
  open stream use {State, read}

  -- Where the stream delivers four bytes, `readInt` gives them as one number, the first byte highest.
  pub read_int_lem :
      (s s' : State) (b0 b1 b2 b3 : ℕ)
      → b0 < 256
      → b1 < 256
      → b2 < 256
      → b3 < 256
      → read 4 s ≡ (b0 ∷ b1 ∷ b2 ∷ b3 ∷ [], s')
      → read_int stream s ≡ (b0 * 2 ^ 24 + b1 * 2 ^ 16 + b2 * 2 ^ 8 + b3, s')
  unfolding read_int
  read_int_lem s s' b0 b1 b2 b3 h0 h1 h2 h3 got =
      rw got (ap (λ v. (v, s')) (join4_lem b0 b1 b2 b3 h0 h1 h2 h3))

  -- `readLong` joins two integers, the first one high, as long as the second is below 2^31; from there
  -- on its sign bit is carried into the upper half, and the first integer is lost.
  pub read_long_lem :
      (s s1 s2 : State) (high low : ℕ)
      → high < 2 ^ 32
      → low < 2 ^ 32
      → read_int stream s ≡ (high, s1)
      → read_int stream s1 ≡ (low, s2)
      → read_long stream s
        ≡ (if ltb low (2 ^ 31) then high * 2 ^ 32 + low else (2 ^ 32 - 1) * 2 ^ 32 + low, s2)
  unfolding read_long
  read_long_lem s s1 s2 high low hh hl first second =
      rw (first, second) (ap (λ v. (v, s2)) (joined high low hh hl))
    where
      joined :
          (high low : ℕ)
          → high < 2 ^ 32
          → low < 2 ^ 32
          → bit_or (widen high * 2 ^ 32 % 2 ^ 64) (widen low)
            ≡ (if ltb low (2 ^ 31) then high * 2 ^ 32 + low else (2 ^ 32 - 1) * 2 ^ 32 + low)
      joined high low hh hl =
          let up : widen high * 2 ^ 32 % 2 ^ 64 ≡ high * 2 ^ 32 = ground arith in
          ap (λ t. bit_or t (widen low)) up
          ∙ ground (
            arith,
            or_high 32 high low hl,
            bit_or_split 32 high 0 (2 ^ 32 - 1) low (omega arith) hl,
            bit_or_ones 32 high hh,
            zero-bit_or low,
          )
