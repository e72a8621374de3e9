-- ===== src/BinaryReader.antt =====
-- main/io/BinaryReader.cpp: big-endian integers from a `ByteStream`, the abstract class of
-- main/io/include/ByteStream.h, which is the parameter `stream`. A result is the bit pattern of its type;
-- `long` has 64 bits, as on the desktop platforms. A read gives the bytes that it delivers, whose number
-- it returns.
pub mod Reads
mod Tests
use Prim.Native.Nat.{bit_or, bit_and}
use bell.Prelude.{
  ℕ, ◌+◌, ◌-◌, ◌*◌, ◌%◌, ◌^◌, List, [], ◌∷◌, length, get_or, replicate, copy_at, ltb, ◌==◌,
  if◌then◌else◌,
}

-- What the reader uses of `ByteStream`.
pub record ByteStream : Type 1 where
  pub State : Type 0
  pub read : ℕ → State → List ℕ × State
  pub position : State → ℕ
  pub size : State → ℕ
  pub close : State → State

-- The bytes of `b` joined, `b[first]` highest.
abbrev pub join4 : List ℕ → ℕ
join4 b =
    bit_or (bit_or (bit_or (get_or b 3 0) (get_or b 2 0 * 2 ^ 8)) (get_or b 1 0 * 2 ^ 16))
      (get_or b 0 0 * 2 ^ 24)
    % 2 ^ 32

abbrev pub join2 : List ℕ → ℕ
join2 b = bit_or (get_or b 1 0) (get_or b 0 0 * 2 ^ 8) % 2 ^ 16

-- An `int32_t` as a `long`
abbrev pub widen : ℕ → ℕ
widen v = if ltb v (2 ^ 31) then v else v + (2 ^ 64 - 2 ^ 32)

module _ (stream : ByteStream) where
  open stream use {State, read}

  unfoldable pub position : State → ℕ
  position s = stream.position s

  unfoldable pub size : State → ℕ
  size s = stream.size s

  unfoldable pub close : State → State
  close s = stream.close s

  unfoldable pub skip : ℕ → State → State
  skip n s = (read n s).1

  unfoldable pub read_int : State → ℕ × State
  read_int s = let (b, s') = read 4 s in (if length b == 4 then join4 b else 0, s')

  unfoldable pub read_short : State → ℕ × State
  read_short s = let (b, s') = read 2 s in (if length b == 2 then join2 b else 0, s')

  unfoldable pub read_uint : State → ℕ × State
  read_uint s = let (v, s') = read_int s in (bit_and (widen v) 0xffff_ffff % 2 ^ 32, s')

  unfoldable pub read_byte : State → ℕ × State
  read_byte s = let (b, s') = read 1 s in (if length b == 1 then get_or b 0 0 else 0, s')

  unfoldable pub read_bytes : ℕ → State → List ℕ × State
  read_bytes n s = let (b, s') = read n s in (copy_at (replicate n 0) 0 b, s')

  unfoldable pub read_long : State → ℕ × State
  read_long s =
      let (high, s1) = read_int s in
      let (low, s2) = read_int s1 in (bit_or (widen high * 2 ^ 32 % 2 ^ 64) (widen low), s2)
