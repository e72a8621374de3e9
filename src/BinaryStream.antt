-- ===== src/BinaryStream.antt =====
-- main/io/BinaryStream.cpp and its header: integers written to and read from a stream in a chosen byte
-- order. A value of `w` bytes is its bit pattern, a number below 256^w, so that a signed type and the
-- unsigned one of its width are one operation. The byte order of the machine is the parameter `native`.
-- An operation on a side that the stream lacks throws: its result is `none`.
pub mod Order
pub mod RoundTrip
mod Tests
use mathlib.Core.List.{reverse}
use bell.Prelude.{
  ℕ, zero, suc, ◌+◌, ◌*◌, ◌/◌, ◌%◌, ◌^◌, Bool, true, false, not, List, [], ◌∷◌, ◌++◌, Option, none,
  some, copy_at, if◌then◌else◌,
}
use bell.Stream.{Stream, read}

-- `std::endian`
pub data Endian : Type 0 where
  little big : Endian

abbrev pub same : Endian → Endian → Bool
same little little = true
same big big = true
same _ _ = false

-- The bytes of a value, lowest first, and the value of such bytes.
unfoldable pub le_bytes : ℕ → ℕ → List ℕ
le_bytes zero v = []
le_bytes (suc w) v = v % 256 ∷ le_bytes w (v / 256)

unfoldable pub le_value : List ℕ → ℕ
le_value [] = 0
le_value (c ∷ cs) = c + le_value cs * 256

-- A value in memory, on a machine of either order.
abbrev pub store : Endian → ℕ → ℕ → List ℕ
store little w v = le_bytes w v
store big w v = reverse (le_bytes w v)

abbrev pub load : Endian → List ℕ → ℕ
load little cs = le_value cs
load big cs = le_value (reverse cs)

-- `swap16`, `swap32` and `swap64`, by the number of bytes.
abbrev pub swap : ℕ → ℕ → ℕ
swap w v = le_value (reverse (le_bytes w v))

-- `class BinaryStream`; a null pointer is `none`.
pub record BinaryStream : Type 0 where
  pub byte_order : Endian
  pub istr : Option Stream
  pub ostr : Option (List ℕ)
  pub flip_bytes : Bool

module _ (native : Endian) where
  unfoldable pub open_output : List ℕ → BinaryStream
  open_output ostr = record {
    byte_order = native;
    istr = none;
    ostr = some ostr;
    flip_bytes = false;
  }

  unfoldable pub open_input : Stream → BinaryStream
  open_input istr = record {
    byte_order = native;
    istr = some istr;
    ostr = none;
    flip_bytes = false;
  }

  unfoldable pub set_byte_order : Endian → BinaryStream → BinaryStream
  set_byte_order order s = record s { byte_order = order; flip_bytes = not (same order native) }

  -- What the value holds after `istr->read`: bytes that the read did not reach are those of before.
  abbrev read_memory : ℕ → ℕ → List ℕ → ℕ
  read_memory w old got = load native (copy_at (store native w old) 0 got)

  -- `operator>>` for a width of `w` bytes: the value, which was `old`, and the stream. `swaps` says
  -- whether the swapped value is kept.
  unfoldable pub read_value : ℕ → Bool → ℕ → BinaryStream → Option (ℕ × BinaryStream)
  read_value w swaps old s = elim s.istr [
    | none ↦ none
    | some istr ↦
        let (got, istr') = read istr w in
        let value = read_memory w old got in
        some (
          if swaps then (if s.flip_bytes then swap w value else value) else value,
          record s { istr = some istr' },
        )
  ]

  unfoldable pub read_int16 : ℕ → BinaryStream → Option (ℕ × BinaryStream)
  read_int16 = read_value 2 true

  -- The result of `swap16` is dropped.
  unfoldable pub read_uint16 : ℕ → BinaryStream → Option (ℕ × BinaryStream)
  read_uint16 = read_value 2 false

  unfoldable pub read_int32 : ℕ → BinaryStream → Option (ℕ × BinaryStream)
  read_int32 = read_value 4 true

  unfoldable pub read_int64 : ℕ → BinaryStream → Option (ℕ × BinaryStream)
  read_int64 = read_value 8 true

  -- `operator<<` for a width of `w` bytes.
  unfoldable pub write_value : ℕ → ℕ → BinaryStream → Option BinaryStream
  write_value w value s = elim s.ostr [
    | none ↦ none
    | some ostr ↦
        let value' = if s.flip_bytes then swap w value else value in
        some (record s { ostr = some (ostr ++ store native w value') })
  ]

  -- A `char` and a `std::byte` are written as they are.
  unfoldable pub write_byte : ℕ → BinaryStream → Option BinaryStream
  write_byte value s = elim s.ostr [
    | none ↦ none
    | some ostr ↦ some (record s { ostr = some (ostr ++ value ∷ []) })
  ]

  unfoldable pub write_int16 : ℕ → BinaryStream → Option BinaryStream
  write_int16 = write_value 2

  unfoldable pub write_int32 : ℕ → BinaryStream → Option BinaryStream
  write_int32 = write_value 4

  unfoldable pub write_int64 : ℕ → BinaryStream → Option BinaryStream
  write_int64 = write_value 8
