-- ===== src/BinaryReader/Tests.antt =====
-- A stream that is the list of its bytes.
use bell.Prelude.{
  ℕ, ◌+◌, ◌-◌, ◌*◌, ◌^◌, ◌≡◌, refl, List, [], ◌∷◌, length, take, drop, arith, ltb, if◌then◌else◌,
}
use bell.BinaryReader.{ByteStream, read_int, read_long}
use bell.BinaryReader.Reads.{read_int_lem, read_long_lem}

abbrev listed : ByteStream
listed = record {
  State = List ℕ;
  read = λ n s. (take n s, drop n s);
  position = λ s. 0;
  size = λ s. length s;
  close = λ s. [];
}

-- The second integer has its sign bit set.
abbrev eight : List ℕ
eight = 0 ∷ 0 ∷ 0 ∷ 1 ∷ 128 ∷ 0 ∷ 0 ∷ 0 ∷ []

first_int : read_int listed eight ≡ (1, 128 ∷ 0 ∷ 0 ∷ 0 ∷ [])
first_int =
    read_int_lem listed eight (128 ∷ 0 ∷ 0 ∷ 0 ∷ []) 0 0 0 1 (omega arith) (omega arith)
      (omega arith) (omega arith) refl

second_int : read_int listed (128 ∷ 0 ∷ 0 ∷ 0 ∷ []) ≡ (2 ^ 31, [])
second_int =
    read_int_lem listed (128 ∷ 0 ∷ 0 ∷ 0 ∷ []) [] 128 0 0 0 (omega arith) (omega arith)
      (omega arith) (omega arith) refl

read_long_lem_example :
    read_long listed eight
    ≡ (if ltb (2 ^ 31) (2 ^ 31) then 1 * 2 ^ 32 + 2 ^ 31 else (2 ^ 32 - 1) * 2 ^ 32 + 2 ^ 31, [])
read_long_lem_example =
    read_long_lem listed eight (128 ∷ 0 ∷ 0 ∷ 0 ∷ []) [] 1 (2 ^ 31) (omega arith) (omega arith)
      first_int second_int
