-- ===== src/BinaryStream/Tests.antt =====
-- Big-endian values on a machine of the other order.
use bell.Prelude.{◌≡◌, ◌++◌, refl, true, false, [], ◌∷◌, none, some, arith}
use bell.Stream.{Stream}
use bell.Stream.Laws.{At}
use bell.BinaryStream.{little, big, store, le_bytes, BinaryStream, set_byte_order, read_value}
use bell.BinaryStream.RoundTrip.{read_value-set_byte_order}

store-big : store big 4 0x0102_0304 ≡ 1 ∷ 2 ∷ 3 ∷ 4 ∷ []
unfolding le_bytes
store-big = refl

abbrev source : Stream
source = record { bytes = 1 ∷ 2 ∷ 3 ∷ 4 ∷ 9 ∷ []; pos = 0; eof = false; failed = false }

abbrev output : BinaryStream
output = record { byte_order = little; istr = none; ostr = some (7 ∷ []); flip_bytes = false }

abbrev input : BinaryStream
input = record { byte_order = little; istr = some source; ostr = none; flip_bytes = false }

source_wide : At source (store big 4 0x0102_0304 ++ 9 ∷ [])
unfolding le_bytes
source_wide = record { no_eof = refl; no_fail = refl; coming = refl }

source_short : At source (store big 2 0x0102 ++ 3 ∷ 4 ∷ 9 ∷ [])
unfolding le_bytes
source_short = record { no_eof = refl; no_fail = refl; coming = refl }

read_value-set_byte_order_example :
    (istr' : Stream) × (s' : BinaryStream) × (read_value little 4 true 0
        (set_byte_order little big input)
      ≡ some (0x0102_0304, s'))
    × (s'.istr ≡ some istr')
    × At istr' (9 ∷ [])
read_value-set_byte_order_example =
    read_value-set_byte_order little big 4 0x0102_0304 0 input source (9 ∷ []) (omega arith) refl
      source_wide
