-- ===== src/BinaryStream/RoundTrip.antt =====
-- What is written in a byte order is in that order on every machine, and is read back.
use mathlib.Core.List.{reverse, reverse-reverse}
use mathlib.Core.Path.{subst}
use bell.Prelude.{
  ℕ, ◌^◌, ◌<◌, ◌≡◌, refl, sym, ap, ◌∙◌, Bool, true, false, not, List, ◌++◌, some, length, copy_at,
  copy_whole, if◌then◌else◌,
}
use bell.Stream.{Stream, read}
use bell.Stream.Laws.{At, read-At}
use bell.BinaryStream.Order.{length-le_bytes, length-reverse, le_bytes-swap, swap-swap, load-store}
use bell.BinaryStream.{
  Endian, little, big, same, le_bytes, store, load, swap, BinaryStream, set_byte_order, read_memory,
  read_value, write_value, read_uint16,
}

length-store : (o : Endian) (w v : ℕ) → length (store o w v) ≡ w
length-store little w v = length-le_bytes w v
length-store big w v = length-reverse (le_bytes w v) ∙ length-le_bytes w v

-- The bytes in memory of the value that is written.
store-flipped :
    (native o : Endian) (w v : ℕ)
    → store native w (if not (same o native) then swap w v else v) ≡ store o w v
store-flipped little little w v = refl
store-flipped little big w v = le_bytes-swap w v
store-flipped big little w v = ap reverse (le_bytes-swap w v) ∙ reverse-reverse (le_bytes w v)
store-flipped big big w v = refl

-- The value that is read, before and after the swap.
load-stored :
    (native o : Endian) (w v : ℕ)
    → v < 256 ^ w
    → load native (store o w v) ≡ (if same o native then v else swap w v)
load-stored little little w v h = load-store little w v h
load-stored little big w v h = refl
load-stored big little w v h = refl
load-stored big big w v h = load-store big w v h

kept :
    (b : Bool) (w v : ℕ) (value : ℕ)
    → v < 256 ^ w
    → value ≡ (if b then v else swap w v)
    → (if not b then swap w value else value) ≡ v
kept true w v value h e = e
kept false w v value h e = ap (swap w) e ∙ swap-swap w v h

module _ (native : Endian) where
  -- After `setByteOrder`, `<<` puts the bytes of the value out in that order, whatever the order of the
  -- machine, for every width.
  pub write_value-set_byte_order :
      (o : Endian) (w v : ℕ) (s : BinaryStream) (dst : List ℕ)
      → s.ostr ≡ some dst
      → (s' : BinaryStream) × (write_value native w v (set_byte_order native o s) ≡ some s')
        × (s'.ostr ≡ some (dst ++ store o w v))
  unfolding write_value set_byte_order
  write_value-set_byte_order o w v s dst out =
      let s' : BinaryStream = record (set_byte_order native o s) {
        ostr = some (dst ++ store native w (if not (same o native) then swap w v else v));
      } in
      (s', rw out refl, ap (λ t. some (dst ++ t)) (store-flipped native o w v))

  memory-At :
      (o : Endian) (w v old : ℕ) (rest : List ℕ) {istr : Stream}
      → v < 256 ^ w
      → At istr (store o w v ++ rest)
      → (read_memory native w old (read istr w).0 ≡ (if same o native then v else swap w v))
        × At (read istr w).1 rest
  memory-At o w v old rest {istr} h at =
      let size = length-store o w v in
      let (got, after) = read-At (store o w v) rest at in
      let got' : (read istr w).0 ≡ store o w v = ap (λ n. (read istr n).0) (sym size) ∙ got in
      (
        ap (load native) (
              ap (copy_at (store native w old) 0) got'
              ∙ copy_whole _ _ (length-store native w old ∙ sym size))
            ∙ load-stored native o w v h,
        subst (λ n. At (read istr n).1 rest) size after,
      )

  -- After `setByteOrder`, `>>` gives the value whose bytes come next in that order, and leaves the rest
  -- to come; this holds of every width, of a value below 256^w, and of the operators that keep the
  -- swapped value.
  pub read_value-set_byte_order :
      (o : Endian) (w v old : ℕ) (s : BinaryStream) (istr : Stream) (rest : List ℕ)
      → v < 256 ^ w
      → s.istr ≡ some istr
      → At istr (store o w v ++ rest)
      → (istr' : Stream) × (s' : BinaryStream) × (read_value native w true old
            (set_byte_order native o s)
          ≡ some (v, s'))
        × (s'.istr ≡ some istr')
        × At istr' rest
  unfolding read_value set_byte_order
  read_value-set_byte_order o w v old s istr rest h from at =
      let (value, after) = memory-At o w v old rest h at in
      let s' : BinaryStream = record (set_byte_order native o s) { istr = some (read istr w).1 } in
      (
        (read istr w).1,
        s',
        rw from (ap (λ n. some (n, s')) (kept (same o native) w v _ h value)),
        refl,
        after,
      )

  -- `>>` into a `uint16_t` gives the two bytes in the order of the machine, whatever order was set: from
  -- bytes in the other order it gives the swapped value.
  pub read_uint16-set_byte_order :
      (o : Endian) (v old : ℕ) (s : BinaryStream) (istr : Stream) (rest : List ℕ)
      → v < 256 ^ 2
      → s.istr ≡ some istr
      → At istr (store o 2 v ++ rest)
      → (s' : BinaryStream) × (read_uint16 native old (set_byte_order native o s)
          ≡ some (if same o native then v else swap 2 v, s'))
  unfolding read_uint16 read_value set_byte_order
  read_uint16-set_byte_order o v old s istr rest h from at =
      let (value, after) = memory-At o 2 v old rest h at in
      let s' : BinaryStream = record (set_byte_order native o s) { istr = some (read istr 2).1 } in
      (s', rw from (ap (λ n. some (n, s')) value))
