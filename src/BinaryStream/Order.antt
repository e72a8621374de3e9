-- ===== src/BinaryStream/Order.antt =====
-- Bytes in one order and the other.
use mathlib.Core.List.{reverse, reverse_aux, reverse-reverse}
use native.Mathlib.Nat.{pow-suc}
use bell.Prelude.{
  ℕ, zero, suc, ◌+◌, ◌*◌, ◌/◌, ◌%◌, ◌^◌, ◌<◌, ◌≡◌, refl, sym, ap, ap₂, ◌∙◌, List, [], ◌∷◌, length,
  arith, AllBytes, none_left, one_more,
}
use bell.BinaryStream.{Endian, little, big, le_bytes, le_value, store, load, swap}

AllBytes-le_bytes : (w v : ℕ) → AllBytes (le_bytes w v)
unfolding le_bytes
AllBytes-le_bytes zero v = none_left
AllBytes-le_bytes (suc w) v = one_more _ _ (omega arith) (AllBytes-le_bytes w (v / 256))

pub length-le_bytes : (w v : ℕ) → length (le_bytes w v) ≡ w
unfolding le_bytes
length-le_bytes zero v = refl
length-le_bytes (suc w) v = ap suc (length-le_bytes w (v / 256))

AllBytes-reverse_aux :
    (cs acc : List ℕ) → AllBytes cs → AllBytes acc → AllBytes (reverse_aux cs acc)
AllBytes-reverse_aux _ acc none_left ha = ha
AllBytes-reverse_aux _ acc (one_more c cs h hs) ha =
    AllBytes-reverse_aux cs (c ∷ acc) hs (one_more c acc h ha)

length-reverse_aux : (cs acc : List ℕ) → length (reverse_aux cs acc) ≡ length cs + length acc
length-reverse_aux [] acc = omega arith
length-reverse_aux (c ∷ cs) acc = length-reverse_aux cs (c ∷ acc) ∙ omega arith

pub length-reverse : (cs : List ℕ) → length (reverse cs) ≡ length cs
length-reverse cs = length-reverse_aux cs [] ∙ omega arith

le_bytes-le_value : (cs : List ℕ) → AllBytes cs → le_bytes (length cs) (le_value cs) ≡ cs
unfolding le_bytes le_value
le_bytes-le_value _ none_left = refl
le_bytes-le_value _ (one_more c cs h hs) =
    let low : (c + le_value cs * 256) % 256 ≡ c = omega arith in
    let high : (c + le_value cs * 256) / 256 ≡ le_value cs = omega arith in
    ap₂ ◌∷◌ low (ap (le_bytes (length cs)) high ∙ le_bytes-le_value cs hs)

pub le_value-le_bytes : (w v : ℕ) → v < 256 ^ w → le_value (le_bytes w v) ≡ v
unfolding le_bytes le_value
le_value-le_bytes zero v h = omega arith
le_value-le_bytes (suc w) v h =
    omega (arith, le_value-le_bytes w (v / 256) (omega (arith, pow-suc 256 w)))

-- The bytes of a swapped value are those of the value the other way round.
pub le_bytes-swap : (w v : ℕ) → le_bytes w (swap w v) ≡ reverse (le_bytes w v)
le_bytes-swap w v =
    let back : List ℕ = reverse (le_bytes w v) in
    let size : length back ≡ w = length-reverse (le_bytes w v) ∙ length-le_bytes w v in
    ap (λ k. le_bytes k (le_value back)) (sym size)
    ∙ le_bytes-le_value back
        (AllBytes-reverse_aux (le_bytes w v) [] (AllBytes-le_bytes w v) none_left)

pub swap-swap : (w v : ℕ) → v < 256 ^ w → swap w (swap w v) ≡ v
swap-swap w v h =
    ap (λ cs. le_value (reverse cs)) (le_bytes-swap w v)
    ∙ ap le_value (reverse-reverse (le_bytes w v))
    ∙ le_value-le_bytes w v h

-- A value in memory is read back.
pub load-store : (native : Endian) (w v : ℕ) → v < 256 ^ w → load native (store native w v) ≡ v
load-store little w v h = le_value-le_bytes w v h
load-store big w v h = ap le_value (reverse-reverse (le_bytes w v)) ∙ le_value-le_bytes w v h
