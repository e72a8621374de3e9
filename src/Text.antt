-- ===== src/Text.antt =====
-- What the C library does with text, as far as main/io/BellTar.cpp and main/io/include/URLParser.h use
-- it: strings that end at a NUL, numbers printed by `%0*o` and `%d`, numbers read by `%011llo`, and
-- `strtol` in base 16.
pub mod Octal
pub mod Decimal
use bell.Prelude.{
  ℕ, zero, suc, ◌+◌, ◌-◌, ◌*◌, ◌/◌, ◌%◌, Bool, ◌&&◌, ◌||◌, List, [], ◌∷◌, ◌++◌, Option, none, some,
  leb, ltb, ◌==◌, if◌then◌else◌, sub_size, copy_at,
}
use Prim.Native.Nat.{max}

-- The bytes before the first NUL.
unfoldable pub c_string : List ℕ → List ℕ
c_string [] = []
c_string (zero ∷ cs) = []
c_string (suc c ∷ cs) = suc c ∷ c_string cs

-- `sprintf` into a buffer: the text and a NUL behind it.
abbrev pub sprintf : List ℕ → ℕ → List ℕ → List ℕ
sprintf h off text = copy_at h off (text ++ 0 ∷ [])

-- How many figures a number has; 64 are enough for every number that the code prints.
unfoldable pub count_figures : ℕ → ℕ → ℕ → ℕ
count_figures base zero n = 0
count_figures base (suc fuel) n =
    let rest = count_figures base fuel (n / base) in if n == 0 then 0 else suc rest

-- The last `k` figures, in ASCII.
unfoldable pub figures : ℕ → ℕ → ℕ → List ℕ
figures base zero n = []
figures base (suc k) n = figures base k (n / base) ++ (48 + n % base) ∷ []

-- At least `width` figures, zeros in front.
unfoldable pub print : ℕ → ℕ → ℕ → List ℕ
unfolding count_figures figures
print base width n = figures base (max width (count_figures base 64 n)) n

abbrev pub is_octal : ℕ → Bool
is_octal c = leb 48 c && ltb c 56

abbrev pub is_space : ℕ → Bool
is_space c = c == 32 || (leb 9 c && leb c 13)

unfoldable pub skip_spaces : List ℕ → List ℕ
skip_spaces [] = []
skip_spaces (c ∷ cs) = let rest = skip_spaces cs in if is_space c then rest else c ∷ cs

-- Octal figures up to a width, after those that made `acc`.
unfoldable pub scan_from : ℕ → List ℕ → ℕ → ℕ
scan_from zero cs acc = acc
scan_from (suc w) [] acc = acc
scan_from (suc w) (c ∷ cs) acc =
    let rest = scan_from w cs (acc * 8 + (c - 48)) in if is_octal c then rest else acc

unfoldable pub scan_digits : ℕ → List ℕ → Option ℕ
unfolding scan_from
scan_digits zero cs = none
scan_digits (suc w) [] = none
scan_digits (suc w) (c ∷ cs) = if is_octal c then some (scan_from (suc w) (c ∷ cs) 0) else none

unfoldable pub negated : Option ℕ → Option ℕ
negated none = none
negated (some v) = some (sub_size 0 v)

-- `%0*llo`: spaces, a sign, and the figures; the sign counts for the width. `none` when no figure
-- stands there. Up to 21 figures fit the 64 bits.
unfoldable pub scan_signed : ℕ → List ℕ → Option ℕ
unfolding scan_digits negated
scan_signed zero cs = none
scan_signed (suc w) [] = none
scan_signed (suc w) (c ∷ cs) =
    if c == 43
    then scan_digits w cs
    else if c == 45
    then negated (scan_digits w cs)
    else scan_digits (suc w) (c ∷ cs)

unfoldable pub scan_octal : ℕ → List ℕ → Option ℕ
unfolding scan_signed skip_spaces
scan_octal width cs = scan_signed width (skip_spaces cs)

-- `strtol(_, nullptr, 16)` on at most two characters, as a `char`. The prefix `0x` needs a third.
abbrev pub hex_figure : ℕ → Option ℕ
hex_figure c =
    if leb 48 c && leb c 57
    then some (c - 48)
    else if leb 65 c && leb c 70
    then some (c - 55)
    else if leb 97 c && leb c 102
    then some (c - 87)
    else none

unfoldable pub hex_from : List ℕ → ℕ → ℕ
hex_from [] acc = acc
hex_from (c ∷ cs) acc = elim (hex_figure c) [ none ↦ acc | some d ↦ hex_from cs (acc * 16 + d) ]

unfoldable pub hex_signed : List ℕ → ℕ
unfolding hex_from
hex_signed [] = 0
hex_signed (c ∷ cs) =
    if c == 43
    then hex_from cs 0 % 256
    else if c == 45
    then (256 - hex_from cs 0 % 256) % 256
    else hex_from (c ∷ cs) 0 % 256

unfoldable pub strtol16 : List ℕ → ℕ
unfolding hex_signed skip_spaces
strtol16 cs = hex_signed (skip_spaces cs)
