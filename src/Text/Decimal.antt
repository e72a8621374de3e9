-- ===== src/Text/Decimal.antt =====
-- Decimal numbers in text: `std::to_string` of a number that is not negative, and `std::stoi`, as
-- main/io/include/URLParser.h and main/io/HTTPClient.cpp use them.
use native.Mathlib.Nat.{pow-suc}
use mathlib.Core.Path.{subst}
use Prim.Native.Nat.{max}
use bell.Prelude.{
  inl, inr, Bool-cases, ==_iff, ℕ, zero, suc, ◌+◌, ◌-◌, ◌*◌, ◌/◌, ◌%◌, ◌^◌, ◌<◌, ◌≡◌, refl, sym, ap,
  ◌∙◌, Bool, true, false, ◌&&◌, List, [], ◌∷◌, ◌++◌, append_assoc, Option, none, some, arith, leb,
  ltb, ◌==◌, if◌then◌else◌,
}
use bell.Text.{count_figures, figures, print, skip_spaces}

-- `int`; `negsuc n` is -(n + 1).
pub data ℤ : Type 0 where
  pos : ℕ → ℤ
  negsuc : ℕ → ℤ

unfoldable pub to_string : ℕ → List ℕ
unfolding print
to_string n = print 10 1 n

abbrev pub is_digit : ℕ → Bool
is_digit c = leb 48 c && ltb c 58

-- The figures at the start of a text, after those that made `acc`.
unfoldable pub decimal_from : List ℕ → ℕ → ℕ
decimal_from [] acc = acc
decimal_from (c ∷ cs) acc =
    let rest = decimal_from cs (acc * 10 + (c - 48)) in if is_digit c then rest else acc

unfoldable pub decimal : List ℕ → Option ℕ
unfolding decimal_from
decimal [] = none
decimal (c ∷ cs) = if is_digit c then some (decimal_from (c ∷ cs) 0) else none

-- The two ends of an `int`; `none` is `std::out_of_range`.
abbrev pub int_of : Option ℕ → Option ℤ
int_of none = none
int_of (some v) = if ltb v (2 ^ 31) then some (pos v) else none

abbrev pub minus : ℕ → ℤ
minus zero = pos 0
minus (suc v) = negsuc v

abbrev pub negative_of : Option ℕ → Option ℤ
negative_of none = none
negative_of (some v) = if leb v (2 ^ 31) then some (minus v) else none

unfoldable pub signed_decimal : List ℕ → Option ℤ
unfolding decimal
signed_decimal [] = none
signed_decimal (c ∷ cs) =
    if c == b'+'
    then int_of (decimal cs)
    else if c == b'-'
    then negative_of (decimal cs)
    else int_of (decimal (c ∷ cs))

-- `std::stoi`; `none` when it throws.
unfoldable pub stoi : List ℕ → Option ℤ
unfolding signed_decimal skip_spaces
stoi cs = signed_decimal (skip_spaces cs)

-- A text that does not go on with a figure.
abbrev pub ends_figures : List ℕ → Bool
ends_figures [] = true
ends_figures (c ∷ cs) = if is_digit c then false else true

decimal_from-stop : (ys : List ℕ) (acc : ℕ) → ends_figures ys ≡ true → decimal_from ys acc ≡ acc
unfolding decimal_from
decimal_from-stop [] acc h = refl
decimal_from-stop (c ∷ cs) acc h = ground arith

digit_step :
    (r : ℕ) (ys : List ℕ) (acc : ℕ)
    → r < 10
    → decimal_from ((48 + r) ∷ ys) acc ≡ decimal_from ys (acc * 10 + r)
unfolding decimal_from
digit_step r ys acc h =
    let figure : is_digit (48 + r) ≡ true = ground arith in
    let value : acc * 10 + (48 + r - 48) ≡ acc * 10 + r = omega arith in
    ap (λ t. if t then decimal_from ys (acc * 10 + (48 + r - 48)) else acc) figure
    ∙ ap (decimal_from ys) value

decimal_from-figures :
    (k n : ℕ) (ys : List ℕ) (acc : ℕ)
    → n < 10 ^ k
    → decimal_from (figures 10 k n ++ ys) acc ≡ decimal_from ys (acc * 10 ^ k + n)
unfolding figures
decimal_from-figures zero n ys acc h =
    let a : acc ≡ acc * 10 ^ 0 + n = omega arith in ap (decimal_from ys) a
decimal_from-figures (suc k) n ys acc h =
    let shift : acc * 10 ^ suc k ≡ acc * 10 ^ k * 10 =
      omega (arith, ap (λ (t : ℕ). acc * t) (pow-suc 10 k)) in
    let a : (acc * 10 ^ k + n / 10) * 10 + n % 10 ≡ acc * 10 ^ suc k + n = omega (arith, shift) in
    ap (λ cs. decimal_from cs acc) (append_assoc (figures 10 k (n / 10)) _ ys)
    ∙ decimal_from-figures k (n / 10) ((48 + n % 10) ∷ ys) acc (omega (arith, pow-suc 10 k))
    ∙ digit_step (n % 10) ys _ (omega arith)
    ∙ ap (decimal_from ys) a

count_enough : (fuel n : ℕ) → n < 10 ^ fuel → n < 10 ^ count_figures 10 fuel n
unfolding count_figures
count_enough zero n h = h
count_enough (suc fuel) n h = ground (
  arith,
  count_enough fuel (n / 10) (omega (arith, pow-suc 10 fuel)),
  pow-suc 10 (count_figures 10 fuel (n / 10)),
)

figures_head : (k n : ℕ) → (r : ℕ) × (t : List ℕ) × (figures 10 (suc k) n ≡ (48 + r) ∷ t) × (r < 10)
unfolding figures
figures_head zero n = (n % 10, [], refl, omega arith)
figures_head (suc k) n =
    let (r, t, e, lt) = figures_head k (n / 10) in
    (r, t ++ (48 + n % 10) ∷ [], ap (λ cs. cs ++ (48 + n % 10) ∷ []) e, lt)

stoi-digit :
    (r : ℕ) (cs : List ℕ)
    → r < 10
    → stoi ((48 + r) ∷ cs) ≡ int_of (some (decimal_from ((48 + r) ∷ cs) 0))
unfolding stoi skip_spaces signed_decimal decimal
stoi-digit r cs h = ground arith

stoi-figures :
    (k n : ℕ) (ys : List ℕ)
    → n < 10 ^ suc k
    → n < 2 ^ 31
    → ends_figures ys ≡ true
    → stoi (figures 10 (suc k) n ++ ys) ≡ some (pos n)
stoi-figures k n ys h small stop =
    let (r, t, e, lt) = figures_head k n in
    let value : decimal_from (figures 10 (suc k) n ++ ys) 0 ≡ n =
      decimal_from-figures (suc k) n ys 0 h
      ∙ decimal_from-stop ys (0 * 10 ^ suc k + n) stop
      ∙ omega arith in
    ap (λ cs. stoi (cs ++ ys)) e
    ∙ stoi-digit r (t ++ ys) lt
    ∙ ap (λ cs. int_of (some (decimal_from (cs ++ ys) 0))) (sym e)
    ∙ ap (λ v. int_of (some v)) value
    ∙ ground arith

count_below : (n : ℕ) → n < 2 ^ 31 → n < 10 ^ max 1 (count_figures 10 64 n)
count_below n small =
    let enough = count_enough 64 n (omega arith) in
    let w = count_figures 10 64 n in
    elim (Bool-cases (w == 0)) [
      | inl none_left ↦
          let e : max 1 w ≡ 1 = ground arith in
          let z : 10 ^ w ≡ 1 = ap (λ (t : ℕ). 10 ^ t) ((==_iff w 0).0 none_left) in
          rw e (omega (arith, z))
      | inr more ↦ let e : max 1 w ≡ w = ground arith in rw e enough
    ]

-- `std::stoi` reads back what `std::to_string` has written, up to the first character that is no figure.
pub stoi-to_string :
    (n : ℕ) (ys : List ℕ)
    → n < 2 ^ 31
    → ends_figures ys ≡ true
    → stoi (to_string n ++ ys) ≡ some (pos n)
unfolding to_string print
stoi-to_string n ys small stop =
    let w = max 1 (count_figures 10 64 n) in
    let e : w ≡ suc (w - 1) = omega arith in
    ap (λ k. stoi (figures 10 k n ++ ys)) e
    ∙ stoi-figures (w - 1) n ys (subst (λ (t : ℕ). n < 10 ^ t) e (count_below n small)) small stop
