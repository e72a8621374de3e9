-- ===== src/Text/Octal.antt =====
-- Octal numbers printed and read back, and strings up to their NUL.
use native.Mathlib.Nat.{pow-suc}
use Prim.Native.Nat.{max}
use bell.Prelude.{
  sym, true, ℕ, zero, suc, ◌+◌, ◌-◌, ◌*◌, ◌/◌, ◌%◌, ◌^◌, ◌≤◌, ◌<◌, ◌≡◌, refl, ap, ap₂, ◌∙◌, List,
  [], ◌∷◌, ◌++◌, append_assoc, some, arith, length, length-append, if◌then◌else◌,
}
use bell.Text.{
  c_string, count_figures, figures, print, scan_from, scan_digits, scan_signed, scan_octal,
  skip_spaces, is_octal,
}

pub length-figures : (k n : ℕ) → length (figures 8 k n) ≡ k
unfolding figures
length-figures zero n = refl
length-figures (suc k) n =
    length-append (figures 8 k (n / 8)) _ ∙ omega (arith, length-figures k (n / 8))

count_small : (fuel k n : ℕ) → n < 8 ^ k → count_figures 8 fuel n ≤ k
unfolding count_figures
count_small zero k n h = omega arith
count_small (suc fuel) zero n h = ground arith
count_small (suc fuel) (suc k) n h =
    ground (arith, count_small fuel k (n / 8) (omega (arith, pow-suc 8 k)))

-- A number below 8^k is printed with exactly k figures.
pub print-figures : (k n : ℕ) → n < 8 ^ k → print 8 k n ≡ figures 8 k n
unfolding print
print-figures k n h =
    let e : max k (count_figures 8 64 n) ≡ k = omega (arith, count_small 64 k n h) in
    ap (λ w. figures 8 w n) e

scaled : (acc k : ℕ) → acc * 8 ^ suc k ≡ acc * 8 ^ k * 8
scaled acc k = omega (arith, ap (λ (t : ℕ). acc * t) (pow-suc 8 k))

scan_digit :
    (m r : ℕ) (ys : List ℕ) (acc : ℕ)
    → r < 8
    → scan_from (suc m) ((48 + r) ∷ ys) acc ≡ scan_from m ys (acc * 8 + r)
unfolding scan_from
scan_digit m r ys acc h =
    let octal : is_octal (48 + r) ≡ true = ground arith in
    let value : acc * 8 + (48 + r - 48) ≡ acc * 8 + r = omega arith in
    ap (λ t. if t then scan_from m ys (acc * 8 + (48 + r - 48)) else acc) octal
    ∙ ap (scan_from m ys) value

scan_from-figures :
    (k m n : ℕ) (ys : List ℕ) (acc : ℕ)
    → n < 8 ^ k
    → scan_from (k + m) (figures 8 k n ++ ys) acc ≡ scan_from m ys (acc * 8 ^ k + n)
unfolding scan_from figures
scan_from-figures zero m n ys acc h =
    let w : 0 + m ≡ m = omega arith in
    let a : acc ≡ acc * 8 ^ 0 + n = omega arith in ap₂ (λ w a. scan_from w ys a) w a
scan_from-figures (suc k) m n ys acc h =
    let w : suc k + m ≡ k + suc m = omega arith in
    let a : (acc * 8 ^ k + n / 8) * 8 + n % 8 ≡ acc * 8 ^ suc k + n = omega (arith, scaled acc k) in
    ap₂ (λ w cs. scan_from w cs acc) w (append_assoc (figures 8 k (n / 8)) _ ys)
    ∙ scan_from-figures k (suc m) (n / 8) ((48 + n % 8) ∷ ys) acc (omega (arith, pow-suc 8 k))
    ∙ scan_digit m (n % 8) ys _ (omega arith)
    ∙ ap (scan_from m ys) a

figures_head : (k n : ℕ) → (r : ℕ) × (t : List ℕ) × (figures 8 (suc k) n ≡ (48 + r) ∷ t) × (r < 8)
unfolding figures
figures_head zero n = (n % 8, [], refl, omega arith)
figures_head (suc k) n =
    let (r, t, e, lt) = figures_head k (n / 8) in
    (r, t ++ (48 + n % 8) ∷ [], ap (λ cs. cs ++ (48 + n % 8) ∷ []) e, lt)

scan_octal-digit :
    (w r : ℕ) (cs : List ℕ)
    → r < 8
    → scan_octal (suc w) ((48 + r) ∷ cs) ≡ some (scan_from (suc w) ((48 + r) ∷ cs) 0)
unfolding scan_octal skip_spaces scan_signed scan_digits
scan_octal-digit w r cs h = ground arith

-- A number below 8^k, printed with k figures and read back with a width of k.
pub scan_octal-print :
    (k n : ℕ) (ys : List ℕ) → n < 8 ^ suc k → scan_octal (suc k) (print 8 (suc k) n ++ ys) ≡ some n
unfolding scan_from
scan_octal-print k n ys h =
    let (r, t, e, lt) = figures_head k n in
    let printed : print 8 (suc k) n ++ ys ≡ (48 + r) ∷ t ++ ys =
      ap (λ cs. cs ++ ys) (print-figures (suc k) n h ∙ e) in
    let width : suc k ≡ suc k + 0 = omega arith in
    ap (scan_octal (suc k)) printed
    ∙ scan_octal-digit k r (t ++ ys) lt
    ∙ ap some (
        ap₂ (λ w cs. scan_from w cs 0) width (ap (λ cs. cs ++ ys) (sym e))
        ∙ scan_from-figures (suc k) 0 n ys 0 h
        ∙ omega arith)

-- A string of bytes other than NUL, read back up to the NUL behind it.
pub data NoNul : List ℕ → Type 0 where
  nil : NoNul []
  cons : (c : ℕ) (cs : List ℕ) → NoNul cs → NoNul (suc c ∷ cs)

pub c_string-NoNul : (text rest : List ℕ) → NoNul text → c_string (text ++ 0 ∷ rest) ≡ text
unfolding c_string
c_string-NoNul _ rest nil = refl
c_string-NoNul _ rest (cons c cs some_text) = ap (◌∷◌ (suc c)) (c_string-NoNul cs rest some_text)

pub c_string_whole : (text : List ℕ) → NoNul text → c_string text ≡ text
unfolding c_string
c_string_whole _ nil = refl
c_string_whole _ (cons c cs some_text) = ap (◌∷◌ (suc c)) (c_string_whole cs some_text)
