-- ===== src/Prelude/Memory.antt =====
-- What a flat buffer holds at an offset, and how a copy into it changes that.
use Prim.Native.Nat.{ℕ, suc, ◌+◌, ◌≤◌, ◌<◌}
use mathlib.Core.Path.{◌≡◌, ap, refl, ap₂, ◌∙◌}
use mathlib.Core.List.{List, [], ◌∷◌, ◌++◌}
use mathlib.Core.Logic.{◌⊎◌, inl, inr}
use native.Mathlib.Omega.{arith}
use bell.Prelude.Lists.{
  length, get_or, drop, copy_at, length-drop, length-copy_at, get_or-drop, get_or-copy_at_below,
  get_or-copy_at_above, get_or-copy_at_in,
}

-- `xs` stands in `h` at the offset.
pub record Holds (h : List ℕ) (off : ℕ) (xs : List ℕ) : Type 0 where
  pub fits : off + length xs ≤ length h
  pub each : (k : ℕ) → k < length xs → get_or h (off + k) 0 ≡ get_or xs k 0

-- A copy puts its bytes in place, and leaves what lies beside it.
pub Holds-copy_at :
    (h : List ℕ) (off : ℕ) (xs : List ℕ)
    → off + length xs ≤ length h
    → Holds (copy_at h off xs) off xs
Holds-copy_at h off xs fits = record {
  fits = omega (arith, length-copy_at h off xs);
  each = λ k lt. get_or-copy_at_in h off xs k (off + k) 0 refl lt (omega arith);
}

pub Holds-copy_at_beside :
    (h : List ℕ) (off : ℕ) (xs : List ℕ) (at : ℕ) (ys : List ℕ)
    → Holds h off xs
    → (off + length xs ≤ at) ⊎ (at + length ys ≤ off)
    → Holds (copy_at h at ys) off xs
Holds-copy_at_beside h off xs at ys holds (inl before) = record {
  fits = omega (arith, length-copy_at h at ys, holds.fits);
  each = λ k lt. get_or-copy_at_below h at ys (off + k) 0 (omega arith) ∙ holds.each k lt;
}
Holds-copy_at_beside h off xs at ys holds (inr after) = record {
  fits = omega (arith, length-copy_at h at ys, holds.fits);
  each = λ k lt. get_or-copy_at_above h at ys (off + k) 0 (omega arith) ∙ holds.each k lt;
}

prefix :
    (h xs : List ℕ)
    → length xs ≤ length h
    → ((k : ℕ) → k < length xs → get_or h k 0 ≡ get_or xs k 0)
    → h ≡ xs ++ drop (length xs) h
prefix h [] fits each = refl
prefix [] (x ∷ xs) fits each = absurd (omega arith)
prefix (c ∷ h) (x ∷ xs) fits each =
    ap₂ ◌∷◌ (each 0 (omega arith)) (prefix h xs (omega arith) (λ k lt. each (suc k) (omega arith)))

-- The buffer from the offset on.
pub drop-Holds :
    (h : List ℕ) (off : ℕ) (xs : List ℕ)
    → Holds h off xs
    → drop off h ≡ xs ++ drop (length xs) (drop off h)
drop-Holds h off xs holds =
    prefix (drop off h) xs (omega (arith, length-drop off h, holds.fits))
      (λ k lt. get_or-drop off h k 0 ∙ holds.each k lt)

-- Every entry is a byte.
pub data AllBytes : List ℕ → Type 0 where
  none_left : AllBytes []
  one_more : (c : ℕ) (cs : List ℕ) → c < 256 → AllBytes cs → AllBytes (c ∷ cs)

-- A copy over the whole buffer
pub copy_whole : (xs ys : List ℕ) → length xs ≡ length ys → copy_at xs 0 ys ≡ ys
copy_whole [] [] h = refl
copy_whole [] (y ∷ ys) h = absurd (omega arith)
copy_whole (x ∷ xs) [] h = absurd (omega arith)
copy_whole (x ∷ xs) (y ∷ ys) h = ap (◌∷◌ y) (copy_whole xs ys (omega arith))
