-- ===== src/Prelude/Tables.antt =====
-- The list of a function's first values, by which a list is compared entry by entry.
use Prim.Native.Nat.{ℕ, zero, suc, ◌+◌, ◌≤◌, ◌<◌}
use mathlib.Core.Path.{◌≡◌, refl, sym, ap, ap₂, ◌∙◌}
use mathlib.Core.List.{List, [], ◌∷◌, ◌++◌}
use native.Mathlib.Omega.{arith}
use bell.Prelude.Lists.{length, get_or, take, drop, take-all}

module _ {ℓ} {A : Type ℓ} where
  abbrev pub tabulate : ℕ → (ℕ → A) → List A
  tabulate zero f = []
  tabulate (suc n) f = f 0 ∷ tabulate n (λ i. f (suc i))

module _ {ℓ} {A : Type ℓ} where
  pub length-tabulate : (n : ℕ) (f : ℕ → A) → length (tabulate n f) ≡ n
  length-tabulate zero f = refl
  length-tabulate (suc n) f = ap suc (length-tabulate n (λ i. f (suc i)))

  pub tabulate_ext :
      (n : ℕ) (f g : ℕ → A) → ((i : ℕ) → i < n → f i ≡ g i) → tabulate n f ≡ tabulate n g
  tabulate_ext zero f g h = refl
  tabulate_ext (suc n) f g h =
      ap₂ ◌∷◌ (h 0 (omega arith)) (tabulate_ext n _ _ (λ i l. h (suc i) (omega arith)))

  pub tabulate-add :
      (m n : ℕ) (f : ℕ → A) → tabulate (m + n) f ≡ tabulate m f ++ tabulate n (λ i. f (m + i))
  tabulate-add zero n f =
      ap (λ k. tabulate k f) (omega arith) ∙ tabulate_ext n _ _ (λ i _. ap f (omega arith))
  tabulate-add (suc m) n f =
      ap (λ k. tabulate k f) e
      ∙ ap (◌∷◌ (f 0)) (tabulate-add m n (λ i. f (suc i)) ∙ ap (◌++◌ (tabulate m _)) later)
    where
      e : suc m + n ≡ suc (m + n)
      e = omega arith

      later : tabulate n (λ i. f (suc (m + i))) ≡ tabulate n (λ i. f (suc m + i))
      later = tabulate_ext n _ _ (λ i _. ap f (omega arith))

  pub tabulate-get_or :
      (n : ℕ) (xs : List A) (d : A) → n ≤ length xs → tabulate n (λ i. get_or xs i d) ≡ take n xs
  tabulate-get_or zero xs d h = refl
  tabulate-get_or (suc n) [] d h = absurd (omega arith)
  tabulate-get_or (suc n) (x ∷ xs) d h = ap (◌∷◌ x) (tabulate-get_or n xs d (omega arith))

  pub take-tabulate : (m n : ℕ) (f : ℕ → A) → m ≤ n → take m (tabulate n f) ≡ tabulate m f
  take-tabulate zero n f h = refl
  take-tabulate (suc m) zero f h = absurd (omega arith)
  take-tabulate (suc m) (suc n) f h = ap (◌∷◌ (f 0)) (take-tabulate m n _ (omega arith))

  pub drop-tabulate :
      (m n : ℕ) (f : ℕ → A) → drop m (tabulate (m + n) f) ≡ tabulate n (λ i. f (m + i))
  drop-tabulate zero n f =
      ap (λ k. tabulate k f) (omega arith) ∙ tabulate_ext n _ _ (λ i _. ap f (omega arith))
  drop-tabulate (suc m) n f =
      ap (λ k. drop (suc m) (tabulate k f)) e
      ∙ drop-tabulate m n (λ i. f (suc i))
      ∙ tabulate_ext n _ _ (λ i _. ap f (omega arith))
    where
      e : suc m + n ≡ suc (m + n)
      e = omega arith

  -- A list is known by its length and its entries.
  pub eq-tabulate :
      (n : ℕ) (xs : List A) (f : ℕ → A) (d : A)
      → length xs ≡ n
      → ((i : ℕ) → i < n → get_or xs i d ≡ f i)
      → xs ≡ tabulate n f
  eq-tabulate n xs f d e h =
      sym (tabulate-get_or n xs d (omega arith) ∙ take-all n xs (omega arith))
      ∙ tabulate_ext n _ _ h
