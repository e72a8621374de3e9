-- ===== src/BellTar/Checksum.antt =====
-- The checksum of a header: what `header_set_checksum` stores is what a reader of tar archives verifies.
use bell.Prelude.{
  ℕ, zero, suc, ◌+◌, ◌%◌, ◌^◌, ◌≤◌, ◌≡◌, refl, sym, ap, ap₂, ◌∙◌, List, [], ◌∷◌, ◌++◌, some, arith,
  length, take, drop, replicate, copy_at, length-copy_at, append_assoc, Holds-copy_at, drop-Holds,
}
use bell.Text.{print, scan_octal}
use bell.Text.Octal.{scan_octal-print}
use bell.BellTar.{sum_bytes, header_set_checksum}
use bell.BellTar.Header.{checksum_small, length-print}

take-copy_at :
    (n : ℕ) (h : List ℕ) (off : ℕ) (xs : List ℕ) → n ≤ off → take n (copy_at h off xs) ≡ take n h
take-copy_at zero h off xs le = refl
take-copy_at (suc n) [] off xs le = refl
take-copy_at (suc n) (c ∷ h) zero xs le = absurd (omega arith)
take-copy_at (suc n) (c ∷ h) (suc off) xs le = ap (◌∷◌ c) (take-copy_at n h off xs (omega arith))

drop-copy_at :
    (n : ℕ) (h : List ℕ) (off : ℕ) (xs : List ℕ)
    → off + length xs ≤ n
    → drop n (copy_at h off xs) ≡ drop n h
drop-copy_at n [] off xs le = refl
drop-copy_at n (c ∷ h) zero [] le = refl
drop-copy_at zero (c ∷ h) zero (x ∷ xs) le = absurd (omega arith)
drop-copy_at (suc n) (c ∷ h) zero (x ∷ xs) le = drop-copy_at n h zero xs (omega arith)
drop-copy_at zero (c ∷ h) (suc off) xs le = absurd (omega arith)
drop-copy_at (suc n) (c ∷ h) (suc off) xs le = drop-copy_at n h off xs (omega arith)

copy_split :
    (h : List ℕ) (off : ℕ) (xs : List ℕ)
    → off + length xs ≤ length h
    → copy_at h off xs ≡ take off h ++ (xs ++ drop (off + length xs) h)
copy_split [] zero [] le = refl
copy_split [] zero (x ∷ xs) le = absurd (omega arith)
copy_split [] (suc off) xs le = absurd (omega arith)
copy_split (c ∷ h) zero [] le = refl
copy_split (c ∷ h) zero (x ∷ xs) le =
    let e : suc (0 + length xs) ≡ 0 + suc (length xs) = omega arith in
    ap (◌∷◌ x) (copy_split h zero xs (omega arith) ∙ ap (λ k. xs ++ drop k (c ∷ h)) e)
copy_split (c ∷ h) (suc off) xs le =
    let e : suc (off + length xs) ≡ suc off + length xs = omega arith in
    ap (◌∷◌ c)
      (copy_split h off xs (omega arith) ∙ ap (λ k. take off h ++ (xs ++ drop k (c ∷ h))) e)

sum_bytes-append :
    (xs ys : List ℕ) (sum : ℕ) → sum_bytes (xs ++ ys) sum ≡ sum_bytes ys (sum_bytes xs sum)
unfolding sum_bytes
sum_bytes-append [] ys sum = refl
sum_bytes-append (x ∷ xs) ys sum = sum_bytes-append xs ys _

spaces : (sum : ℕ) → sum_bytes (replicate 8 32) sum ≡ (sum + 256) % 2 ^ 32
unfolding sum_bytes
spaces sum = omega arith

-- The sum with the field taken as spaces, from the parts beside the field.
sum_parts :
    (h : List ℕ)
    → length h ≡ 512
    → sum_bytes (copy_at h 148 (replicate 8 32)) 0
      ≡ sum_bytes (drop 156 h) ((sum_bytes (take 148 h) 0 + 256) % 2 ^ 32)
sum_parts h whole =
    ap (λ t. sum_bytes t 0) (copy_split h 148 (replicate 8 32) (omega arith))
    ∙ sum_bytes-append (take 148 h) (replicate 8 32 ++ drop 156 h) 0
    ∙ sum_bytes-append (replicate 8 32) (drop 156 h) _
    ∙ ap (sum_bytes (drop 156 h)) (spaces _)

-- In any header of 512 bytes, the checksum field that `header_set_checksum` has written reads as the sum
-- of all bytes of the header, with the eight bytes of the field itself counted as spaces.
pub header_set_checksum_lem :
    (h : List ℕ)
    → length h ≡ 512
    → scan_octal 6 (drop 148 (header_set_checksum h))
      ≡ some (sum_bytes (copy_at (header_set_checksum h) 148 (replicate 8 32)) 0)
unfolding header_set_checksum
header_set_checksum_lem h whole =
    let v : ℕ = sum_bytes (drop 156 h) ((sum_bytes (take 148 h) 0 + 256) % 2 ^ 32) in
    let field : List ℕ = print 8 6 v ++ 0 ∷ [] in
    let hc : List ℕ = copy_at h 148 field in
    let size = length-print 6 v (checksum_small h whole) in
    let front : take 148 hc ≡ take 148 h = take-copy_at 148 h 148 field (omega arith) in
    let back : drop 156 hc ≡ drop 156 h = drop-copy_at 156 h 148 field (omega (arith, size)) in
    ap (scan_octal 6) (
      drop-Holds hc 148 field (Holds-copy_at h 148 field (omega (arith, size)))
      ∙ append_assoc (print 8 6 v) (0 ∷ []) _)
    ∙ scan_octal-print 5 v _ (checksum_small h whole)
    ∙ ap some (
        sym (
          sum_parts hc (length-copy_at h 148 field ∙ whole)
          ∙ ap₂ (λ s t. sum_bytes s ((sum_bytes t 0 + 256) % 2 ^ 32)) back front))
