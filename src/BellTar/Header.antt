-- ===== src/BellTar/Header.antt =====
-- The fields of a header that `_write_header` has made, and how the reader's functions read them.
use bell.Prelude.{
  ℕ, ◌+◌, ◌*◌, ◌%◌, ◌^◌, ◌≤◌, ◌<◌, ◌≡◌, ap, ◌∙◌, inl, inr, List, [], ◌∷◌, ◌++◌, some, arith, false,
  ◌||◌, length, take, drop, length-take, length-drop, length-append, length-copy_at, Holds,
  Holds-copy_at, Holds-copy_at_beside, drop-Holds, leb, ◌==◌, none, append_assoc,
}
use bell.Text.{c_string, sprintf, print, scan_octal}
use bell.Text.Octal.{
  NoNul, c_string-NoNul, c_string_whole, print-figures, length-figures, scan_octal-print,
}
use bell.BellTar.{
  header_set_metadata, sum_bytes, header_set_checksum, header_set_filetype, header_get_filetype,
  header_set_filesize, header_get_filesize, header_set_filename, header_get_filename, write_header,
}

sum_bytes_bound : (cs : List ℕ) (sum : ℕ) → sum_bytes cs sum ≤ sum + 255 * length cs
unfolding sum_bytes
sum_bytes_bound [] sum = omega arith
sum_bytes_bound (c ∷ cs) sum = omega (arith, sum_bytes_bound cs ((sum + c % 256) % 2 ^ 32))

pub length-header_set_metadata : (now : ℕ) → length (header_set_metadata now) ≡ 512
unfolding header_set_metadata
length-header_set_metadata now = simp length-copy_at

pub length-print : (k n : ℕ) → n < 8 ^ k → length (print 8 k n ++ 0 ∷ []) ≡ k + 1
length-print k n h =
    ap (λ cs. length (cs ++ 0 ∷ [])) (print-figures k n h)
    ∙ length-append _ (0 ∷ [])
    ∙ omega (arith, length-figures k n)

-- What the reader needs of a header.
pub record Describes (h name : List ℕ) (size type : ℕ) : Type 0 where
  pub whole : length h ≡ 512
  pub name_at : Holds h 0 (name ++ 0 ∷ [])
  pub size_at : Holds h 124 (print 8 11 size ++ 0 ∷ [])
  pub type_at : Holds h 156 (type ∷ [])

length-name : (name : List ℕ) → length (name ++ 0 ∷ []) ≡ length name + 1
length-name name = length-append name (0 ∷ []) ∙ omega arith

-- The checksum has six figures, so that it stays inside its field.
pub checksum_small :
    (h : List ℕ)
    → length h ≡ 512
    → sum_bytes (drop 156 h) ((sum_bytes (take 148 h) 0 + 256) % 2 ^ 32) < 8 ^ 6
checksum_small h whole = omega (
  arith,
  sum_bytes_bound (take 148 h) 0,
  sum_bytes_bound (drop 156 h) ((sum_bytes (take 148 h) 0 + 256) % 2 ^ 32),
  length-take 148 h,
  length-drop 156 h,
)

Describes-header_set_checksum :
    {h name : List ℕ} {size type : ℕ}
    → Describes h name size type
    → size < 8 ^ 11
    → length name < 100
    → Describes (header_set_checksum h) name size type
unfolding header_set_checksum
Describes-header_set_checksum {h} {name} {size} {type} d small short =
    let v : ℕ = sum_bytes (drop 156 h) ((sum_bytes (take 148 h) 0 + 256) % 2 ^ 32) in
    let sum = length-print 6 v (checksum_small h d.whole) in
    let octal = length-print 11 size small in
    record {
      whole = length-copy_at h 148 (print 8 6 v ++ 0 ∷ []) ∙ d.whole;
      name_at = Holds-copy_at_beside h 0 _ 148 _ d.name_at (inl (omega (arith, length-name name)));
      size_at = Holds-copy_at_beside h 124 _ 148 _ d.size_at (inl (omega (arith, octal)));
      type_at = Holds-copy_at_beside h 156 _ 148 _ d.type_at (inr (omega (arith, sum)));
    }

module _ (now rand : ℕ) (name : List ℕ) (size type : ℕ) where
  fields : List ℕ → List ℕ
  unfolding header_set_filesize header_set_filetype
  fields h = header_set_filetype (header_set_filesize (sprintf h 0 name) size) type

  fields-Describes :
      (m : List ℕ)
      → length m ≡ 512
      → length name < 100
      → size < 8 ^ 11
      → Describes (fields m) name size type
  unfolding fields
  fields-Describes m whole short small =
      let octal = length-print 11 size small in
      let named = length-name name in
      let h1 : List ℕ = sprintf m 0 name in
      let w1 = length-copy_at m 0 (name ++ 0 ∷ []) in
      let h2 : List ℕ = sprintf h1 124 (print 8 11 size) in
      let w2 = length-copy_at h1 124 (print 8 11 size ++ 0 ∷ []) in
      let n1 = Holds-copy_at m 0 (name ++ 0 ∷ []) (omega (arith, named)) in
      let n2 =
        Holds-copy_at_beside h1 0 _ 124 (print 8 11 size ++ 0 ∷ []) n1
          (inl (omega (arith, named))) in
      let s2 = Holds-copy_at h1 124 (print 8 11 size ++ 0 ∷ []) (omega (arith, octal, w1)) in
      record {
        whole = length-copy_at h2 156 (type ∷ []) ∙ w2 ∙ w1 ∙ whole;
        name_at = Holds-copy_at_beside h2 0 _ 156 (type ∷ []) n2 (inl (omega (arith, named)));
        size_at = Holds-copy_at_beside h2 124 _ 156 (type ∷ []) s2 (inl (omega (arith, octal)));
        type_at = Holds-copy_at h2 156 (type ∷ []) (omega (arith, w1, w2));
      }

  pub write_header-Describes :
      NoNul name
      → 0 < length name
      → length name < 100
      → size < 8 ^ 11
      → Describes (write_header now rand name size type) name size type
  unfolding write_header header_set_filename header_set_filesize header_set_filetype fields
  write_header-Describes text p short small =
      let usual : length name == 0 || leb 100 (length name) ≡ false = ground arith in
      rw (c_string_whole name text, usual)
        (Describes-header_set_checksum
          (fields-Describes (header_set_metadata now) (length-header_set_metadata now) short small)
          small short)

module _ {h name : List ℕ} {size type : ℕ} (d : Describes h name size type) where
  pub header_get_filename-Describes : NoNul name → header_get_filename h ≡ name
  unfolding header_get_filename
  header_get_filename-Describes text =
      ap c_string (drop-Holds h 0 _ d.name_at ∙ append_assoc name (0 ∷ []) _)
      ∙ c_string-NoNul name _ text

  pub header_get_filesize-Describes :
      (unset : ℕ) → size < 8 ^ 11 → header_get_filesize unset h ≡ size
  unfolding header_get_filesize
  header_get_filesize-Describes unset small =
      let scanned : scan_octal 11 (drop 124 h) ≡ some size =
        ap (scan_octal 11)
          (drop-Holds h 124 _ d.size_at ∙ append_assoc (print 8 11 size) (0 ∷ []) _)
        ∙ scan_octal-print 10 size _ small in
      ap (λ o. elim o as (λ _. ℕ) [ none ↦ unset | some n ↦ n ]) scanned

  pub header_get_filetype-Describes : header_get_filetype h ≡ type
  unfolding header_get_filetype
  header_get_filetype-Describes = d.type_at.each 0 (omega arith)
