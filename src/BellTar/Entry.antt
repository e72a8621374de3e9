-- ===== src/BellTar/Entry.antt =====
-- One entry of an archive, as the writer leaves it and as the reader takes it in.
use bell.Prelude.{
  ℕ, zero, suc, ◌+◌, ◌^◌, ◌<◌, ◌≡◌, sym, ap, ◌∙◌, List, [], ◌∷◌, ◌++◌, arith, length, replicate,
  append-nil, drop-Holds,
}
use mathlib.Core.Path.{subst}
use bell.Text.Octal.{NoNul, nil, cons}
use bell.BellTar.{write_header, fill, normal, directory}
use bell.BellTar.Header.{Describes, write_header-Describes}
use bell.BellTar.Fill.{gap, fill_lem, Begins, nothing, byte}

-- What a client has the writer store: a file with its bytes, or a directory.
pub data Entry : Type 0 where
  file : List ℕ → List ℕ → Entry
  folder : List ℕ → Entry

abbrev pub name_of : Entry → List ℕ
name_of (file name bytes) = name
name_of (folder name) = name

abbrev pub bytes_of : Entry → List ℕ
bytes_of (file name bytes) = bytes
bytes_of (folder name) = []

abbrev pub type_of : Entry → ℕ
type_of (file name bytes) = normal
type_of (folder name) = directory

-- Names of 1 to 99 bytes other than NUL, and sizes of at most eleven octal figures.
pub record IsValid (e : Entry) : Type 0 where
  pub text : NoNul (name_of e)
  pub some_name : 0 < length (name_of e)
  pub short_name : length (name_of e) < 100
  pub small : length (bytes_of e) < 8 ^ 11

pub data AllValid : List Entry → Type 0 where
  none_left : AllValid []
  one_more : (e : Entry) (es : List Entry) → IsValid e → AllValid es → AllValid (e ∷ es)

module _ (now rand : ℕ) where
  abbrev pub header_of : Entry → List ℕ
  header_of e = write_header now rand (name_of e) (length (bytes_of e)) (type_of e)

  -- What a finished archive has from an entry on.
  unfoldable pub archive : List Entry → List ℕ
  archive [] = replicate 1024 0
  archive (e ∷ es) = header_of e ++ (bytes_of e ++ (fill (length (bytes_of e)) ++ archive es))

  -- The same less the padding at the end.
  abbrev pub body : List Entry → List ℕ
  body [] = []
  body (e ∷ es) = archive (e ∷ es)

  pub header_of-Describes :
      (e : Entry)
      → IsValid e
      → Describes (header_of e) (name_of e) (length (bytes_of e)) (type_of e)
  header_of-Describes e v =
      write_header-Describes now rand (name_of e) (length (bytes_of e)) (type_of e) v.text
        v.some_name v.short_name v.small

  named :
      (h name rest : List ℕ) (size type : ℕ)
      → NoNul name
      → 0 < length name
      → Describes h name size type
      → (c : ℕ) × (cs : List ℕ) × (h ++ rest ≡ suc c ∷ cs)
  named h _ rest size type nil p d = absurd (omega arith)
  named h _ rest size type (cons c cs some_text) p d =
      (c, _, ap (λ t. t ++ rest) (drop-Holds h 0 _ d.name_at))

  -- No header starts with a NUL.
  pub first_byte :
      (e : Entry) (es : List Entry)
      → IsValid e
      → (c : ℕ) × (cs : List ℕ) × (archive (e ∷ es) ≡ suc c ∷ cs)
  unfolding archive
  first_byte e es v =
      named (header_of e) (name_of e) _ _ _ v.text v.some_name (header_of-Describes e v)

  pub Begins-body : (es : List Entry) → AllValid es → Begins (body es)
  Begins-body _ none_left = nothing
  Begins-body _ (one_more e es v vs) =
      let (c, cs, eq) = first_byte e es v in subst Begins (sym eq) (byte c cs)

  replicate-add : (m n : ℕ) → replicate {A = ℕ} m 0 ++ replicate n 0 ≡ replicate (m + n) 0
  replicate-add zero n = ap (λ k. replicate {A = ℕ} k 0) (omega arith)
  replicate-add (suc m) n =
      let e : suc (m + n) ≡ suc m + n = omega arith in
      ap (◌∷◌ 0) (replicate-add m n) ∙ ap (λ k. replicate {A = ℕ} k 0) e

  -- Behind an entry come NULs and the next header.
  pub padding :
      (es : List Entry) (n : ℕ)
      → n < 2 ^ 64
      → (k : ℕ) × (fill n ++ archive es ≡ replicate k 0 ++ body es)
  unfolding archive
  padding [] n h = (
    gap n + 1024,
    ap (λ t. t ++ replicate 1024 0) (fill_lem n h)
        ∙ replicate-add (gap n) 1024
        ∙ sym (append-nil _),
  )
  padding (e ∷ es) n h = (gap n, ap (λ t. t ++ archive (e ∷ es)) (fill_lem n h))
