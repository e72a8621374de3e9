-- ===== src/BellTar/Reading.antt =====
-- The reader over one entry of an archive.
use bell.Prelude.{
  copy_whole, ◌⊎◌, inl, inr, ℕ, suc, ◌^◌, ◌<◌, ◌≡◌, refl, sym, ap, ◌∙◌, true, false, List, [], ◌∷◌,
  ◌++◌, some, arith, length, copy_at, ◌==◌,
}
use mathlib.Core.Path.{subst}
use bell.Stream.{Stream, read, seek_by}
use bell.Stream.Laws.{At, peek-At, read-At, seek_by-At}
use bell.BellTar.{fill, header_get_filename, header_get_filesize, header_get_filetype}
use bell.BellTar.Header.{
  header_get_filename-Describes, header_get_filesize-Describes, header_get_filetype-Describes,
}
use bell.BellTar.Fill.{Settled, ended, standing, seek_to_next_header-At}
use bell.BellTar.Entry.{
  Entry, name_of, bytes_of, type_of, IsValid, AllValid, one_more, header_of, archive, body,
  header_of-Describes, Begins-body, first_byte, padding,
}
use bell.BellTar.Reader.{
  Reader, Unset, check_if_header_is_next, contains_another_file, load_header, cache_header,
  read_next_file, skip_next_file, get_next_file_size, next_entry, seek_to_next_header,
}

check-At_byte :
    {s : Stream} {c : ℕ} {cs : List ℕ} → At s (suc c ∷ cs) → check_if_header_is_next s ≡ (true, s)
unfolding check_if_header_is_next
check-At_byte {s} {c} at =
    let other : suc c == 0 ≡ false = ground arith in rw (peek-At at, other, at.no_eof) refl

pub check-At_nul :
    {s : Stream} {cs : List ℕ} → At s (0 ∷ cs) → check_if_header_is_next s ≡ (false, s)
unfolding check_if_header_is_next
check-At_nul at = rw (peek-At at, at.no_eof) refl

module _ (now rand : ℕ) (unset : Unset) (junk : length unset.bytes ≡ 512) where
  -- Where the reader stands with these entries to come.
  pub data Ready (s : Stream) : List Entry → Type 0 where
    entry : (e : Entry) (es : List Entry) → At s (archive now rand (e ∷ es)) → Ready s (e ∷ es)
    padded : At s (archive now rand []) → Ready s []
    past : s.eof ≡ true → s.failed ≡ false → Ready s []

  pub contains-entry :
      {s : Stream} (e : Entry) (es : List Entry)
      → IsValid e
      → At s (archive now rand (e ∷ es))
      → check_if_header_is_next s ≡ (true, s)
  contains-entry {s} e es v at =
      let (c, cs, eq) = first_byte now rand e es v in check-At_byte (subst (At s) eq at)

  -- The header of the entry in the cache, and the stream behind it.
  pub record Loaded (r r' : Reader) (e : Entry) (rest : List ℕ) : Type 0 where
    pub name : r'.file_name ≡ name_of e
    pub size : r'.file_size ≡ length (bytes_of e)
    pub type : r'.file_type ≡ type_of e
    pub valid : r'.cached_valid ≡ true
    pub at : At r'.inp (bytes_of e ++ rest)
    pub count : r'.number_of_files ≡ r.number_of_files

  load_header-Loaded :
      (r : Reader) (e : Entry) (rest : List ℕ)
      → IsValid e
      → At r.inp (header_of now rand e ++ (bytes_of e ++ rest))
      → Loaded r (load_header unset r) e rest
  unfolding load_header
  load_header-Loaded r e rest v at =
      let h : List ℕ = header_of now rand e in
      let d = header_of-Describes now rand e v in
      let got : (read r.inp 512).0 ≡ h =
        ap (λ n. (read r.inp n).0) (sym d.whole) ∙ (read-At h _ at).0 in
      let whole : copy_at unset.bytes 0 (read r.inp 512).0 ≡ h =
        ap (copy_at unset.bytes 0) got ∙ copy_whole unset.bytes h (junk ∙ sym d.whole) in
      record {
        name = ap header_get_filename whole ∙ header_get_filename-Describes d v.text;
        size =
            ap (header_get_filesize unset.number) whole
            ∙ header_get_filesize-Describes d unset.number v.small;
        type = ap header_get_filetype whole ∙ header_get_filetype-Describes d;
        valid = refl;
        at = subst (λ n. At (read r.inp n).1 (bytes_of e ++ rest)) d.whole (read-At h _ at).1;
        count = refl;
      }

  -- A reader whose cache is empty loads the header; one whose cache is full does nothing.
  pub cache_header-entry :
      (r : Reader) (e : Entry) (es : List Entry)
      → r.cached_valid ≡ false
      → IsValid e
      → At r.inp (archive now rand (e ∷ es))
      → (r' : Reader) × (cache_header unset r ≡ some r')
        × Loaded r r' e (fill (length (bytes_of e)) ++ archive now rand es)
  unfolding cache_header contains_another_file archive
  cache_header-entry r e es empty v at = (
    load_header unset r,
    rw (contains-entry e es v at, empty) refl,
    load_header-Loaded r e _ v at,
  )

  pub cache_header-Loaded :
      {r r' : Reader} {e : Entry} {rest : List ℕ}
      → Loaded r r' e rest
      → cache_header unset r' ≡ some r'
  unfolding cache_header
  cache_header-Loaded l = rw l.valid refl

  -- The reader behind the entry.
  pub record Passed (r r' : Reader) (es : List Entry) : Type 0 where
    pub empty : r'.cached_valid ≡ false
    pub ready : Ready r'.inp es
    pub count : r'.number_of_files ≡ r.number_of_files

  ends_or_stands :
      {s : Stream} {bs : List ℕ}
      → Settled s bs
      → ((bs ≡ []) × (s.eof ≡ true) × (s.failed ≡ false))
        ⊎ ((c : ℕ) × (cs : List ℕ) × (bs ≡ suc c ∷ cs) × At s bs)
  ends_or_stands (ended e f) = inl (refl, e, f)
  ends_or_stands (standing c cs at) = inr (c, cs, refl, at)

  settled : {s : Stream} (es : List Entry) → AllValid es → Settled s (body now rand es) → Ready s es
  settled [] vs st = elim (ends_or_stands st) [
    | inl stopped ↦ past stopped.1 stopped.2
    | inr (c, cs, eq, at) ↦ absurd (let clash : [] ≡ suc c ∷ cs = eq in cc)
  ]
  settled _ (one_more e es v vs) st = elim (ends_or_stands st) [
    | inl stopped ↦
        let (c, cs, eq) = first_byte now rand e es v in
        let clash : suc c ∷ cs ≡ [] = sym eq ∙ stopped.0 in cc
    | inr (c, cs, eq, at) ↦ entry e es at
  ]

  pub seek_to_next_header-Ready :
      {s : Stream} (es : List Entry) (n : ℕ)
      → AllValid es
      → n < 2 ^ 64
      → At s (fill n ++ archive now rand es)
      → Ready (seek_to_next_header s) es
  seek_to_next_header-Ready {s} es n vs h at =
      let (k, eq) = padding now rand es n h in
      settled es vs (seek_to_next_header-At k (Begins-body now rand es vs) (subst (At s) eq at))

  module _ {r r' : Reader} {e : Entry} (es : List Entry) (v : IsValid e) (vs : AllValid es)
      (cached : cache_header unset r ≡ some r')
      (l : Loaded r r' e (fill (length (bytes_of e)) ++ archive now rand es)) where
    -- `read_next_file` copies out the bytes of the entry, and passes over it.
    pub read_next_file-entry :
        (r'' : Reader) × (read_next_file unset r ≡ some (bytes_of e, r'')) × Passed r r'' es
    unfolding read_next_file get_next_file_size
    read_next_file-entry =
        let (got, after) = read-At (bytes_of e) _ l.at in
        (
          next_entry unset r' (read r'.inp (length (bytes_of e))).1,
          rw (cached, l.size, got) refl,
          record {
            empty = refl;
            ready =
                seek_to_next_header-Ready es (length (bytes_of e)) vs (omega (arith, v.small))
                  after;
            count = l.count;
          },
        )

    -- `skip_next_file` passes over it without a read.
    pub skip_next_file-entry :
        (r'' : Reader) × (skip_next_file unset r ≡ some r'') × Passed r r'' es
    unfolding skip_next_file get_next_file_size
    skip_next_file-entry = (
      next_entry unset r' (seek_by r'.inp (length (bytes_of e))),
      rw (cached, l.size) refl,
      record {
        empty = refl;
        ready =
            seek_to_next_header-Ready es (length (bytes_of e)) vs (omega (arith, v.small))
              (seek_by-At (bytes_of e) _ l.at);
        count = l.count;
      },
    )
