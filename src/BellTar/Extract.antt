-- ===== src/BellTar/Extract.antt =====
-- Extraction: the actions of `extract_all_files` on an archive that the writer made.
use bell.Prelude.{
  ℕ, zero, suc, ◌+◌, ◌<◌, ◌≡◌, refl, sym, ap, ◌∙◌, Bool, Bool-cases, inl, inr, true, false, not,
  ◌||◌, List, [], ◌∷◌, ◌++◌, none, some, arith, length, ltb, if◌then◌else◌,
}
use bell.Stream.{Stream, good, spoiled, read}
use bell.BellTar.{fill}
use bell.BellTar.Entry.{Entry, file, folder, bytes_of, IsValid, AllValid, one_more, archive}
use bell.BellTar.Reading.{
  Ready, entry, Loaded, Passed, cache_header-entry, cache_header-Loaded, skip_next_file-entry,
  seek_to_next_header-Ready,
}
use bell.BellTar.Archive.{
  write_all, write_all_lem, holds_none, holds_more, copy_enough, Ready-start,
}
use bell.BellTar.Reader.{
  Reader, Unset, Action, write_file, make_dirs, hidden, open_reader, copy_out, extract_one,
  extract_all_files, next_entry,
}

-- A file is written below the destination, its directories first; one whose name starts with `._`, and a
-- directory, is passed over.
abbrev pub actions_of : List ℕ → Entry → List Action
actions_of dest (file name bytes) =
    if hidden name
    then []
    else make_dirs [] (dest ++ 47 ∷ name) ++ write_file (dest ++ 47 ∷ name) bytes ∷ []
actions_of dest (folder name) = []

abbrev pub actions : List ℕ → List Entry → List Action
actions dest [] = []
actions dest (e ∷ es) = actions_of dest e ++ actions dest es

-- A stream at the start of its bytes
abbrev pub fresh : List ℕ → Stream
fresh bytes = record { bytes = bytes; pos = 0; eof = false; failed = false }

-- Fuel for an archive: a step for each entry and each byte.
abbrev pub work : List Entry → ℕ
work [] = 0
work (e ∷ es) = suc (length (bytes_of e) + work es)

spoiled_bad : (b : Bool) → not (b || true) ≡ false
spoiled_bad true = refl
spoiled_bad false = refl

module _ (now rand : ℕ) (unset : Unset) (junk : length unset.bytes ≡ 512) (dest : List ℕ) where
  again :
      {r r' : Reader} {e : Entry} {rest : List ℕ}
      → Loaded now rand unset junk r r' e rest
      → Loaded now rand unset junk r' r' e rest
  again l = record {
    name = l.name;
    size = l.size;
    type = l.type;
    valid = l.valid;
    at = l.at;
    count = refl;
  }

  one_enough :
      (fuel : ℕ) {r r' : Reader} (e : Entry) (es : List Entry)
      → length (bytes_of e) < fuel
      → IsValid e
      → AllValid es
      → Loaded now rand unset junk r r' e (fill (length (bytes_of e)) ++ archive now rand es)
      → (r'' : Reader) × (extract_one unset dest fuel r' ≡ some (actions_of dest e, r''))
        × Passed now rand unset junk r' r'' es
  unfolding extract_one
  one_enough fuel {r} {r'} (folder name) es lt v vs l =
      let (r2, skipped, passed) =
        skip_next_file-entry now rand unset junk es v vs (cache_header-Loaded now rand unset junk l)
          (again l) in
      (r2, rw (skipped, l.type) refl, passed)
  one_enough fuel {r} {r'} (file name bytes) es lt v vs l = elim (Bool-cases (hidden name)) [
    | inl hid ↦
        let (r2, skipped, passed) =
          skip_next_file-entry now rand unset junk es v vs
            (cache_header-Loaded now rand unset junk l) (again l) in
        (r2, rw (skipped, l.name, hid, l.type) refl, passed)
    | inr shown ↦
        let (s', copied, at') = copy_enough now rand unset junk fuel 0 bytes _ lt l.at in
        let start : 0 + length bytes ≡ length bytes = omega arith in
        let out : copy_out unset fuel r'.inp 0 r'.file_size ≡ some (bytes, s') =
          ap (copy_out unset fuel r'.inp 0) (l.size ∙ sym start) ∙ copied in
        (
          next_entry unset r' s',
          rw (out, l.type, l.name, shown) refl,
          record {
            empty = refl;
            ready =
                seek_to_next_header-Ready now rand unset junk es (length bytes) vs
                  (omega (arith, v.small)) at';
            count = refl;
          },
        )
  ]

  extract_enough :
      (fuel : ℕ) (es : List Entry) (r : Reader)
      → work es < fuel
      → AllValid es
      → r.cached_valid ≡ false
      → Ready now rand unset junk r.inp es
      → (r' : Reader) × (extract_all_files unset dest fuel r ≡ some (actions dest es, r'))
  unfolding extract_all_files
  extract_enough zero es r lt vs empty ready = absurd (omega arith)
  extract_enough (suc fuel) [] r lt vs empty ready =
      let (r', stop) = holds_none now rand unset junk r ready in (r', rw stop refl)
  extract_enough (suc fuel) _ r lt (one_more e es v vs) empty (entry _ _ at) =
      let (r1, cached, l) = cache_header-entry now rand unset junk r e es empty v at in
      let (r2, one, passed) = one_enough fuel e es (omega arith) v vs l in
      let (r3, more) = extract_enough fuel es r2 (omega arith) vs passed.empty passed.ready in
      (r3, rw (holds_more now rand unset junk r e es v at, cached, one, more) refl)

  -- `extract_all_files` on an archive that the writer made carries out exactly the actions of its
  -- entries, in order, and ends, given fuel above the number of its entries and bytes; each entry has a
  -- name of 1 to 99 bytes and a size below 8^11.
  pub extract_all_files-write_all :
      (es : List Entry) (fuel : ℕ)
      → AllValid es
      → work es < fuel
      → (r : Reader) × (extract_all_files unset dest fuel
            (open_reader unset (fresh (write_all now rand es [])))
          ≡ some (actions dest es, r))
  unfolding open_reader
  extract_all_files-write_all es fuel vs lt = extract_enough fuel es _ lt vs refl (
      Ready-start now rand unset junk es vs
        (record { no_eof = refl; no_fail = refl; coming = write_all_lem now rand es [] }))

-- Where the archive ends inside a file, the loop of `extract_all_files` that copies the file never
-- ends: no fuel is enough once a read has come short.
pub copy_out_stuck :
    (unset : Unset) (fuel : ℕ) (s : Stream) (n size : ℕ)
    → good s ≡ false
    → n < size
    → copy_out unset fuel s n size ≡ none
unfolding copy_out read
copy_out_stuck unset zero s n size bad lt = refl
copy_out_stuck unset (suc fuel) s n size bad lt =
    let still : good (spoiled s) ≡ false = spoiled_bad s.eof in
    let ih = copy_out_stuck unset fuel (spoiled s) (n + 0) size still (omega arith) in
    let more : ltb n size ≡ true = ground arith in rw (bad, more, ih) refl
