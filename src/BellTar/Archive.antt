-- ===== src/BellTar/Archive.antt =====
-- Whole archives: what the writer made is counted and extracted by the reader.
use bell.Prelude.{
  ℕ, zero, suc, ◌+◌, ◌-◌, ◌<◌, ◌≡◌, refl, sym, ap, ◌∙◌, true, false, List, [], ◌∷◌, ◌++◌, Option,
  none, some, arith, min, length, take, drop, append_assoc, take-append-drop, length-take,
  length-drop, ltb,
}
use mathlib.Core.Path.{subst}
use bell.Stream.{Stream, good, spoiled, peek, tell, seek_to, seek_back}
use bell.Stream.Laws.{At, read-At, tell-good, tell-bad}
use bell.BellTar.{write_header, fill, put, put_directory, finish, normal, directory}
use bell.BellTar.Fill.{fill_lem}
use bell.BellTar.Entry.{Entry, file, folder, IsValid, AllValid, none_left, one_more, archive}
use bell.BellTar.Reading.{
  Ready, entry, padded, past, contains-entry, check-At_nul, cache_header-entry,
  skip_next_file-entry,
}
use bell.BellTar.Reader.{
  Reader, Unset, open_reader, check_if_header_is_next, contains_another_file, count_from,
  number_of_files, copy_out,
}

module _ (now rand : ℕ) where
  -- The calls of a client that stores the entries and finishes the archive.
  unfoldable pub write_all : List Entry → List ℕ → List ℕ
  write_all [] dst = finish dst
  write_all (file name bytes ∷ es) dst = write_all es (put now rand name bytes dst)
  write_all (folder name ∷ es) dst = write_all es (put_directory now rand name dst)

  pub write_all_lem :
      (es : List Entry) (dst : List ℕ) → write_all es dst ≡ dst ++ archive now rand es
  unfolding write_all archive put put_directory finish
  write_all_lem [] dst = refl
  write_all_lem (file name bytes ∷ es) dst =
      let h : List ℕ = write_header now rand name (length bytes) normal in
      let f : List ℕ = fill (length bytes) in
      let a : List ℕ = archive now rand es in
      write_all_lem es (dst ++ (h ++ (bytes ++ f)))
      ∙ append_assoc dst (h ++ (bytes ++ f)) a
      ∙ ap (λ t. dst ++ t)
          (append_assoc h (bytes ++ f) a ∙ ap (λ t. h ++ t) (append_assoc bytes f a))
  write_all_lem (folder name ∷ es) dst =
      let h : List ℕ = write_header now rand name 0 directory in
      write_all_lem es (dst ++ h)
      ∙ append_assoc dst h (archive now rand es)
      ∙ ap (λ t. dst ++ (h ++ (t ++ archive now rand es))) (sym (fill_lem 0 (omega arith)))

module _ (now rand : ℕ) (unset : Unset) (junk : length unset.bytes ≡ 512) where
  pub holds_none :
      (r : Reader)
      → Ready now rand unset junk r.inp []
      → (r' : Reader) × (contains_another_file r ≡ (false, r'))
  unfolding contains_another_file check_if_header_is_next archive
  holds_none r (padded at) = (r, ap (λ x. (x.0, record r { inp = x.1 })) (check-At_nul at))
  holds_none r (past e f) = (r, rw e refl)

  pub holds_more :
      (r : Reader) (e : Entry) (es : List Entry)
      → IsValid e
      → At r.inp (archive now rand (e ∷ es))
      → contains_another_file r ≡ (true, r)
  unfolding contains_another_file
  holds_more r e es v at =
      ap (λ x. (x.0, record r { inp = x.1 })) (contains-entry now rand unset junk e es v at)

  -- Enough fuel counts the entries.
  count_enough :
      (fuel n : ℕ) (es : List Entry) (r : Reader)
      → length es < fuel
      → AllValid es
      → r.cached_valid ≡ false
      → Ready now rand unset junk r.inp es
      → (r' : Reader) × (count_from unset fuel r n ≡ some (n + length es, r'))
  unfolding count_from
  count_enough zero n es r lt vs empty ready = absurd (omega arith)
  count_enough (suc fuel) n [] r lt vs empty ready =
      let (r', stop) = holds_none r ready in
      let e : n ≡ n + 0 = omega arith in (r', rw stop (ap (λ k. some (k, r')) e))
  count_enough (suc fuel) n _ r lt (one_more e es v vs) empty (entry _ _ at) =
      let (r1, cached, l) = cache_header-entry now rand unset junk r e es empty v at in
      let (r2, skipped, passed) = skip_next_file-entry now rand unset junk es v vs cached l in
      let (r3, counted) =
        count_enough fuel (n + 1) es r2 (omega arith) vs passed.empty passed.ready in
      let total : n + 1 + length es ≡ n + length (e ∷ es) = omega arith in
      (r3, rw (holds_more r e es v at, skipped, counted) (ap (λ k. some (k, r3)) total))

  -- The copy of a file that the stream has in full.
  pub copy_enough :
      (fuel n : ℕ) (xs rest : List ℕ) {s : Stream}
      → length xs < fuel
      → At s (xs ++ rest)
      → (s' : Stream) × (copy_out unset fuel s n (n + length xs) ≡ some (xs, s')) × At s' rest
  unfolding copy_out
  copy_enough zero n xs rest lt at = absurd (omega arith)
  copy_enough (suc fuel) n [] rest {s} lt at =
      let stop : ltb n (n + 0) ≡ false = ground arith in (s, rw stop refl, at)
  copy_enough (suc fuel) n (x ∷ xs) rest {s} lt at =
      let all : List ℕ = x ∷ xs in
      let front : List ℕ = take (min (length all) 1024) all in
      let back : List ℕ = drop (min (length all) 1024) all in
      let size : length front ≡ min (length all) 1024 = length-take _ all ∙ omega arith in
      let left : length back ≡ length all - min (length all) 1024 = length-drop _ all in
      let split : all ++ rest ≡ front ++ (back ++ rest) =
        ap (λ t. t ++ rest) (sym (take-append-drop _ all)) ∙ append_assoc front back rest in
      let (got, after) = read-At front (back ++ rest) (subst (At s) split at) in
      let (s', copied, at') = copy_enough fuel (n + length front) back rest (omega arith) after in
      let total : n + length front + length back ≡ n + length all = omega arith in
      let chunk : min (n + length all - n) 1024 ≡ length front = omega arith in
      let more : ltb n (n + length all) ≡ true = ground arith in
      (
        s',
        rw (chunk, got, more, ← total, copied) (ap (λ t. some (t, s')) (take-append-drop _ all)),
        at',
      )

  pub Ready-start :
      {s : Stream} (es : List Entry)
      → AllValid es
      → At s (archive now rand es)
      → Ready now rand unset junk s es
  Ready-start _ none_left at = padded at
  Ready-start _ (one_more e es v vs) at = entry e es at

  restart :
      (es : List Entry) (s : Stream)
      → s.bytes ≡ write_all now rand es []
      → s.failed ≡ false
      → At (seek_to s 0) (archive now rand es)
  unfolding seek_to
  restart es s made fine =
      rw fine record { no_eof = refl; no_fail = refl; coming = made ∙ write_all_lem now rand es [] }

  -- `number_of_files` of a new reader, by what `tellg` does.
  counted_from :
      (s : Stream) (fuel n : ℕ) (at : Option ℕ × Stream) (r : Reader)
      → tell s ≡ at
      → count_from unset fuel (record (open_reader unset s) { inp = seek_to at.1 0 }) 0
        ≡ some (n, r)
      → number_of_files unset fuel (open_reader unset s)
        ≡ some (n, record r { inp = seek_back r.inp at.0; number_of_files = some n })
  unfolding number_of_files open_reader
  counted_from s fuel n at r told counted = rw (told, counted) refl

  -- The reader counts the entries of an archive that the writer made, wherever its stream stands in it as
  -- long as the stream is good, given fuel above their number; each entry has a name of 1 to 99 bytes and a
  -- size below 8^11.
  pub number_of_files-write_all :
      (es : List Entry) (s : Stream) (fuel : ℕ)
      → AllValid es
      → s.bytes ≡ write_all now rand es []
      → good s ≡ true
      → length es < fuel
      → (r : Reader) × (number_of_files unset fuel (open_reader unset s) ≡ some (length es, r))
  unfolding open_reader
  number_of_files-write_all es s fuel vs made fine lt =
      let sound : s.failed ≡ false = ground arith in
      let (r, counted) =
        count_enough fuel 0 es (record (open_reader unset s) { inp = seek_to s 0 }) lt vs refl
          (Ready-start es vs (restart es s made sound)) in
      (
        _,
        counted_from s fuel (length es) (some s.pos, s) r (tell-good s fine)
            (counted ∙ ap (λ n. some (n, r)) (omega arith)),
      )

  -- On a stream that has come to its end, or has failed, `tellg` fails, and the reader counts no file,
  -- whatever the stream holds.
  pub number_of_files_ended :
      (s : Stream) (fuel : ℕ)
      → good s ≡ false
      → 0 < fuel
      → (r : Reader) × (number_of_files unset fuel (open_reader unset s) ≡ some (0, r))
  unfolding open_reader seek_to count_from contains_another_file check_if_header_is_next peek
  number_of_files_ended s zero bad lt = absurd (omega arith)
  number_of_files_ended s (suc fuel) bad lt =
      (_, counted_from s (suc fuel) 0 (none, spoiled s) _ (tell-bad s bad) refl)
