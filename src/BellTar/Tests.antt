-- ===== src/BellTar/Tests.antt =====
-- An archive of a file, a directory and a hidden file, written and read.
use bell.Prelude.{
  ℕ, suc, ◌≡◌, refl, List, [], ◌∷◌, none, some, arith, replicate, length-replicate, true,
}
use bell.Text.Octal.{NoNul, nil, cons}
use bell.BellTar.Entry.{Entry, file, folder, AllValid, none_left, one_more}
use bell.BellTar.Archive.{write_all, number_of_files-write_all, number_of_files_ended}
use bell.BellTar.Extract.{actions, fresh, extract_all_files-write_all, copy_out_stuck}
use bell.BellTar.Reader.{
  Reader, Unset, open_reader, number_of_files, extract_all_files, make_dir, make_dirs, write_file,
  copy_out,
}

abbrev junk : Unset
junk = record { bytes = replicate 512 7; number = 7 }

-- `a`, the directory `d`, and `._a`
abbrev entries : List Entry
entries =
    file (97 ∷ []) (1 ∷ 0 ∷ 2 ∷ []) ∷ folder (100 ∷ []) ∷ file (46 ∷ 95 ∷ 97 ∷ []) (9 ∷ []) ∷ []

named : (c : ℕ) → NoNul (suc c ∷ [])
named c = cons c [] nil

entries-AllValid : AllValid entries
entries-AllValid =
    one_more _ _
      (record {
        text = named 96;
        some_name = omega arith;
        short_name = omega arith;
        small = omega arith;
      })
      (one_more _ _
        (record {
          text = named 99;
          some_name = omega arith;
          short_name = omega arith;
          small = omega arith;
        })
        (one_more _ _
          (record {
            text = cons 45 _ (cons 94 _ (named 96));
            some_name = omega arith;
            short_name = omega arith;
            small = omega arith;
          })
          none_left))

-- What extraction to `x` does: one file.
actions-entries :
    actions (120 ∷ []) entries
    ≡ make_dir (120 ∷ []) ∷ write_file (120 ∷ 47 ∷ 97 ∷ []) (1 ∷ 0 ∷ 2 ∷ []) ∷ []
unfolding make_dirs
actions-entries = refl

extract_all_files-write_all_example :
    (r : Reader) × (extract_all_files junk
        (120 ∷ [])
        8
        (open_reader junk (fresh (write_all 1000 5 entries [])))
      ≡ some (actions (120 ∷ []) entries, r))
extract_all_files-write_all_example =
    extract_all_files-write_all 1000 5 junk (length-replicate {A = ℕ} 512 7) (120 ∷ []) entries 8
      entries-AllValid (omega arith)

number_of_files-write_all_example :
    (r : Reader) × (number_of_files junk 4 (open_reader junk (fresh (write_all 1000 5 entries [])))
      ≡ some (3, r))
number_of_files-write_all_example =
    number_of_files-write_all 1000 5 junk (length-replicate {A = ℕ} 512 7) entries
      (fresh (write_all 1000 5 entries [])) 4 entries-AllValid refl refl (omega arith)

-- Two of three bytes are there.
copy_out_stuck_example :
    copy_out junk 40 (record (fresh (1 ∷ 2 ∷ [])) { pos = 2; eof = true; failed = true }) 2 3 ≡ none
copy_out_stuck_example =
    copy_out_stuck junk 40 (record (fresh (1 ∷ 2 ∷ [])) { pos = 2; eof = true; failed = true }) 2 3
      refl (omega arith)

number_of_files_ended_example :
    (r : Reader) × (number_of_files junk 4
        (open_reader junk (record (fresh (write_all 1000 5 entries [])) { pos = 3072; eof = true }))
      ≡ some (0, r))
number_of_files_ended_example =
    number_of_files_ended 1000 5 junk (length-replicate {A = ℕ} 512 7)
      (record (fresh (write_all 1000 5 entries [])) { pos = 3072; eof = true }) 4 refl (omega arith)
