-- ===== src/BellTar/Reader.antt =====
-- The `reader` of main/io/BellTar.cpp. What an uninitialised header and an uninitialised size hold is
-- the argument `unset`. A failed `assert` ends the program: the result is `none`. The effects of
-- `extract_all_files` outside the stream are the list of its actions, in order.
use bell.Prelude.{
  ℕ, zero, suc, ◌+◌, ◌-◌, Bool, true, false, not, ◌&&◌, List, [], ◌∷◌, ◌++◌, Option, none, some,
  ◌>>=?◌, min, length, copy_at, ltb, ◌==◌, if◌then◌else◌,
}
use bell.Stream.{Stream, peek, get, read, seek_by, seek_to, tell, seek_back}
use bell.BellTar.{
  header_get_filename, header_get_filesize, header_get_filetype, header_size, normal,
}

pub record Unset : Type 0 where
  pub bytes : List ℕ
  pub number : ℕ

-- `class reader`; `number_of_files` is `none` for -1.
pub record Reader : Type 0 where
  pub inp : Stream
  pub file_name : List ℕ
  pub file_size : ℕ
  pub file_type : ℕ
  pub cached_valid : Bool
  pub number_of_files : Option ℕ

-- The constructor; the cached data is not initialised.
unfoldable pub open_reader : Unset → Stream → Reader
open_reader unset inp = record {
  inp = inp;
  file_name = [];
  file_size = unset.number;
  file_type = unset.number;
  cached_valid = false;
  number_of_files = none;
}

-- A header may start with the byte.
starts_header : Option ℕ → Bool
starts_header none = false
starts_header (some c) = not (c == 0)

-- `_check_if_header_is_next`
unfoldable pub check_if_header_is_next : Stream → Bool × Stream
unfolding starts_header
check_if_header_is_next inp =
    if inp.eof then (false, inp) else (starts_header (peek inp).0, (peek inp).1)

is_fill : Option ℕ → Bool
is_fill none = false
is_fill (some c) = c == 0

-- The loop of `_seek_to_next_header`, on fuel.
unfoldable pub seek_from : ℕ → Stream → Stream
unfolding is_fill
seek_from zero inp = inp
seek_from (suc fuel) inp =
    let (c, seen) = peek inp in
    let rest = seek_from fuel (get seen) in if is_fill c then rest else seen

unfoldable pub seek_to_next_header : Stream → Stream
seek_to_next_header inp = seek_from (suc (length inp.bytes)) inp

unfoldable pub contains_another_file : Reader → Bool × Reader
contains_another_file r =
    let (next, inp) = check_if_header_is_next r.inp in (next, record r { inp = inp })

module _ (unset : Unset) where
  -- `_cache_header` once the assertion holds.
  unfoldable pub load_header : Reader → Reader
  load_header r =
      let (got, inp) = read r.inp header_size in
      let h = copy_at unset.bytes 0 got in
      record r {
        inp = inp;
        file_name = header_get_filename h;
        file_size = header_get_filesize unset.number h;
        file_type = header_get_filetype h;
        cached_valid = true;
      }

  unfoldable pub cache_header : Reader → Option Reader
  cache_header r =
      if r.cached_valid
      then some r
      else let (next, seen) = contains_another_file r in
        if next then some (load_header seen) else none

  unfoldable pub get_next_file_name : Reader → Option (List ℕ × Reader)
  get_next_file_name r = cache_header r >>=? (λ r'. some (r'.file_name, r'))

  unfoldable pub get_next_file_size : Reader → Option (ℕ × Reader)
  get_next_file_size r = cache_header r >>=? (λ r'. some (r'.file_size, r'))

  unfoldable pub get_next_file_type : Reader → Option (ℕ × Reader)
  get_next_file_type r = cache_header r >>=? (λ r'. some (r'.file_type, r'))

  abbrev pub next_entry : Reader → Stream → Reader
  next_entry r inp = record r { inp = seek_to_next_header inp; cached_valid = false }

  -- The bytes that `read_next_file` copies to `data`.
  unfoldable pub read_next_file : Reader → Option (List ℕ × Reader)
  read_next_file r = get_next_file_size r >>=? (λ sized.
      let (got, inp) = read sized.1.inp sized.0 in some (got, next_entry sized.1 inp))

  unfoldable pub skip_next_file : Reader → Option Reader
  skip_next_file r =
      get_next_file_size r >>=? (λ sized. some (next_entry sized.1 (seek_by sized.1.inp sized.0)))

  -- The loop of `number_of_files`, on fuel; `none` also when the fuel is used up.
  unfoldable pub count_from : ℕ → Reader → ℕ → Option (ℕ × Reader)
  count_from zero r n = none
  count_from (suc fuel) r n =
      let (next, seen) = contains_another_file r in
      let rest = skip_next_file seen >>=? (λ r'. count_from fuel r' (n + 1)) in
      if next then rest else some (n, seen)

  -- `number_of_files`
  unfoldable pub number_of_files : ℕ → Reader → Option (ℕ × Reader)
  number_of_files fuel r = elim r.number_of_files [
    | some n ↦ some (n, r)
    | none ↦ count_from fuel (record r { inp = seek_to (tell r.inp).1 0 }) 0 >>=? (λ counted. some (
      counted.0,
      record counted.1 {
        inp = seek_back counted.1.inp (tell r.inp).0;
        number_of_files = some counted.0;
      },
    ))
  ]

  -- The loop of `extract_all_files` that copies one file through the scratch buffer, on fuel: the bytes
  -- written.
  unfoldable pub copy_out : ℕ → Stream → ℕ → ℕ → Option (List ℕ × Stream)
  copy_out zero inp read_size file_size = none
  copy_out (suc fuel) inp read_size file_size =
      let (got, inp') = read inp (min (file_size - read_size) 1024) in
      let rest = copy_out fuel inp' (read_size + length got) file_size in
      if ltb read_size file_size
      then rest >>=? (λ more. some (got ++ more.0, more.1))
      else some ([], inp)

-- What `extract_all_files` does to the file system.
pub data Action : Type 0 where
  make_dir : List ℕ → Action
  write_file : List ℕ → List ℕ → Action

-- A directory for each slash of the path, its name being what stands before.
unfoldable pub make_dirs : List ℕ → List ℕ → List Action
make_dirs before [] = []
make_dirs before (c ∷ cs) =
    let rest = make_dirs (before ++ c ∷ []) cs in if c == 47 then make_dir before ∷ rest else rest

-- `fileName.find("._") == 0`
abbrev pub hidden : List ℕ → Bool
hidden (c ∷ d ∷ cs) = c == 46 && d == 95
hidden _ = false

module _ (unset : Unset) (dest : List ℕ) where
  -- One file of `extract_all_files`, its header read.
  unfoldable pub extract_one : ℕ → Reader → Option (List Action × Reader)
  extract_one fuel r =
      let path = dest ++ (47 ∷ r.file_name) in
      if r.file_type == normal && not (hidden r.file_name)
      then copy_out unset fuel r.inp 0 r.file_size >>=? (λ out.
        some (make_dirs [] path ++ write_file path out.0 ∷ [], next_entry unset r out.1))
      else skip_next_file unset r >>=? (λ r'. some ([], r'))

  -- The loop of `extract_all_files`, on fuel.
  unfoldable pub extract_all_files : ℕ → Reader → Option (List Action × Reader)
  extract_all_files zero r = none
  extract_all_files (suc fuel) r =
      let (next, seen) = contains_another_file r in
      let rest =
        cache_header unset seen
        >>=? extract_one fuel
        >>=? (λ one. extract_all_files fuel one.1 >>=? (λ more. some (one.0 ++ more.0, more.1))) in
      if next then rest else some ([], seen)
