-- ===== src/BellTar.antt =====
-- main/io/BellTar.cpp: tar archives. A `tar_header` is its 512 bytes, with the fields at their offsets,
-- so that text too long for a field runs on into the next one as it does in C. Output goes to a list of
-- bytes. `std::time` and `std::rand` are the arguments `now` and `rand`. A string ends at its first
-- NUL where the code passes `c_str()`.
pub mod Reader
pub mod Header
pub mod Checksum
pub mod Fill
pub mod Entry
pub mod Reading
pub mod Archive
pub mod Extract
mod Tests
use bell.Prelude.{
  ℕ, zero, suc, ◌+◌, ◌*◌, ◌%◌, ◌^◌, List, [], ◌∷◌, ◌++◌, ◌||◌, length, take, drop, replicate,
  copy_at, leb, ◌==◌, add_size, get_or, if◌then◌else◌, Option, none, some,
}
use bell.Text.{c_string, sprintf, print, scan_octal}

-- `tar_file_type_t`
abbrev pub normal : ℕ
normal = 48

abbrev pub directory : ℕ
directory = 53

abbrev pub header_size : ℕ
header_size = 512

abbrev ustar : List ℕ
ustar = 117 ∷ 115 ∷ 116 ∷ 97 ∷ 114 ∷ []

abbrev unkown : List ℕ
unkown = 117 ∷ 110 ∷ 107 ∷ 111 ∷ 119 ∷ 110 ∷ []

abbrev users : List ℕ
users = 117 ∷ 115 ∷ 101 ∷ 114 ∷ 115 ∷ []

abbrev invalid : List ℕ
invalid = 73 ∷ 78 ∷ 86 ∷ 65 ∷ 76 ∷ 73 ∷ 68 ∷ 95 ∷ []

-- `header_set_metadata`: magic, mtime, mode, uname, gname and typeflag of a cleared header.
unfoldable pub header_set_metadata : ℕ → List ℕ
header_set_metadata now =
    let cleared = replicate header_size 0 in
    let magic = sprintf cleared 257 ustar in
    let mtime = sprintf magic 136 (print 8 11 now) in
    let mode = sprintf mtime 100 (print 8 7 420) in
    let uname = sprintf mode 265 unkown in
    let gname = sprintf uname 297 users in copy_at gname 156 (0 ∷ [])

-- The loops of `header_set_checksum`; a sum is an `unsigned int`.
unfoldable pub sum_bytes : List ℕ → ℕ → ℕ
sum_bytes [] sum = sum
sum_bytes (c ∷ cs) sum = sum_bytes cs ((sum + c % 256) % 2 ^ 32)

unfoldable pub header_set_checksum : List ℕ → List ℕ
header_set_checksum h =
    let front = sum_bytes (take 148 h) 0 in
    let spaces = (front + 32 * 8) % 2 ^ 32 in
    sprintf h 148 (print 8 6 (sum_bytes (drop 156 h) spaces))

unfoldable pub header_set_filetype : List ℕ → ℕ → List ℕ
header_set_filetype h file_type = copy_at h 156 (file_type ∷ [])

unfoldable pub header_get_filetype : List ℕ → ℕ
header_get_filetype h = get_or h 156 0

unfoldable pub header_set_filesize : List ℕ → ℕ → List ℕ
header_set_filesize h file_size = sprintf h 124 (print 8 11 file_size)

-- `unset` is what the uninitialised variable holds.
unfoldable pub header_get_filesize : ℕ → List ℕ → ℕ
header_get_filesize unset h = elim (scan_octal 11 (drop 124 h)) [ none ↦ unset | some n ↦ n ]

unfoldable pub header_set_filename : ℕ → List ℕ → List ℕ → List ℕ
header_set_filename rand h file_name =
    let len = length file_name in
    if len == 0 || leb 100 len
    then sprintf h 0 (invalid ++ print 10 1 rand)
    else sprintf h 0 file_name

unfoldable pub header_get_filename : List ℕ → List ℕ
header_get_filename h = c_string h

-- `_write_header`: the header that it writes.
unfoldable pub write_header : ℕ → ℕ → List ℕ → ℕ → ℕ → List ℕ
write_header now rand file_name file_size file_type = header_set_checksum (
    header_set_filetype
      (header_set_filesize (header_set_filename rand (header_set_metadata now) (c_string file_name))
        file_size)
      file_type)

-- The loop of `_fill`, on fuel: the bytes put. `file_size` is an `unsigned long`.
unfoldable pub fill_from : ℕ → ℕ → List ℕ
fill_from zero file_size = []
fill_from (suc fuel) file_size =
    let rest = fill_from fuel (add_size file_size 1) in
    if file_size % header_size == 0 then [] else 0 ∷ rest

unfoldable pub fill : ℕ → List ℕ
unfolding fill_from
fill = fill_from header_size

-- `writer`: each operation gives the output behind which it has written.
unfoldable pub put : ℕ → ℕ → List ℕ → List ℕ → List ℕ → List ℕ
put now rand path bytes dst =
    dst ++ (write_header now rand path (length bytes) normal ++ (bytes ++ fill (length bytes)))

unfoldable pub put_directory : ℕ → ℕ → List ℕ → List ℕ → List ℕ
put_directory now rand path dst = dst ++ write_header now rand path 0 directory

unfoldable pub finish : List ℕ → List ℕ
finish dst = dst ++ replicate (2 * header_size) 0
