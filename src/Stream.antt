-- ===== src/Stream.antt =====
-- A `std::istream` over a seekable file, as main/io/BellTar.cpp uses it. An operation on a stream that is
-- not good sets the fail bit; `seekg` first clears the end-of-file bit.
pub mod Laws
use bell.Prelude.{
  ℕ, zero, suc, ◌+◌, ◌-◌, Bool, true, false, not, ◌||◌, List, [], Option, none, some, length,
  get_elem?, take, drop, ltb, if◌then◌else◌,
}

pub record Stream : Type 0 where
  pub bytes : List ℕ
  pub pos : ℕ
  pub eof : Bool
  pub failed : Bool

abbrev pub good : Stream → Bool
good s = not (s.eof || s.failed)

abbrev pub spoiled : Stream → Stream
spoiled s = record s { failed = true }

peeked : Option ℕ → Stream → Option ℕ × Stream
peeked none s = (none, record s { eof = true })
peeked (some c) s = (some c, s)

-- `peek()`; `none` stands for EOF.
unfoldable pub peek : Stream → Option ℕ × Stream
unfolding peeked
peek s = if good s then peeked (get_elem? s.bytes s.pos) s else (none, spoiled s)

taken : Option ℕ → Stream → Stream
taken none s = record s { eof = true; failed = true }
taken (some c) s = record s { pos = s.pos + 1 }

-- `get()`, its result not used
unfoldable pub get : Stream → Stream
unfolding taken
get s = if good s then taken (get_elem? s.bytes s.pos) s else spoiled s

-- `read(_, n)`: the bytes read, whose number is `gcount()`.
unfoldable pub read : Stream → ℕ → List ℕ × Stream
read s n =
    let got = take n (drop s.pos s.bytes) in
    let short = ltb (length got) n in
    if good s
    then (got, record s { pos = s.pos + length got; eof = short; failed = short })
    else ([], spoiled s)

-- `seekg(n, std::ios::cur)` and `seekg(n)`
unfoldable pub seek_by : Stream → ℕ → Stream
seek_by s n =
    if s.failed then record s { eof = false } else record s { pos = s.pos + n; eof = false }

unfoldable pub seek_to : Stream → ℕ → Stream
seek_to s n = if s.failed then record s { eof = false } else record s { pos = n; eof = false }

-- `tellg()`; `none` stands for -1. It looks at the stream as an input does, and so a stream at its end fails.
unfoldable pub tell : Stream → Option ℕ × Stream
tell s = if good s then (some s.pos, s) else (none, spoiled s)

-- `seekg` to what `tellg` has given; there is no position -1.
unfoldable pub seek_back : Stream → Option ℕ → Stream
unfolding seek_to
seek_back s none = record s { eof = false; failed = true }
seek_back s (some n) = seek_to s n
