-- ===== src/HttpClient/Iostream.antt =====
-- The `std::iostream` over a `SocketBuffer`, as main/io/HTTPClient.cpp uses it: `<<`, `write`, `flush`,
-- `getline` and `read` of the C++ library. An operation on a stream that is not good does nothing but set
-- a bit. A result `none` stands for a run that does not return.
use bell.Prelude.{
  ℕ, zero, suc, ◌-◌, Bool, true, false, List, [], ◌∷◌, Option, none, some, length, drop, ◌==◌,
  if◌then◌else◌, ◌>>=?◌,
}
use bell.SocketStream.{Socket, SocketBuffer, xsputn, sync, xsgetn, underflow}

-- `good` is false once one of the three bits is set.
pub record IoStream (S : Type 0) : Type 0 where
  pub buf : SocketBuffer S
  pub good : Bool

-- How `getline` ends: at the end of the file, at the delimiter, or with no room.
pub data Stop : Type 0 where
  at_end : Stop
  at_line_end : Stop
  no_room : Stop

module _ (k : Socket) where
  open k use {State}

  -- `<<` of a text and `write`: fewer characters than given set the bad bit.
  unfoldable pub put_text : ℕ → List ℕ → IoStream State → Option (IoStream State)
  put_text fuel text io =
      if io.good
      then (xsputn k fuel io.buf text
          >>=? (λ r. some (record { buf = r.1; good = r.0 == length text })))
      else some io

  unfoldable pub put_texts : ℕ → List (List ℕ) → IoStream State → Option (IoStream State)
  put_texts fuel [] io = some io
  put_texts fuel (text ∷ texts) io = put_text fuel text io >>=? put_texts fuel texts

  unfoldable pub flush : ℕ → IoStream State → Option (IoStream State)
  flush fuel io =
      if io.good
      then sync k fuel io.buf >>=? (λ r. some (record { buf = r.1; good = r.0 }))
      else some io

  unfoldable pub refill : List ℕ → SocketBuffer State → Option (Option ℕ × SocketBuffer State)
  refill [] b = some (none, b)
  refill (c ∷ cs) b = some (some c, b)

  -- `sgetc`: the next character, which stays; `none` is the end of the file.
  unfoldable pub sgetc_from : List ℕ → SocketBuffer State → Option (Option ℕ × SocketBuffer State)
  unfolding refill
  sgetc_from [] b = underflow k b >>=? (λ r. refill r.1.ahead r.1)
  sgetc_from (c ∷ cs) b = some (some c, b)

  unfoldable pub sgetc : SocketBuffer State → Option (Option ℕ × SocketBuffer State)
  unfolding sgetc_from
  sgetc b = sgetc_from b.ahead b

  -- `sbumpc` with a character in the get area.
  abbrev pub bump : SocketBuffer State → SocketBuffer State
  bump b = record b { ahead = drop 1 b.ahead }

  -- The loop of `getline` with the delimiter 10 and room for some characters: those stored.
  unfoldable pub take_line : ℕ → SocketBuffer State → Option (List ℕ × Stop × SocketBuffer State)
  take_line zero b = sgetc b >>=? (λ r. some (elim r.0 [
    | none ↦ ([], at_end, r.1)
    | some c ↦ if c == 10 then ([], at_line_end, bump r.1) else ([], no_room, r.1)
  ]))
  take_line (suc room) b = sgetc b >>=? (λ r. elim r.0 [
    | none ↦ some ([], at_end, r.1)
    | some c ↦ elim (c == 10) [
      | true ↦ some ([], at_line_end, bump r.1)
      | false ↦ take_line room (bump r.1) >>=? (λ t. some (c ∷ t.0, t.1, t.2))
    ]
  ])

  -- `gcount()`, and whether no bit is set.
  abbrev pub line_count : List ℕ → Stop → ℕ
  line_count stored at_end = length stored
  line_count stored at_line_end = suc (length stored)
  line_count stored no_room = length stored

  abbrev pub line_good : Stop → Bool
  line_good at_end = false
  line_good at_line_end = true
  line_good no_room = false

  abbrev pub line_read : List ℕ × Stop × SocketBuffer State → List ℕ × ℕ × IoStream State
  line_read (stored, stop, b) =
      (stored, line_count stored stop, record { buf = b; good = line_good stop })

  -- `getline(_, n)`: the characters stored, behind which a NUL is put, and `gcount()`.
  unfoldable pub getline : ℕ → IoStream State → Option (List ℕ × ℕ × IoStream State)
  getline n io =
      if io.good then take_line (n - 1) io.buf >>=? (λ r. some (line_read r)) else some ([], 0, io)

  -- `read(_, n)`: the characters stored.
  unfoldable pub read_chars : ℕ → ℕ → IoStream State → Option (List ℕ × IoStream State)
  read_chars fuel n io =
      if io.good
      then (xsgetn k fuel io.buf n
          >>=? (λ r. some (r.0, record { buf = r.1; good = length r.0 == n })))
      else some ([], io)
