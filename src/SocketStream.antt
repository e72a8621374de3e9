-- ===== src/SocketStream.antt =====
-- `SocketBuffer` of main/io/SocketStream.cpp and its header, the `std::streambuf` over a socket. The
-- socket is the parameter `k`, the abstract class of main/io/include/BellSocket.h. A result `none` stands
-- for a run that does not return: a call through the null `internalSocket`, or a loop out of fuel.
pub mod Documented
pub mod Writes
pub mod Output
pub mod Input
pub mod Run
pub mod Reopen
pub mod Wire
mod Tests
use bell.Prelude.{
  ℕ, zero, suc, ◌+◌, ◌-◌, Bool, true, false, List, [], ◌∷◌, ◌++◌, Option, none, some, length, take,
  drop, leb, ltb, if◌then◌else◌, ◌>>=?◌,
}

-- What the buffer uses of `Socket`. `write` gives the count that it returns and `read` the bytes that it
-- delivers; `none` is a negative count.
pub record Socket : Type 1 where
  pub State : Type 0
  pub write : State → List ℕ → Option ℕ × State
  pub read : State → ℕ → Option (List ℕ) × State
  pub is_open : State → Bool
  pub close : State → State

-- `bufLen`
abbrev pub buf_len : ℕ
buf_len = 1024

-- The members: `ahead` has the characters from `gptr` to `egptr`, `pending` those from `pbase` to `pptr`.
-- `pbase` and `epptr` count from `obuf`; before the first `setp` all three pointers are null, which is
-- written 0.
pub record SocketBuffer (S : Type 0) : Type 0 where
  pub internal_socket : Option S
  pub ahead : List ℕ
  pub pbase : ℕ
  pub pending : List ℕ
  pub epptr : ℕ

abbrev pub new_buffer : {S : Type 0} → SocketBuffer S
new_buffer = record { internal_socket = none; ahead = []; pbase = 0; pending = []; epptr = 0 }

module _ (k : Socket) where
  open k use {State, write, read}

  -- The loop of `sync`: whether all is written, what is not, and the socket.
  unfoldable pub write_out : ℕ → State → List ℕ → Option (Bool × List ℕ × State)
  write_out fuel s [] = some (true, [], s)
  write_out zero s (c ∷ cs) = none
  write_out (suc fuel) s (c ∷ cs) = elim (write s (c ∷ cs)).0 [
    | none ↦ some (false, c ∷ cs, (write s (c ∷ cs)).1)
    | some bw ↦ write_out fuel (write s (c ∷ cs)).1 (drop bw (c ∷ cs))
  ]

  -- The two calls of `setp` in `sync`.
  abbrev pub synced : SocketBuffer State → Bool × List ℕ × State → SocketBuffer State
  synced b (true, rest, s) = record b {
    internal_socket = some s;
    pbase = 0;
    pending = [];
    epptr = buf_len;
  }
  synced b (false, rest, s) = record b {
    internal_socket = some s;
    pbase = b.pbase + (length b.pending - length rest);
    pending = rest;
    epptr = buf_len;
  }

  sync_with : ℕ → Option State → SocketBuffer State → List ℕ → Option (Bool × SocketBuffer State)
  sync_with fuel socket b [] = some (true, record b { pbase = 0; epptr = buf_len })
  sync_with fuel none b (c ∷ cs) = none
  sync_with fuel (some s) b (c ∷ cs) = write_out fuel s (c ∷ cs) >>=? (λ r. some (r.0, synced b r))

  -- `sync`; false stands for -1.
  unfoldable pub sync : ℕ → SocketBuffer State → Option (Bool × SocketBuffer State)
  unfolding sync_with
  sync fuel b = sync_with fuel b.internal_socket b b.pending

  -- `overflow`; the argument `none` is the end of file, and so is the result.
  unfoldable pub overflow : ℕ → Option ℕ → SocketBuffer State → Option (Bool × SocketBuffer State)
  unfolding sync
  overflow fuel c b = sync fuel b >>=? (λ r. some (elim r.0 [
    | false ↦ (false, r.1)
    | true ↦ elim c [
      | none ↦ (true, r.1)
      | some ch ↦ (true, record r.1 { pending = r.1.pending ++ ch ∷ [] })
    ]
  ]))

  -- The loop of `xsputn`: what is left is put into the buffer once it fits.
  unfoldable pub put_direct : ℕ → State → List ℕ → Option (Bool × List ℕ × State)
  put_direct zero s bytes = if ltb buf_len (length bytes) then none else some (true, bytes, s)
  put_direct (suc fuel) s bytes = elim (ltb buf_len (length bytes)) [
    | false ↦ some (true, bytes, s)
    | true ↦ elim (write s bytes).0 [
      | none ↦ some (false, bytes, (write s bytes).1)
      | some bw ↦ put_direct fuel (write s bytes).1 (drop bw bytes)
    ]
  ]

  abbrev pub put_rest : ℕ → SocketBuffer State → Bool × List ℕ × State → ℕ × SocketBuffer State
  put_rest n b (true, remain, s) =
      (n, record b { internal_socket = some s; pending = b.pending ++ remain })
  put_rest n b (false, remain, s) = (n - length remain, record b { internal_socket = some s })

  -- The part of `xsputn` behind `sync`.
  put_through : ℕ → Option State → SocketBuffer State → List ℕ → Option (ℕ × SocketBuffer State)
  unfolding put_direct
  put_through fuel (some s) b bytes =
      put_direct fuel s bytes >>=? (λ r. some (put_rest (length bytes) b r))
  put_through fuel none b bytes =
      if ltb buf_len (length bytes)
      then none
      else some (length bytes, record b { pending = b.pending ++ bytes })

  -- `xsputn`, with the count that it returns.
  unfoldable pub xsputn : ℕ → SocketBuffer State → List ℕ → Option (ℕ × SocketBuffer State)
  unfolding put_through
  xsputn fuel b bytes =
      if leb (b.pbase + length b.pending + length bytes) b.epptr
      then some (length bytes, record b { pending = b.pending ++ bytes })
      else (sync fuel b >>=? (λ r. elim r.0 [
        | false ↦ some (0, r.1)
        | true ↦ put_through fuel r.1.internal_socket r.1 bytes
      ]))

  -- `underflow`: whether a character is there.
  unfoldable pub underflow : SocketBuffer State → Option (Bool × SocketBuffer State)
  underflow b = elim b.internal_socket [
    | none ↦ none
    | some s ↦ elim (read s buf_len).0 [
      | none ↦ some (false, record b { internal_socket = some (read s buf_len).1; ahead = [] })
      | some [] ↦ some (false, record b { internal_socket = some (read s buf_len).1; ahead = [] })
      | some (c ∷ cs) ↦
          some (true, record b { internal_socket = some (read s buf_len).1; ahead = c ∷ cs })
    ]
  ]

  -- The loop of `xsgetn`: the bytes read.
  unfoldable pub get_direct : ℕ → State → ℕ → Option (List ℕ × State)
  get_direct fuel s zero = some ([], s)
  get_direct zero s (suc n) = none
  get_direct (suc fuel) s (suc n) = elim (read s (suc n)).0 [
    | none ↦ some ([], (read s (suc n)).1)
    | some [] ↦ some ([], (read s (suc n)).1)
    | some (c ∷ cs) ↦
        get_direct fuel (read s (suc n)).1 (suc n - length (c ∷ cs))
        >>=? (λ r. some ((c ∷ cs) ++ r.0, r.1))
  ]

  -- `xsgetn`: the bytes copied to the caller, whose number it returns.
  unfoldable pub xsgetn : ℕ → SocketBuffer State → ℕ → Option (List ℕ × SocketBuffer State)
  unfolding get_direct
  xsgetn fuel b n =
      if leb n (length b.ahead)
      then some (take n b.ahead, record b { ahead = drop n b.ahead })
      else elim b.internal_socket [
        | none ↦ none
        | some s ↦
            get_direct fuel s (n - length b.ahead)
            >>=? (λ r. some (b.ahead ++ r.0, record b { internal_socket = some r.1; ahead = [] }))
      ]

  abbrev pub socket_open : Option State → Bool
  socket_open none = false
  socket_open (some s) = k.is_open s

  -- `isOpen`
  unfoldable pub is_open : SocketBuffer State → Bool
  is_open b = socket_open b.internal_socket

  abbrev pub shut : SocketBuffer State → SocketBuffer State
  shut b = record b { internal_socket = none }

  abbrev pub closed : Option State → Option State
  closed none = none
  closed (some s) = some (k.close s)

  -- `close`: what `pubsync` returns is not looked at. The second part is the socket that is closed.
  unfoldable pub close : ℕ → SocketBuffer State → Option (SocketBuffer State × Option State)
  close fuel b =
      if is_open b
      then sync fuel b >>=? (λ r. some (shut r.1, closed r.1.internal_socket))
      else some (b, none)

  open_over : ℕ → State → Option State → SocketBuffer State → Option (ℕ × SocketBuffer State)
  open_over fuel fresh none b = some (0, record b { internal_socket = some fresh })
  open_over fuel fresh (some s) b =
      close fuel b >>=? (λ r. some (0, record r.0 { internal_socket = some fresh }))

  -- `open`, where `fresh` is the socket that `internalSocket->open` has connected. It always returns 0.
  unfoldable pub open_socket : ℕ → State → SocketBuffer State → Option (ℕ × SocketBuffer State)
  unfolding open_over
  open_socket fuel fresh b = open_over fuel fresh b.internal_socket b
