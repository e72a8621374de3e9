-- ===== src/HttpClient/Stuck.antt =====
-- `readResponseHeaders` of main/io/HTTPClient.cpp after the stream has ended.
use bell.Prelude.{
  ℕ, zero, suc, ◌+◌, ◌-◌, ◌≤◌, ◌<◌, ◌≡◌, refl, sym, ap, ap₂, ◌∙◌, Bool, false, List, [], ◌∷◌, ◌++◌,
  some, length, take, copy_at, ltb, ◌==◌, if◌then◌else◌, ◌>>=?◌, arith, length-copy_at, length-take,
  take-copy_at, take-take, take-length-append,
}
use bell.SocketStream.{Socket}
use bell.HttpClient.Iostream.{IoStream, getline, take_line, line_read}
use bell.HttpClient.{unfinished, Parsed, partial, http_buf_size, Response, crlf}
use bell.HttpClient.Exchange.{with_line, restore, received, parse_received, read_loop}

-- A copy leaves what is in front of it.
take-copy_at_before :
    (buf : List ℕ) (n at : ℕ) (xs : List ℕ)
    → n ≤ at
    → at + length xs ≤ length buf
    → take n (copy_at buf at xs) ≡ take n buf
take-copy_at_before buf n at xs h fits =
    let whole : length (take at buf) ≡ at = omega (arith, length-take at buf) in
    sym (take-take n (at + length xs) (copy_at buf at xs) (omega arith))
    ∙ ap (take n) (take-copy_at buf at xs fits)
    ∙ sym (take-take n (length (take at buf)) (take at buf ++ xs) (omega (arith, whole)))
    ∙ ap (take n) (take-length-append (take at buf) xs)
    ∙ take-take n at buf h

module _ (k : Socket) (phr : List ℕ → ℕ → Parsed) where
  open k use {State}

  -- The text that each further round parses.
  abbrev pub last_text : Response State → List ℕ
  last_text r = take (r.http_buffer_available - 2) r.http_buffer ++ crlf

  -- What a round finds after the end of the stream.
  pub record IsStuck (text : List ℕ) (r : Response State) : Type 0 where
    pub ended : r.stream.good ≡ false
    pub some_there : 2 ≤ r.http_buffer_available
    pub room : r.http_buffer_available < http_buf_size
    pub sized : length r.http_buffer ≡ http_buf_size
    pub same : last_text r ≡ text

  abbrev after : Response State → Response State
  after r = restore (with_line r ([], 0, r.stream))

  after-IsStuck : (text : List ℕ) (r : Response State) → IsStuck text r → IsStuck text (after r)
  after-IsStuck text r s =
      let a = r.http_buffer_available in
      let buf = copy_at r.http_buffer a (0 ∷ []) in
      let len : length buf ≡ http_buf_size = length-copy_at r.http_buffer a (0 ∷ []) ∙ s.sized in
      let still : a + 0 ≡ a = omega arith in
      record {
        ended = s.ended;
        some_there = omega (arith, s.some_there);
        room = omega (arith, s.room);
        sized = length-copy_at buf (a + 0 - 2) crlf ∙ len;
        same =
            ap (λ (n : ℕ). take (n - 2) (copy_at buf (n - 2) crlf) ++ crlf) still
            ∙ ap (λ (t : List ℕ). t ++ crlf)
                (take-copy_at_before buf (a - 2) (a - 2) crlf (omega arith)
                    (omega (arith, len, s.room))
                  ∙ take-copy_at_before r.http_buffer (a - 2) a (0 ∷ []) (omega arith)
                      (omega (arith, s.sized, s.room)))
            ∙ s.same;
      }

  round_text : (text : List ℕ) (r : Response State) → IsStuck text r → received (after r) ≡ text
  round_text text r s =
      let a = r.http_buffer_available in
      let buf = copy_at r.http_buffer a (0 ∷ []) in
      let len : length buf ≡ http_buf_size = length-copy_at r.http_buffer a (0 ∷ []) ∙ s.sized in
      let back : a + 0 ≡ a - 2 + 2 = omega (arith, s.some_there) in
      let still : a + 0 - 2 ≡ a - 2 = omega arith in
      ap₂ (λ (n m : ℕ). take n (copy_at buf m crlf)) back still
      ∙ take-copy_at buf (a - 2) crlf (omega (arith, len, s.room, s.some_there))
      ∙ ap (λ (t : List ℕ). t ++ crlf)
          (take-copy_at_before r.http_buffer (a - 2) a (0 ∷ []) (omega arith)
            (omega (arith, s.sized, s.room)))
      ∙ s.same

  getline-ended :
      (n : ℕ) (io : IoStream State) → io.good ≡ false → getline k n io ≡ some ([], 0, io)
  unfolding getline
  getline-ended n io e =
      ap
        (λ (t : Bool).
          if t
          then take_line k (n - 1) io.buf >>=? (λ r. some (line_read k r))
          else some ([], 0, io))
        e

  -- After the end of the stream with a head that is not whole, at least two and fewer than 1024 bytes
  -- having been received, `readResponseHeaders` does not return: each round reads nothing, writes the
  -- delimiters over the same two bytes and parses the same text, for which the parser wants more.
  pub read_loop_stuck :
      (text : List ℕ) (fuel : ℕ) (r : Response State)
      → IsStuck text r
      → ((last : ℕ) → phr text last ≡ partial)
      → read_loop k phr fuel r ≡ unfinished
  unfolding read_loop parse_received
  read_loop_stuck text zero r s more = refl
  read_loop_stuck text (suc fuel) r s more =
      let here : ltb (r.http_buffer_available + 0) 2 ≡ false = ground (arith, s.some_there) in
      let room : r.http_buffer_available + 0 == http_buf_size ≡ false = ground (arith, s.room) in
      rw
        (
          getline-ended (http_buf_size - r.http_buffer_available) r.stream s.ended,
          here,
          round_text text r s,
          more r.http_buffer_available,
          room,
        )
        (read_loop_stuck text fuel (after r) (after-IsStuck text r s) more)
