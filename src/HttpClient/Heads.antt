-- ===== src/HttpClient/Heads.antt =====
-- How `readResponseHeaders` of main/io/HTTPClient.cpp finds the head of a response line by line.
use mathlib.Core.Path.{subst}
use bell.Prelude.{
  ℕ, zero, suc, ◌+◌, ◌-◌, ◌≤◌, ◌<◌, ◌≡◌, refl, sym, ap, ap₂, ◌∙◌, true, false, List, [], ◌∷◌, ◌++◌,
  append_assoc, none, some, length, take, copy_at, ltb, ◌==◌, arith, length-append, length-copy_at,
  take-copy_at, take-take, take-append, take-length-append,
}
use bell.SocketStream.{Socket}
use bell.SocketStream.Documented.{IsDocumented, IsReliable}
use bell.HttpClient.Iostream.{IoStream, getline}
use bell.HttpClient.{Header, done, Parsed, complete, partial, http_buf_size, Response, crlf}
use bell.HttpClient.Exchange.{with_line, restore, received, parse_received, read_loop}
use bell.HttpClient.Lines.{Has, NoEnd, getline-Has}
use bell.HttpClient.Request.{lines}

-- The documented behaviour of the parser on a head: -2 for each start of it that is not whole, and its
-- headers for the whole. `last` is how much of it was there at the last call.
pub record Understands (phr : List ℕ → ℕ → Parsed) (head : List ℕ) (headers : List Header)
    : Type 0 where
  pub whole : (last : ℕ) → last < length head → phr head last ≡ complete headers
  pub start :
      (p q : List ℕ) (last : ℕ)
      → p ++ q ≡ head
      → 0 < length q
      → last ≤ length p
      → phr p last ≡ partial

-- No line has an end of line within.
abbrev pub AreLines : List (List ℕ) → Type 0
AreLines [] = 0 ≤ 0
AreLines (l ∷ ls) = NoEnd l × AreLines ls

NoEnd-append : (l : List ℕ) → NoEnd l → NoEnd (l ++ 13 ∷ [])
NoEnd-append [] h = (refl, omega arith)
NoEnd-append (c ∷ cs) (h, hs) = (h, NoEnd-append cs hs)

-- The line stored with its "\r" and a NUL, and the delimiters restored behind it.
restored :
    (buf p l : List ℕ)
    → take (length p) buf ≡ p
    → length p + length l + 2 ≤ length buf
    → let stored = l ++ 13 ∷ [] in
      let available = length p + suc (length stored) in
      take available (copy_at (copy_at buf (length p) (stored ++ 0 ∷ [])) (available - 2) crlf)
      ≡ p ++ (l ++ crlf)
restored buf p l held h =
    let stored = l ++ 13 ∷ [] in
    let ending = stored ++ 0 ∷ [] in
    let n = length p in
    let len : length ending ≡ length l + 2 =
      omega (arith, length-append l (13 ∷ []), length-append stored (0 ∷ [])) in
    let back : n + suc (length stored) - 2 ≡ n + length l =
      omega (arith, length-append l (13 ∷ [])) in
    let all : n + suc (length stored) ≡ n + length l + 2 =
      omega (arith, length-append l (13 ∷ [])) in
    let buf' = copy_at buf n ending in
    let text : take (n + length l) buf' ≡ p ++ l =
      sym (take-take (n + length l) (n + length ending) buf' (omega (arith, len)))
      ∙ ap (take (n + length l)) (take-copy_at buf n ending (omega (arith, len)))
      ∙ ap (λ (t : List ℕ). take (n + length l) (t ++ ending)) held
      ∙ take-append (length l) p ending
      ∙ ap (λ (t : List ℕ). p ++ take (length l) t) (append_assoc l (13 ∷ []) (0 ∷ []))
      ∙ ap (λ (t : List ℕ). p ++ t) (take-length-append l (13 ∷ 0 ∷ [])) in
    ap₂ (λ (a b : ℕ). take a (copy_at buf' b crlf)) all back
    ∙ take-copy_at buf' (n + length l) crlf (omega (arith, length-copy_at buf n ending))
    ∙ ap (λ (t : List ℕ). t ++ crlf) text
    ∙ append_assoc p l crlf

module _ {k : Socket} (d : IsDocumented k) where
  open k use {State}

  -- The loop has received `p`, and the stream goes on with `unread`.
  pub record Midway (w p unread : List ℕ) (r : Response State) : Type 0 where
    pub good : r.stream.good ≡ true
    pub has : Has d w unread r.stream.buf
    pub counted : r.http_buffer_available ≡ length p
    pub held : received r ≡ p
    pub sized : length r.http_buffer ≡ http_buf_size

  -- One line of a head: the round has its bytes with the delimiters, as they came.
  one_line :
      (w p l rest : List ℕ) (r : Response State)
      → IsReliable d
      → NoEnd l
      → length p + length l + 2 ≤ http_buf_size
      → Midway w p (l ++ (crlf ++ rest)) r
      → (io : IoStream State) × (getline k (http_buf_size - r.http_buffer_available) r.stream
          ≡ some (l ++ 13 ∷ [], suc (length (l ++ 13 ∷ [])), io))
        × Midway w
            (p ++ (l ++ crlf))
            rest
            (restore (with_line r (l ++ 13 ∷ [], suc (length (l ++ 13 ∷ [])), io)))
  one_line w p l rest r reliable ok fits m =
      let len = length-append l (13 ∷ []) in
      let view : Has d w ((l ++ 13 ∷ []) ++ (10 ∷ rest)) r.stream.buf =
        subst (λ (t : List ℕ). Has d w t r.stream.buf) (sym (append_assoc l (13 ∷ []) (10 ∷ rest)))
          m.has in
      let (io, run, good, has) =
        getline-Has d w (l ++ 13 ∷ []) rest (http_buf_size - r.http_buffer_available) r.stream
          reliable (NoEnd-append l ok) (omega (arith, m.counted, len)) m.good view in
      (
        io,
        run,
        record {
          good = good;
          has = has;
          counted =
              omega (arith, m.counted, len, length-append p (l ++ crlf), length-append l crlf);
          held =
              ap
                (λ (a : ℕ). take (a + suc (length (l ++ 13 ∷ []))) (
                  copy_at (copy_at r.http_buffer a ((l ++ 13 ∷ []) ++ 0 ∷ []))
                    (a + suc (length (l ++ 13 ∷ [])) - 2) crlf))
                m.counted
              ∙ restored r.http_buffer p l
                  (ap (λ (a : ℕ). take a r.http_buffer) (sym m.counted) ∙ m.held)
                  (omega (arith, m.sized));
          sized =
              length-copy_at
                (copy_at r.http_buffer r.http_buffer_available ((l ++ 13 ∷ []) ++ 0 ∷ []))
                (r.http_buffer_available + suc (length (l ++ 13 ∷ [])) - 2) crlf
              ∙ length-copy_at r.http_buffer r.http_buffer_available ((l ++ 13 ∷ []) ++ 0 ∷ [])
              ∙ m.sized;
        },
      )

  -- The end of the loop: its result, and what it leaves.
  abbrev pub Reads :
      (List ℕ → ℕ → Parsed) → ℕ → List ℕ → List ℕ → List Header → Response State → Type 0
  Reads phr fuel w rest headers r =
      (r' : Response State) × (read_loop k phr fuel r ≡ done (headers, r'))
      × (r'.stream.good ≡ true)
      × Has d w rest r'.stream.buf
      × (r'.raw_body ≡ r.raw_body)
      × (r'.content_size ≡ r.content_size)

  module _ (phr : List ℕ → ℕ → Parsed) where
    round_last :
        (fuel : ℕ) (r : Response State) (line : List ℕ × ℕ × IoStream State) (headers : List Header)
        → getline k (http_buf_size - r.http_buffer_available) r.stream ≡ some line
        → parse_received k phr (with_line r line) r.http_buffer_available ≡ done (some headers)
        → read_loop k phr (suc fuel) r ≡ done (headers, restore (with_line r line))
    unfolding read_loop
    round_last fuel r line headers run parsed = rw (run, parsed)

    round_more :
        (fuel : ℕ) (r : Response State) (line : List ℕ × ℕ × IoStream State)
        → getline k (http_buf_size - r.http_buffer_available) r.stream ≡ some line
        → parse_received k phr (with_line r line) r.http_buffer_available ≡ done none
        → read_loop k phr (suc fuel) r ≡ read_loop k phr fuel (restore (with_line r line))
    unfolding read_loop
    round_more fuel r line run parsed = rw (run, parsed)

    parsed_whole :
        (w p unread : List ℕ) (r : Response State) (last : ℕ) (headers : List Header)
        → Midway w p unread (restore r)
        → 2 ≤ length p
        → phr p last ≡ complete headers
        → parse_received k phr r last ≡ done (some headers)
    unfolding parse_received
    parsed_whole w p unread r last headers m long e =
        let there : ltb r.http_buffer_available 2 ≡ false = ground (arith, m.counted) in
        rw (there, m.held, e)

    parsed_start :
        (w p unread : List ℕ) (r : Response State) (last : ℕ)
        → Midway w p unread (restore r)
        → 2 ≤ length p
        → length p < http_buf_size
        → phr p last ≡ partial
        → parse_received k phr r last ≡ done none
    unfolding parse_received
    parsed_start w p unread r last m long small e =
        let there : ltb r.http_buffer_available 2 ≡ false = ground (arith, m.counted) in
        let room : r.http_buffer_available == http_buf_size ≡ false = ground (arith, m.counted) in
        rw (there, m.held, e, room)

  -- The loop reads a head line by line up to its end, and no further.
  pub read_loop-Reads :
      (phr : List ℕ → ℕ → Parsed) (w p l : List ℕ) (ls : List (List ℕ)) (rest : List ℕ)
      (headers : List Header) (fuel : ℕ) (r : Response State)
      → IsReliable d
      → Understands phr (p ++ lines (l ∷ ls)) headers
      → AreLines (l ∷ ls)
      → length (p ++ lines (l ∷ ls)) ≤ http_buf_size
      → length (l ∷ ls) ≤ fuel
      → Midway w p (lines (l ∷ ls) ++ rest) r
      → Reads phr fuel w rest headers r
  read_loop-Reads phr w p l ls rest headers zero r reliable u ok small enough m =
      absurd (omega arith)
  read_loop-Reads phr w p l [] rest headers (suc fuel) r reliable u (line, ok) small enough m =
      let here = subst (λ (t : List ℕ). Midway w p t r) (append_assoc l crlf rest) m in
      let size = length-append p (l ++ crlf) in
      let (io, run, next) =
        one_line w p l rest r reliable line (omega (arith, size, length-append l crlf)) here in
      let got : List ℕ × ℕ × IoStream State = (l ++ 13 ∷ [], suc (length (l ++ 13 ∷ [])), io) in
      (
        restore (with_line r got),
        round_last phr fuel r got headers run (
            parsed_whole phr w (p ++ (l ++ crlf)) rest (with_line r got) r.http_buffer_available
              headers next (omega (arith, size, length-append l crlf))
              (u.whole r.http_buffer_available
                (omega (arith, m.counted, size, length-append l crlf)))),
        next.good,
        next.has,
        refl,
        refl,
      )
  read_loop-Reads phr w p l (l' ∷ ls) rest headers (suc fuel) r reliable u (line, ok) small enough
        m =
      let L = lines (l' ∷ ls) in
      let p' = p ++ (l ++ crlf) in
      let here = subst (λ (t : List ℕ). Midway w p t r) (append_assoc l (crlf ++ L) rest) m in
      let whole : p' ++ L ≡ p ++ lines (l ∷ (l' ∷ ls)) =
        append_assoc p (l ++ crlf) L ∙ ap (λ (t : List ℕ). p ++ t) (append_assoc l crlf L) in
      let size = ap length whole in
      let size_of_parts = length-append p' L in
      let size_of_start = length-append p (l ++ crlf) in
      let size_of_line = length-append l crlf in
      let size_of_next = length-append l' (crlf ++ lines ls) in
      let (io, run, next) = one_line w p l (L ++ rest) r reliable line (omega arith) here in
      let got : List ℕ × ℕ × IoStream State = (l ++ 13 ∷ [], suc (length (l ++ 13 ∷ [])), io) in
      let (r', rest_run, good, has, same_body, same_size) =
        read_loop-Reads phr w p' l' ls rest headers fuel (restore (with_line r got)) reliable
          (subst (λ (t : List ℕ). Understands phr t headers) (sym whole) u) ok (omega arith)
          (omega arith) next in
      (
        r',
        round_more phr fuel r got run (
              parsed_start phr w p' (L ++ rest) (with_line r got) r.http_buffer_available next
                (omega arith) (omega arith)
                (u.start p' L r.http_buffer_available whole (omega arith)
                  (omega (arith, m.counted))))
            ∙ rest_run,
        good,
        has,
        same_body,
        same_size,
      )
