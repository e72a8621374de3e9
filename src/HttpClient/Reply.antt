-- ===== src/HttpClient/Reply.antt =====
-- What a caller of main/io/HTTPClient.cpp gets of a response.
use bell.Prelude.{
  ℕ, ◌+◌, ◌≤◌, ◌<◌, ◌^◌, ◌≡◌, refl, sym, ap, ◌∙◌, true, List, [], ◌∷◌, ◌++◌, append-nil, some,
  length, copy_at, replicate, ltb, ◌==◌, arith, length-replicate, copy_whole,
}
use bell.Text.Decimal.{pos, to_string, stoi, stoi-to_string, signed_decimal}
use bell.Text.{skip_spaces}
use bell.SocketStream.{Socket}
use bell.SocketStream.Documented.{IsDocumented, IsReliable}
use bell.HttpClient.Iostream.{IoStream, read_chars}
use bell.HttpClient.{
  Header, done, ◌>>=◌, or_throw, Parsed, http_buf_size, Response, find_header, content_length_key,
  size_of,
}
use bell.HttpClient.Exchange.{read_response_headers, sized, read_raw_body, body}
use bell.HttpClient.Lines.{Has, read_chars-Has}
use bell.HttpClient.Request.{lines}
use bell.HttpClient.Heads.{Understands, AreLines, Midway, read_loop-Reads}

sized-number :
    (k : Socket) (phr : List ℕ → ℕ → Parsed) (text : List ℕ) (n : ℕ) (r : Response k.State)
    → stoi text ≡ some (pos n)
    → sized k phr text r ≡ done (record r { has_content_size = true; content_size = n })
unfolding sized stoi skip_spaces signed_decimal
sized-number k phr [] n r e = cc
sized-number k phr (c ∷ cs) n r e =
    ap
      (λ o.
        or_throw o >>= (λ v. done (record r { has_content_size = true; content_size = size_of v })))
      e

module _ {k : Socket} (d : IsDocumented k) where
  open k use {State}

  -- `body` of a response whose body has not been read: the next characters, as many as it has.
  body-Has :
      (phr : List ℕ → ℕ → Parsed) (fuel : ℕ) (w content rest : List ℕ) (r : Response State)
      → IsReliable d
      → r.stream.good ≡ true
      → Has d w (content ++ rest) r.stream.buf
      → r.raw_body ≡ []
      → r.content_size ≡ length content
      → 0 < length content
      → length content < 2 ^ 31
      → length content ≤ fuel
      → (io : IoStream State) × (body k phr fuel r
          ≡ done (content, record r { stream = io; raw_body = content }))
        × Has d w rest io.buf
  unfolding body read_raw_body
  body-Has phr fuel w content rest r reliable good h fresh size pos_size small enough =
      let (io, run, good', left) =
        read_chars-Has d fuel w content rest r.stream reliable good h enough in
      let more : ltb 0 r.content_size ≡ true = ground (arith, size) in
      let none_read : length r.raw_body == 0 ≡ true = ground (arith, ap length fresh) in
      let allowed : ltb r.content_size (2 ^ 63) ≡ true = ground (arith, size) in
      let read_all = ap (λ n. read_chars k fuel n r.stream) size ∙ run in
      let filled : copy_at (replicate r.content_size 0) 0 content ≡ content =
        copy_whole (replicate r.content_size 0) content
          (length-replicate r.content_size 0 ∙ size) in
      (
        io,
        rw (more, none_read, allowed, read_all)
            (ap (λ (t : List ℕ). done (t, record r { stream = io; raw_body = t })) filled),
        left,
      )

  -- A response on a connection that does not break, with a parser that understands its head: lines of
  -- 1024 bytes at most in all, one of whose headers is the length of the content, above 0 and below 2^31. For a new
  -- `Response`, `readResponseHeaders` and then `body` give the content, whole, and leave what comes behind
  -- it in the stream; the headers are those that the parser has found.
  pub body-read_response_headers :
      (phr : List ℕ → ℕ → Parsed) (fuel : ℕ) (w l : List ℕ) (ls : List (List ℕ))
      (content rest : List ℕ) (headers : List Header) (r : Response State)
      → IsReliable d
      → Understands phr (lines (l ∷ ls)) headers
      → AreLines (l ∷ ls)
      → length (lines (l ∷ ls)) ≤ http_buf_size
      → find_header headers content_length_key ≡ to_string (length content)
      → 0 < length content
      → length content < 2 ^ 31
      → r.stream.good ≡ true
      → length r.http_buffer ≡ http_buf_size
      → r.raw_body ≡ []
      → Has d w (lines (l ∷ ls) ++ (content ++ rest)) r.stream.buf
      → length (l ∷ ls) + length content ≤ fuel
      → (r' : Response State) × ((read_response_headers k phr fuel r >>= body k phr fuel)
          ≡ done (content, r'))
        × (r'.response_headers ≡ headers)
        × Has d w rest r'.stream.buf
  unfolding read_response_headers
  body-read_response_headers phr fuel w l ls content rest headers r reliable u ok small key pos_size
        below good sized_buf fresh h enough =
      let start = record r { http_buffer_available = 0 } in
      let m : Midway d w [] (lines (l ∷ ls) ++ (content ++ rest)) start = record {
        good = good;
        has = h;
        counted = refl;
        held = refl;
        sized = sized_buf;
      } in
      let (r', run, good', has, same_body, same_size) =
        read_loop-Reads d phr w [] l ls (content ++ rest) headers fuel start reliable u ok small
          (omega arith) m in
      let number : stoi (find_header headers content_length_key) ≡ some (pos (length content)) =
        ap stoi (key ∙ sym (append-nil (to_string (length content))))
        ∙ stoi-to_string (length content) [] below refl in
      let answered = record r' { response_headers = headers } in
      let sized_run =
        sized-number k phr (find_header headers content_length_key) (length content) answered
          number in
      let (io, given, left) =
        body-Has phr fuel w content rest
          (record answered { has_content_size = true; content_size = length content }) reliable
          good' has (same_body ∙ fresh) refl pos_size below (omega arith) in
      (
        record answered {
          has_content_size = true;
          content_size = length content;
          stream = io;
          raw_body = content;
        },
        rw (run, sized_run) given,
        refl,
        left,
      )
