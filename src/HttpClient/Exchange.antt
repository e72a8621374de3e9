-- ===== src/HttpClient/Exchange.antt =====
-- The methods of `HTTPClient::Response` of main/io/HTTPClient.cpp that use the stream. The fuel is for the
-- loops of the stream and for the loop that reads the headers.
use bell.Prelude.{
  ℕ, zero, suc, ◌+◌, ◌-◌, ◌^◌, Bool, true, false, List, [], ◌∷◌, ◌++◌, Option, none, some, length,
  take, ltb, replicate, copy_at, ◌==◌, if◌then◌else◌, ◌>>=?◌, ◌&&◌,
}
use bell.Text.Decimal.{ℤ, stoi}
use bell.UrlParser.Parse.{parse, span}
use bell.SocketStream.{Socket, new_buffer, open_socket, close}
use bell.HttpClient.Iostream.{IoStream, put_texts, flush, getline, read_chars}
use bell.HttpClient.{
  Header, Outcome, done, threw, fault, unfinished, ◌>>=◌, ran, or_throw, Parsed, complete,
  malformed, partial, http_buf_size, Response, crlf, request_texts, find_header, not_slash, size_of,
  content_length_key, content_range_key, is_https,
}

-- A new object.
abbrev pub new_response : {S : Type 0} → Response S
new_response = record {
  stream = record { buf = new_buffer; good = true };
  http_buffer = replicate http_buf_size 0;
  raw_body = [];
  http_buffer_available = 0;
  content_size = 0;
  has_content_size = false;
  response_headers = [];
}

module _ {S : Type 0} where
  -- `getline` into the buffer: the characters stored and a NUL.
  abbrev pub with_line : Response S → List ℕ × ℕ × IoStream S → Response S
  with_line r (stored, count, io) = record r {
    stream = io;
    http_buffer = copy_at r.http_buffer r.http_buffer_available (stored ++ 0 ∷ []);
    http_buffer_available = r.http_buffer_available + count;
  }

  -- "Restore delimiters": a `memcpy` to two bytes before the end of what is available.
  abbrev pub restore : Response S → Response S
  restore r = record r { http_buffer = copy_at r.http_buffer (r.http_buffer_available - 2) crlf }

  abbrev pub received : Response S → List ℕ
  received r = take r.http_buffer_available r.http_buffer

module _ (k : Socket) (phr : List ℕ → ℕ → Parsed) where
  open k use {State}

  -- What a round of the loop does behind `getline`: the headers, if they are complete.
  unfoldable pub parse_received : Response State → ℕ → Outcome (Option (List Header))
  parse_received r prevbuflen =
      if ltb r.http_buffer_available 2
      then fault
      else elim (phr (received (restore r)) prevbuflen) [
        | complete headers ↦ done (some headers)
        | malformed ↦ threw
        | partial ↦ if r.http_buffer_available == http_buf_size then threw else done none
      ]

  -- The loop of `readResponseHeaders`.
  unfoldable pub read_loop : ℕ → Response State → Outcome (List Header × Response State)
  read_loop zero r = unfinished
  read_loop (suc fuel) r =
      ran (getline k (http_buf_size - r.http_buffer_available) r.stream) >>= (λ l.
        parse_received (with_line r l) r.http_buffer_available >>= (λ p. elim p [
          | some headers ↦ done (headers, restore (with_line r l))
          | none ↦ read_loop fuel (restore (with_line r l))
        ]))

  unfoldable pub sized : List ℕ → Response State → Outcome (Response State)
  sized [] r = done r
  sized (c ∷ cs) r =
      or_throw (stoi (c ∷ cs))
      >>= (λ v. done (record r { has_content_size = true; content_size = size_of v }))

  unfoldable pub read_response_headers : ℕ → Response State → Outcome (Response State)
  unfolding sized
  read_response_headers fuel r =
      read_loop fuel (record r { http_buffer_available = 0 })
      >>= (λ t. sized (find_header t.0 content_length_key) (record t.1 { response_headers = t.0 }))

  -- `connect`; `dial` gives the socket that `open` has connected, or throws.
  unfoldable pub connect :
      (List ℕ → ℤ → Bool → Option State) → ℕ → List ℕ → Response State → Outcome (Response State)
  connect dial fuel url r =
      or_throw (parse url)
      >>= (λ u. or_throw (dial u.host u.port (is_https u.schema)))
      >>= (λ fresh. ran (open_socket k fuel fresh r.stream.buf))
      >>= (λ t. done (record r { stream = record { buf = t.1; good = r.stream.good } }))

  -- The destructor, with the socket that it closes.
  unfoldable pub destroy : ℕ → Response State → Outcome (Option State)
  destroy fuel r = ran (close k fuel r.stream.buf) >>= (λ t. done t.1)

  -- The part of `rawRequest` before `readResponseHeaders`.
  unfoldable pub send_request :
      ℕ → List ℕ → List ℕ → List ℕ → List Header → Response State → Outcome (Response State)
  send_request fuel url method content headers r =
      or_throw (parse url)
      >>= (λ u.
          ran
            (put_texts k fuel (request_texts u method content headers) r.stream >>=? flush k fuel))
      >>= (λ io. done (record r { stream = io }))

  unfoldable pub raw_request :
      ℕ → List ℕ → List ℕ → List ℕ → List Header → Response State → Outcome (Response State)
  raw_request fuel url method content headers r =
      send_request fuel url method content headers r >>= read_response_headers fuel

  -- `get` and `post`
  abbrev pub get : ℕ → List ℕ → List Header → Response State → Outcome (Response State)
  get fuel url headers = raw_request fuel url (b'G' ∷ b'E' ∷ b'T' ∷ []) [] headers

  abbrev pub post : ℕ → List ℕ → List Header → List ℕ → Response State → Outcome (Response State)
  post fuel url headers body = raw_request fuel url (b'P' ∷ b'O' ∷ b'S' ∷ b'T' ∷ []) body headers

  -- `readRawBody`; a vector of 2^63 elements or more is refused by an exception.
  unfoldable pub read_raw_body : ℕ → Response State → Outcome (Response State)
  read_raw_body fuel r =
      if ltb 0 r.content_size && (length r.raw_body == 0)
      then (if ltb r.content_size (2 ^ 63)
          then (ran (read_chars k fuel r.content_size r.stream) >>= (λ t.
              done
                (record r { stream = t.1; raw_body = copy_at (replicate r.content_size 0) 0 t.0 })))
          else threw)
      else done r

  -- `body` and `bytes`
  unfoldable pub body : ℕ → Response State → Outcome (List ℕ × Response State)
  body fuel r = read_raw_body fuel r >>= (λ r'. done (r'.raw_body, r'))

  behind_slash : List ℕ → ℕ → Outcome ℕ
  behind_slash [] size = done size
  behind_slash (c ∷ cs) size = or_throw (stoi cs) >>= (λ v. done (size_of v))

  -- `totalLength`
  unfoldable pub total_length : Response State → Outcome ℕ
  unfolding behind_slash
  total_length r =
      behind_slash (span not_slash (find_header r.response_headers content_range_key)).1
        r.content_size
