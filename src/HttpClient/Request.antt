-- ===== src/HttpClient/Request.antt =====
-- The request of main/io/HTTPClient.cpp as lines, and what the peer is given.
use bell.Prelude.{
  ℕ, zero, suc, ◌+◌, ◌≤◌, ◌≡◌, refl, sym, ap, ◌∙◌, true, List, [], ◌∷◌, ◌++◌, append-nil,
  append_assoc, some, length, arith,
}
use bell.Text.Decimal.{to_string}
use bell.UrlParser.Parse.{Url, parse}
use bell.SocketStream.{Socket, buf_len}
use bell.SocketStream.Documented.{IsDocumented, IsReliable, taken, readable, sent_of}
use bell.SocketStream.Output.{IsValid}
use bell.HttpClient.{
  Header, done, Parsed, Response, crlf, print_int, header_texts, length_texts, body_texts,
  request_texts, http_version, host_name, keep_alive, accept_all, content_length_name,
}
use bell.HttpClient.Exchange.{send_request}
use bell.HttpClient.Sending.{join, join-append, put_texts-Accepts, flush-Sends}

-- Lines, each with its end.
abbrev pub lines : List (List ℕ) → List ℕ
lines [] = []
lines (l ∷ ls) = l ++ (crlf ++ lines ls)

abbrev pub header_lines : List Header → List (List ℕ)
header_lines [] = []
header_lines ((name, value) ∷ headers) = (name ++ (b':' ∷ b' ' ∷ value)) ∷ header_lines headers

abbrev pub length_lines : ℕ → List (List ℕ)
length_lines zero = []
length_lines (suc n) = (content_length_name ++ to_string (suc n)) ∷ []

-- The request: the lines of its head, an empty line, and the content.
abbrev pub request : Url → List ℕ → List ℕ → List Header → List ℕ
request u method content headers =
    lines (
      (method ++ (b' ' ∷ (u.path ++ http_version)))
      ∷ ((host_name ++ (u.host ++ (b':' ∷ print_int u.port)))
          ∷ (keep_alive ∷ (accept_all ∷ (length_lines (length content) ++ header_lines headers)))))
    ++ (crlf ++ content)

lines-append : (xs ys : List (List ℕ)) → lines (xs ++ ys) ≡ lines xs ++ lines ys
lines-append [] ys = refl
lines-append (x ∷ xs) ys = simp (lines-append xs ys, append_assoc)

join-header_texts :
    (headers : List Header) → join (header_texts headers) ≡ lines (header_lines headers)
join-header_texts [] = refl
join-header_texts ((name, value) ∷ headers) = simp (join-header_texts headers, append_assoc)

join-length_texts :
    (content : List ℕ) → join (length_texts content) ≡ lines (length_lines (length content))
join-length_texts [] = refl
join-length_texts (c ∷ content) = simp append_assoc

join-body_texts : (content : List ℕ) → join (body_texts content) ≡ content
join-body_texts [] = refl
join-body_texts (c ∷ content) = append-nil (c ∷ content)

pub join-request_texts :
    (u : Url) (method content : List ℕ) (headers : List Header)
    → join (request_texts u method content headers) ≡ request u method content headers
unfolding request_texts
join-request_texts u method content headers =
    simp (
      join-append, join-length_texts, join-header_texts, join-body_texts, lines-append,
      append_assoc,
    )

module _ {k : Socket} (d : IsDocumented k) where
  open k use {State}

  -- `rawRequest` up to `readResponseHeaders`, on a connection that does not break: for a URL that `parse`
  -- accepts, the peer is given what was pending and then the request, whole, before anything is read.
  -- The request is a head of lines, an empty line and the content; the head has a line with the length
  -- of the content if there is content, and one line for each header.
  pub send_request-Sends :
      (phr : List ℕ → ℕ → Parsed) (fuel : ℕ) (url method content : List ℕ) (headers : List Header)
      (r : Response State) (s : State) (u : Url)
      → IsReliable d
      → r.stream.good ≡ true
      → IsValid d r.stream.buf
      → r.stream.buf.internal_socket ≡ some s
      → parse url ≡ some u
      → buf_len + length (request u method content headers) ≤ fuel
      → (r' : Response State) × (send_request k phr fuel url method content headers r ≡ done r')
        × (sent_of d r'.stream.buf.internal_socket
            ≡ taken d r.stream.buf ++ request u method content headers)
        × (readable d r'.stream.buf ≡ readable d r.stream.buf)
        × (r'.stream.good ≡ true)
  unfolding send_request
  send_request-Sends phr fuel url method content headers r s u reliable good v e parsed h =
      let texts = request_texts u method content headers in
      let same = join-request_texts u method content headers in
      let (io, run, good', a) =
        put_texts-Accepts d fuel texts r.stream s reliable good v e
          (omega (arith, ap length same)) in
      let (s', e') = a.connected in
      let (io', flushed, good'', b, empty) =
        flush-Sends d fuel io s' reliable good' a.valid e' (omega arith) in
      let written : taken d io'.buf ≡ taken d r.stream.buf ++ join texts =
        b.written ∙ append-nil (taken d io.buf) ∙ a.written in
      (
        record r { stream = io' },
        rw (parsed, run, flushed),
        sym (append-nil (sent_of d io'.buf.internal_socket))
            ∙ ap (λ (t : List ℕ). sent_of d io'.buf.internal_socket ++ t) (sym empty)
            ∙ written
            ∙ ap (λ (t : List ℕ). taken d r.stream.buf ++ t) same,
        b.unread ∙ a.unread,
        good'',
      )
