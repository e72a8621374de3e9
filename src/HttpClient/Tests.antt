-- ===== src/HttpClient/Tests.antt =====
-- The theorems about main/io/HTTPClient.cpp at concrete inputs.
use bell.Prelude.{
  ℕ, ◌≡◌, ◌<◌, ◌≤◌, refl, ap, true, false, List, [], ◌∷◌, ◌++◌, none, some, length, replicate, ◌==◌,
  if◌then◌else◌, arith, length-append,
}
use bell.Text.Decimal.{pos, to_string}
use bell.Text.{print, figures, count_figures}
use bell.UrlParser.Parse.{Url}
use bell.UrlParser.Printed.{Parts, IsWellFormed, print_url}
use bell.UrlParser.ParsePrint.{parse-print_url}
use bell.SocketStream.{SocketBuffer}
use bell.SocketStream.Documented.{taken, readable, sent_of}
use bell.SocketStream.Output.{IsValid}
use bell.SocketStream.Wire.{Line, wire, wire-IsDocumented, wire-IsReliable}
use bell.HttpClient.{
  Header, Response, done, unfinished, ◌>>=◌, Parsed, complete, partial, content_length_key,
  find_header, same_lowered, crlf,
}
use bell.HttpClient.Exchange.{send_request, read_response_headers, body, read_loop, new_response}
use bell.HttpClient.Request.{lines, request, send_request-Sends}
use bell.HttpClient.Lines.{Has}
use bell.HttpClient.Heads.{Understands}
use bell.HttpClient.Reply.{body-read_response_headers}
use bell.HttpClient.Stuck.{read_loop_stuck}

-- h://a/
abbrev parts : Parts
parts = record {
  schema = b'h' ∷ [];
  host = b'a' ∷ [];
  port = none;
  path = b'/' ∷ [];
  query = none;
  hash = none;
}

parts-IsWellFormed : IsWellFormed parts
parts-IsWellFormed = record {
  named = omega arith;
  schema_fits = (refl, omega arith);
  host_fits = (refl, omega arith);
  port_fits = omega arith;
  path_fits = (refl, omega arith);
  rooted = refl;
  query_fits = omega arith;
  hash_fits = omega arith;
  no_nul = (refl, (refl, (refl, (refl, (refl, (refl, omega arith))))));
}

abbrev url : Url
url = record { host = b'a' ∷ []; port = pos 443; schema = b'h' ∷ []; path = b'/' ∷ [] }

abbrev reply_head : List ℕ
reply_head = lines ((b'o' ∷ b'k' ∷ []) ∷ [] ∷ [])

-- A connection with a reply on its way: a head of two lines, and two bytes.
abbrev connected : SocketBuffer Line
connected = record {
  internal_socket = some (record { sent = []; incoming = reply_head ++ (7 ∷ 8 ∷ []) });
  ahead = [];
  pbase = 0;
  pending = [];
  epptr = 0;
}

abbrev line : Line
line = record { sent = []; incoming = reply_head ++ (7 ∷ 8 ∷ []) }

connected-IsValid : IsValid wire-IsDocumented connected
connected-IsValid = record { placed = omega arith; whole = omega arith }

abbrev response : Response Line
response = record new_response { stream = record { buf = connected; good = true } }

abbrev found : List Header
found = (content_length_key, to_string 2) ∷ []

-- A parser that takes a text of six bytes for a whole head.
abbrev phr : List ℕ → ℕ → Parsed
phr text last = if length text == 6 then complete found else partial

phr_start :
    (p q : List ℕ) (last : ℕ)
    → p ++ q ≡ reply_head
    → 0 < length q
    → last ≤ length p
    → phr p last ≡ partial
phr_start p q last e h le = ground (arith, ap length e, length-append p q)

phr-Understands : Understands phr reply_head found
phr-Understands = record { whole = λ last lt. refl; start = phr_start }

send_request-Sends_example :
    (r' : Response Line) × (send_request wire phr 2000
        (print_url parts)
        (b'G' ∷ [])
        (7 ∷ [])
        []
        response
      ≡ done r')
    × (sent_of wire-IsDocumented r'.stream.buf.internal_socket
        ≡ taken wire-IsDocumented connected ++ request url (b'G' ∷ []) (7 ∷ []) [])
    × (readable wire-IsDocumented r'.stream.buf ≡ readable wire-IsDocumented connected)
    × (r'.stream.good ≡ true)
unfolding to_string print figures count_figures
send_request-Sends_example =
    send_request-Sends wire-IsDocumented phr 2000 (print_url parts) (b'G' ∷ []) (7 ∷ []) [] response
      line url wire-IsReliable refl connected-IsValid refl
      (parse-print_url parts parts-IsWellFormed) (omega arith)

body-read_response_headers_example :
    (r' : Response Line) × ((read_response_headers wire phr 9 response >>= body wire phr 9)
      ≡ done (7 ∷ 8 ∷ [], r'))
    × (r'.response_headers ≡ found)
    × Has wire-IsDocumented [] [] r'.stream.buf
unfolding wire-IsDocumented find_header same_lowered
body-read_response_headers_example =
    body-read_response_headers wire-IsDocumented phr 9 [] (b'o' ∷ b'k' ∷ []) ([] ∷ []) (7 ∷ 8 ∷ [])
      [] found response wire-IsReliable phr-Understands
      ((refl, (refl, omega arith)), (omega arith, omega arith)) (omega arith) refl (omega arith)
      (omega arith) refl refl refl
      (record {
        valid = connected-IsValid;
        connected = (line, refl);
        has_taken = refl;
        has_left = refl;
      })
      (omega arith)

-- A peer that has closed the connection behind "HT\r\n".
abbrev cut_off : Response Line
cut_off = record new_response {
  stream = record { buf = connected; good = false };
  http_buffer = (b'H' ∷ b'T' ∷ crlf) ++ replicate 1020 0;
  http_buffer_available = 4;
}

read_loop_stuck_example : read_loop wire phr 50 cut_off ≡ unfinished
read_loop_stuck_example =
    read_loop_stuck wire phr (b'H' ∷ b'T' ∷ crlf) 50 cut_off
      (record {
        ended = refl;
        some_there = omega arith;
        room = omega arith;
        sized = refl;
        same = refl;
      })
      (λ last. refl)
