-- ===== src/HttpClient.antt =====
-- `HTTPClient::Response` of main/io/HTTPClient.cpp and its header over the models of SocketStream and
-- URLParser. `phr_parse_response` of picohttpparser, another project's code, is the parameter `phr`. A
-- text is the list of its bytes.
pub mod Iostream
pub mod Exchange
pub mod Sending
pub mod Lines
pub mod Request
pub mod Heads
pub mod Reply
pub mod Stuck
mod Tests
use bell.Prelude.{
  ℕ, zero, suc, ◌+◌, ◌-◌, ◌^◌, ◌<◌, Bool, true, false, ◌&&◌, List, [], ◌∷◌, ◌++◌, Option, none,
  some, length, take, drop, leb, ltb, replicate, copy_at, ◌==◌, if◌then◌else◌, ◌>>=?◌, sub_size,
}
use bell.Text.Decimal.{ℤ, pos, negsuc, to_string, stoi}
use bell.UrlParser.Parse.{Url, parse, span}
use bell.SocketStream.{Socket, SocketBuffer, new_buffer}
use bell.HttpClient.Iostream.{IoStream, put_texts, flush, getline, read_chars}

abbrev pub Header : Type 0
Header = List ℕ × List ℕ

-- How a call ends: with a result, with an exception, with a write before the start of a buffer, or not
-- within the fuel.
pub data Outcome {ℓ} (A : Type ℓ) : Type ℓ where
  done : A → Outcome A
  threw : Outcome A
  fault : Outcome A
  unfinished : Outcome A

infixl 5 ◌>>=◌
abbrev pub ◌>>=◌ {ℓ κ} : {A : Type ℓ} {B : Type κ} → Outcome A → (A → Outcome B) → Outcome B
done a >>= f = f a
threw >>= f = threw
fault >>= f = fault
unfinished >>= f = unfinished

abbrev pub ran {ℓ} : {A : Type ℓ} → Option A → Outcome A
ran none = unfinished
ran (some a) = done a

abbrev pub or_throw {ℓ} : {A : Type ℓ} → Option A → Outcome A
or_throw none = threw
or_throw (some a) = done a

-- What `phr_parse_response` returns: the headers behind a positive count, -1, or -2.
pub data Parsed : Type 0 where
  complete : List Header → Parsed
  malformed : Parsed
  partial : Parsed

-- `HTTP_BUF_SIZE`
abbrev pub http_buf_size : ℕ
http_buf_size = 1024

-- The members of `Response`.
pub record Response (S : Type 0) : Type 0 where
  pub stream : IoStream S
  pub http_buffer : List ℕ
  pub raw_body : List ℕ
  pub http_buffer_available : ℕ
  pub content_size : ℕ
  pub has_content_size : Bool
  pub response_headers : List Header

abbrev pub crlf : List ℕ
crlf = 13 ∷ 10 ∷ []

abbrev pub print_int : ℤ → List ℕ
print_int (pos n) = to_string n
print_int (negsuc n) = b'-' ∷ to_string (suc n)

-- The texts that `rawRequest` hands to `<<` for the header lines, and all of them.
abbrev pub header_texts : List Header → List (List ℕ)
header_texts [] = []
header_texts ((name, value) ∷ headers) =
    name ∷ (b':' ∷ b' ' ∷ []) ∷ value ∷ crlf ∷ header_texts headers

abbrev pub http_version : List ℕ
http_version = b' ' ∷ b'H' ∷ b'T' ∷ b'T' ∷ b'P' ∷ b'/' ∷ b'1' ∷ b'.' ∷ b'1' ∷ []

abbrev pub host_name : List ℕ
host_name = b'H' ∷ b'o' ∷ b's' ∷ b't' ∷ b':' ∷ b' ' ∷ []

abbrev pub keep_alive : List ℕ
keep_alive =
    b'C' ∷ b'o' ∷ b'n' ∷ b'n' ∷ b'e' ∷ b'c' ∷ b't' ∷ b'i' ∷ b'o' ∷ b'n' ∷ b':' ∷ b' ' ∷ b'k' ∷ b'e'
    ∷ b'e' ∷ b'p' ∷ b'-' ∷ b'a' ∷ b'l' ∷ b'i' ∷ b'v' ∷ b'e' ∷ []

abbrev pub accept_all : List ℕ
accept_all = b'A' ∷ b'c' ∷ b'c' ∷ b'e' ∷ b'p' ∷ b't' ∷ b':' ∷ b' ' ∷ b'*' ∷ b'/' ∷ b'*' ∷ []

abbrev pub content_length_name : List ℕ
content_length_name =
    b'C' ∷ b'o' ∷ b'n' ∷ b't' ∷ b'e' ∷ b'n' ∷ b't' ∷ b'-' ∷ b'L' ∷ b'e' ∷ b'n' ∷ b'g' ∷ b't' ∷ b'h'
    ∷ b':' ∷ b' ' ∷ []

abbrev pub length_texts : List ℕ → List (List ℕ)
length_texts [] = []
length_texts (c ∷ content) = content_length_name ∷ to_string (length (c ∷ content)) ∷ crlf ∷ []

abbrev pub body_texts : List ℕ → List (List ℕ)
body_texts [] = []
body_texts (c ∷ content) = (c ∷ content) ∷ []

unfoldable pub request_texts : Url → List ℕ → List ℕ → List Header → List (List ℕ)
request_texts url method content headers =
    (method
      ∷ (b' ' ∷ [])
      ∷ url.path
      ∷ http_version
      ∷ crlf
      ∷ host_name
      ∷ url.host
      ∷ (b':' ∷ [])
      ∷ print_int url.port
      ∷ crlf
      ∷ keep_alive
      ∷ crlf
      ∷ accept_all
      ∷ crlf
      ∷ [])
    ++ (length_texts content ++ (header_texts headers ++ (crlf ∷ body_texts content)))

-- `std::tolower` in the C locale
abbrev pub to_lower : ℕ → ℕ
to_lower c = if leb 65 c && leb c 90 then c + 32 else c

-- `headerName == headerValue`, with the name of a header lowered
unfoldable pub same_lowered : List ℕ → List ℕ → Bool
same_lowered [] [] = true
same_lowered [] (c ∷ cs) = false
same_lowered (d ∷ ds) [] = false
same_lowered (d ∷ ds) (c ∷ cs) = d == to_lower c && same_lowered ds cs

-- The loop of `header`
unfoldable pub find_header : List Header → List ℕ → List ℕ
find_header [] name = []
find_header ((key, value) ∷ headers) name =
    if same_lowered name key then value else find_header headers name

abbrev pub not_slash : ℕ → Bool
not_slash c = if c == b'/' then false else true

-- An `int` as a `size_t`
abbrev pub size_of : ℤ → ℕ
size_of (pos n) = n
size_of (negsuc n) = sub_size 0 (suc n)

abbrev pub content_length_key : List ℕ
content_length_key =
    b'c' ∷ b'o' ∷ b'n' ∷ b't' ∷ b'e' ∷ b'n' ∷ b't' ∷ b'-' ∷ b'l' ∷ b'e' ∷ b'n' ∷ b'g' ∷ b't' ∷ b'h'
    ∷ []

abbrev pub content_range_key : List ℕ
content_range_key =
    b'c' ∷ b'o' ∷ b'n' ∷ b't' ∷ b'e' ∷ b'n' ∷ b't' ∷ b'-' ∷ b'r' ∷ b'a' ∷ b'n' ∷ b'g' ∷ b'e' ∷ []

-- `urlParser.schema == "https"`
abbrev pub is_https : List ℕ → Bool
is_https (a ∷ (b ∷ (c ∷ (d ∷ (e ∷ []))))) =
    a == b'h' && (b == b't' && (c == b't' && (d == b'p' && e == b's')))
is_https _ = false

-- `RangeHeader::range` and `RangeHeader::last`
abbrev pub range_name : List ℕ
range_name = b'R' ∷ b'a' ∷ b'n' ∷ b'g' ∷ b'e' ∷ []

abbrev pub bytes_sign : List ℕ
bytes_sign = b'b' ∷ b'y' ∷ b't' ∷ b'e' ∷ b's' ∷ b'=' ∷ []

abbrev pub range : ℤ → ℤ → Header
range from to = (range_name, bytes_sign ++ (print_int from ++ (b'-' ∷ print_int to)))

abbrev pub last : ℤ → Header
last nbytes = (range_name, bytes_sign ++ (b'-' ∷ print_int nbytes))
