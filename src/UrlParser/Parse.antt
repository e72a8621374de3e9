-- ===== src/UrlParser/Parse.antt =====
-- `URLParser::parse` of main/io/include/URLParser.h with the expression of main/io/URLParser.cpp, as it is
-- built without `BELL_DISABLE_REGEX`. The five groups of `urlParseRegex` are matched from the left: each
-- takes all that its characters allow, and as none may take the character that ends it, trying a shorter
-- match never helps.
use bell.Prelude.{
  ℕ, zero, Bool, true, false, not, ◌&&◌, List, [], ◌∷◌, ◌++◌, Option, none, some, ◌==◌,
  if◌then◌else◌, ◌>>=?◌,
}
use bell.Text.{c_string}
use bell.Text.Decimal.{ℤ, pos, negsuc, stoi}

-- The longest start of a text whose characters pass a test, and the rest.
unfoldable pub span : (ℕ → Bool) → List ℕ → List ℕ × List ℕ
span ok [] = ([], [])
span ok (c ∷ cs) = if ok c then (c ∷ (span ok cs).0, (span ok cs).1) else ([], c ∷ cs)

-- `[^:/?#]`, `[^/?#]`, `[^?#]`, `[^#]` and `.`
abbrev pub in_query : ℕ → Bool
in_query c = not (c == b'#')

abbrev pub in_path : ℕ → Bool
in_path c = not (c == b'?') && in_query c

abbrev pub in_host : ℕ → Bool
in_host c = not (c == b'/') && in_path c

abbrev pub in_schema : ℕ → Bool
in_schema c = not (c == b':') && in_host c

abbrev pub in_hash : ℕ → Bool
in_hash c = not (c == 10) && not (c == 13)

-- `(?:([^:/?#]+):)?`
abbrev pub schema_of : List ℕ → List ℕ × List ℕ → List ℕ × List ℕ
schema_of cs ([], rest) = ([], cs)
schema_of cs (s ∷ ss, []) = ([], cs)
schema_of cs (s ∷ ss, c ∷ rest) = if c == b':' then (s ∷ ss, rest) else ([], cs)

unfoldable pub match_schema : List ℕ → List ℕ × List ℕ
unfolding span
match_schema cs = schema_of cs (span in_schema cs)

-- `(?://([^/?#]*))?`
unfoldable pub match_host : List ℕ → List ℕ × List ℕ
unfolding span
match_host [] = ([], [])
match_host (a ∷ []) = ([], a ∷ [])
match_host (a ∷ (b ∷ cs)) = if a == b'/' && b == b'/' then span in_host cs else ([], a ∷ (b ∷ cs))

-- `(\?(?:[^#]*))?`
unfoldable pub match_query : List ℕ → List ℕ × List ℕ
unfolding span
match_query [] = ([], [])
match_query (c ∷ cs) =
    if c == b'?' then (c ∷ (span in_query cs).0, (span in_query cs).1) else ([], c ∷ cs)

-- `(#(?:.*))?` up to the end: whether it matches.
unfoldable pub all_hash : List ℕ → Bool
all_hash [] = true
all_hash (c ∷ cs) = in_hash c && all_hash cs

unfoldable pub match_hash : List ℕ → Bool
unfolding all_hash
match_hash [] = true
match_hash (c ∷ cs) = c == b'#' && all_hash cs

-- `match[1]` to `match[4]`
pub record Match : Type 0 where
  pub schema : List ℕ
  pub host : List ℕ
  pub path : List ℕ
  pub query : List ℕ

unfoldable pub regex_match : List ℕ → Option Match
regex_match url =
    let (schema, after_schema) = match_schema url in
    let (host, after_host) = match_host after_schema in
    let (path, after_path) = span in_path after_host in
    let (query, rest) = match_query after_path in
    if match_hash rest
    then some (record { schema = schema; host = host; path = path; query = query })
    else none

pub record Url : Type 0 where
  pub host : List ℕ
  pub port : ℤ
  pub schema : List ℕ
  pub path : List ℕ

-- The text behind the first ':'; `none` when there is no ':'.
abbrev pub behind : List ℕ → Option (List ℕ)
behind [] = none
behind (c ∷ cs) = some cs

abbrev pub not_colon : ℕ → Bool
not_colon c = not (c == b':')

-- `parser.schema == "http" ? 80 : 443` for the port -1, which is also the port before it is set.
abbrev pub is_http : List ℕ → Bool
is_http (a ∷ (b ∷ (c ∷ (d ∷ [])))) = a == b'h' && (b == b't' && (c == b't' && d == b'p'))
is_http _ = false

abbrev pub or_default : List ℕ → ℤ → ℤ
or_default schema (negsuc zero) = if is_http schema then pos 80 else pos 443
or_default schema port = port

abbrev pub with_port : Match → List ℕ → ℤ → Url
with_port m host port = record {
  host = host;
  port = or_default m.schema port;
  schema = m.schema;
  path = m.path ++ m.query;
}

unfoldable pub port_of : Match → Option (List ℕ) → Option Url
port_of m none = some (with_port m m.host (negsuc 0))
port_of m (some text) = stoi text >>=? (λ p. some (with_port m (span not_colon m.host).0 p))

unfoldable pub url_of : Match → Option Url
url_of m = port_of m (behind (span not_colon m.host).1)

-- `parse`; `none` when it throws. The expression is matched against `url.c_str()`, which ends at a NUL.
unfoldable pub parse : List ℕ → Option Url
parse url = regex_match (c_string url) >>=? url_of
