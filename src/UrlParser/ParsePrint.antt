-- ===== src/UrlParser/ParsePrint.antt =====
-- `URLParser::parse` of main/io/include/URLParser.h gives the parts of a well-formed URL back.
use bell.Prelude.{
  ℕ, ◌≡◌, refl, sym, ap, ◌∙◌, List, [], ◌∷◌, ◌++◌, append-nil, Option, none, some, ◌>>=?◌, arith,
}
use bell.Text.{count_figures, print}
use Prim.Native.Nat.{max}
use bell.Text.Decimal.{pos, negsuc, stoi, to_string, stoi-to_string}
use bell.UrlParser.Parse.{
  span, in_path, in_host, in_schema, match_host, Match, regex_match, with_port, port_of, url_of,
  parse, not_colon, behind,
}
use bell.UrlParser.Printed.{
  All, Stops, span-append, All-append, All-weaken, All-figures, marked, port_text, Parts,
  IsWellFormed, FitsInt, tail_text, print_url, port_or_default, match_schema-append, query-Stops,
  c_string-All, path-Stops, match_query-marked, match_hash-marked,
}

authority_in_host :
    (host : List ℕ) (port : Option ℕ)
    → All in_schema host
    → All in_host (host ++ marked b':' (port_text port))
unfolding to_string print
authority_in_host host none h =
    All-append in_host host [] (All-weaken in_schema in_host host (λ c e. ground arith) h)
      (omega arith)
authority_in_host host (some p) h =
    All-append in_host host (b':' ∷ to_string p)
      (All-weaken in_schema in_host host (λ c e. ground arith) h)
      (refl, All-figures in_host (max 1 (count_figures 10 64 p)) p (λ r lt. ground arith))

match_host-append :
    (a rest : List ℕ)
    → All in_host a
    → Stops in_host rest
    → match_host (b'/' ∷ (b'/' ∷ (a ++ rest))) ≡ (a, rest)
unfolding match_host
match_host-append a rest h stop = span-append in_host a rest h stop

-- The four groups of a printed URL.
regex_match-print_url :
    (u : Parts)
    → IsWellFormed u
    → regex_match (print_url u)
      ≡ some (record {
        schema = u.schema;
        host = u.host ++ marked b':' (port_text u.port);
        path = u.path;
        query = marked b'?' u.query;
      })
unfolding regex_match
regex_match-print_url u w =
    let a = u.host ++ marked b':' (port_text u.port) in
    let at_schema =
      match_schema-append u.schema (b'/' ∷ (b'/' ∷ (a ++ tail_text u))) w.named w.schema_fits in
    let at_host = match_host-append a (tail_text u) (authority_in_host u.host u.port w.host_fits) (
      path-Stops u.path (marked b'?' u.query ++ marked b'#' u.hash) w.rooted
        (query-Stops in_host u.query u.hash refl refl)) in
    let at_path =
      span-append in_path u.path (marked b'?' u.query ++ marked b'#' u.hash) w.path_fits
        (query-Stops in_path u.query u.hash refl refl) in
    let at_query = match_query-marked u.query u.hash w.query_fits in
    let at_hash = match_hash-marked u.hash w.hash_fits in
    rw (at_schema, at_host, at_path, at_query, at_hash)

not_colon_host :
    (host : List ℕ) (port : Option ℕ)
    → All in_schema host
    → span not_colon (host ++ marked b':' (port_text port)) ≡ (host, marked b':' (port_text port))
not_colon_host host none h =
    span-append not_colon host [] (All-weaken in_schema not_colon host (λ c e. ground arith) h)
      (omega arith)
not_colon_host host (some p) h =
    span-append not_colon host (b':' ∷ to_string p)
      (All-weaken in_schema not_colon host (λ c e. ground arith) h) refl

abbrev groups : List ℕ → List ℕ → Option ℕ → List ℕ → List ℕ → Match
groups schema host port path query = record {
  schema = schema;
  host = host ++ marked b':' (port_text port);
  path = path;
  query = query;
}

url_of-groups :
    (schema host : List ℕ) (port : Option ℕ) (path query : List ℕ)
    → All in_schema host
    → FitsInt port
    → url_of (groups schema host port path query)
      ≡ some (record {
        host = host;
        port = port_or_default schema port;
        schema = schema;
        path = path ++ query;
      })
unfolding url_of port_of
url_of-groups schema host none path query h fits =
    let m = groups schema host none path query in
    ap (λ (t : List ℕ × List ℕ). port_of m (behind t.1)) (not_colon_host host none h)
    ∙ ap (λ (t : List ℕ). some (with_port m t (negsuc 0))) (append-nil host)
url_of-groups schema host (some p) path query h fits =
    let m = groups schema host (some p) path query in
    let number : stoi (to_string p) ≡ some (pos p) =
      ap stoi (sym (append-nil (to_string p))) ∙ stoi-to_string p [] fits refl in
    ap (λ (t : List ℕ × List ℕ). port_of m (behind t.1)) (not_colon_host host (some p) h)
    ∙ ap (λ o. o >>=? (λ q. some (with_port m (span not_colon m.host).0 q))) number
    ∙ ap (λ (t : List ℕ × List ℕ). some (with_port m t.0 (pos p))) (not_colon_host host (some p) h)

-- `parse` of a URL with a schema, an authority, and perhaps a path, a query and a hash gives the schema,
-- the host, the path with the query, and the port: the one that stands in the URL, and else 80 for the
-- schema "http" and 443 for any other. No part may have a character that ends it or a NUL, the schema may
-- not be empty, the path is empty or begins with '/', the hash has no end of line, and the port fits an `int`.
pub parse-print_url :
    (u : Parts)
    → IsWellFormed u
    → parse (print_url u)
      ≡ some (record {
        host = u.host;
        port = port_or_default u.schema u.port;
        schema = u.schema;
        path = u.path ++ marked b'?' u.query;
      })
unfolding parse
parse-print_url u w =
    ap (λ (t : List ℕ). regex_match t >>=? url_of) (c_string-All (print_url u) w.no_nul)
    ∙ ap (λ o. o >>=? url_of) (regex_match-print_url u w)
    ∙ url_of-groups u.schema u.host u.port u.path (marked b'?' u.query) w.host_fits w.port_fits
