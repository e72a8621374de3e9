-- ===== src/UrlParser/Tests.antt =====
-- Runs of main/io/include/URLParser.h and the theorems about it at concrete inputs.
use bell.Prelude.{AllBytes, none_left, one_more, ℕ, ◌≡◌, refl, List, [], ◌∷◌, arith}
use bell.Prelude.{some, none}
use bell.Text.{skip_spaces, c_string, print, figures, count_figures}
use bell.Text.Decimal.{pos, to_string, stoi, signed_decimal, decimal}
use bell.UrlParser.Parse.{
  parse, regex_match, match_schema, match_host, match_query, match_hash, span, url_of, port_of,
}
use bell.UrlParser.Printed.{Parts, IsWellFormed, print_url}
use bell.UrlParser.ParsePrint.{parse-print_url}
use bell.UrlParser.{url_encode, url_decode}
use bell.UrlParser.RoundTrip.{url_decode-url_encode}

-- `a b%é`
abbrev text : List ℕ
text = 97 ∷ 32 ∷ 37 ∷ 233 ∷ []

text-AllBytes : AllBytes text
text-AllBytes = one_more 97 _ (omega arith) (
    one_more 32 _ (omega arith)
      (one_more 37 _ (omega arith) (one_more 233 _ (omega arith) none_left)))

url_encode-text : url_encode text ≡ 97 ∷ 37 ∷ 50 ∷ 48 ∷ 37 ∷ 50 ∷ 53 ∷ 37 ∷ 69 ∷ 57 ∷ []
unfolding url_encode
url_encode-text = refl

url_decode-url_encode_example : url_decode (url_encode text) ≡ text
url_decode-url_encode_example = url_decode-url_encode text text-AllBytes

-- http://ab:8080/c?d#e
abbrev parts : Parts
parts = record {
  schema = b'h' ∷ b't' ∷ b't' ∷ b'p' ∷ [];
  host = b'a' ∷ b'b' ∷ [];
  port = some 8080;
  path = b'/' ∷ b'c' ∷ [];
  query = some (b'd' ∷ []);
  hash = some (b'e' ∷ []);
}

parts-IsWellFormed : IsWellFormed parts
unfolding to_string print figures count_figures
parts-IsWellFormed = record {
  named = omega arith;
  schema_fits = (refl, (refl, (refl, (refl, omega arith))));
  host_fits = (refl, (refl, omega arith));
  port_fits = omega arith;
  path_fits = (refl, (refl, omega arith));
  rooted = refl;
  query_fits = (refl, omega arith);
  hash_fits = (refl, omega arith);
  no_nul = (
    refl,
    (
      refl,
      (
        refl,
        (
          refl,
          (
            refl,
            (
              refl,
              (
                refl,
                (
                  refl,
                  (
                    refl,
                    (
                      refl,
                      (
                        refl,
                        (
                          refl,
                          (
                            refl,
                            (refl, (refl, (refl, (refl, (refl, (refl, (refl, omega arith))))))),
                          ),
                        ),
                      ),
                    ),
                  ),
                ),
              ),
            ),
          ),
        ),
      ),
    ),
  );
}

parse-print_url_example :
    parse (print_url parts)
    ≡ some (record {
      host = b'a' ∷ b'b' ∷ [];
      port = pos 8080;
      schema = b'h' ∷ b't' ∷ b't' ∷ b'p' ∷ [];
      path = b'/' ∷ b'c' ∷ b'?' ∷ b'd' ∷ [];
    })
parse-print_url_example = parse-print_url parts parts-IsWellFormed

-- //a/c has no schema, and gets the port of "https".
parse_bare :
    parse (b'/' ∷ b'/' ∷ b'a' ∷ b'/' ∷ b'c' ∷ [])
    ≡ some (record { host = b'a' ∷ []; port = pos 443; schema = []; path = b'/' ∷ b'c' ∷ [] })
unfolding parse regex_match match_schema match_host match_query match_hash c_string span url_of
    port_of
parse_bare = refl

-- x://[::1] is refused: what follows the first ':' of the host is no number.
parse_ipv6 : parse (b'x' ∷ b':' ∷ b'/' ∷ b'/' ∷ b'[' ∷ b':' ∷ b':' ∷ b'1' ∷ b']' ∷ []) ≡ none
unfolding parse regex_match match_schema match_host match_query match_hash c_string span url_of
    port_of stoi signed_decimal decimal skip_spaces
parse_ipv6 = refl
