-- ===== src/UrlParser.antt =====
-- main/io/include/URLParser.h: `urlEncode` and `urlDecode`. A `char` is a byte below 256; those that are
-- negative in C are the ones from 128 on, which no test of the code admits.
pub mod RoundTrip
pub mod Parse
pub mod Printed
pub mod ParsePrint
mod Tests
use bell.Prelude.{
  ℕ, zero, suc, ◌+◌, ◌*◌, ◌/◌, ◌%◌, ◌-◌, Bool, ◌&&◌, ◌||◌, List, [], ◌∷◌, length, take, leb, ltb,
  ◌==◌, if◌then◌else◌,
}
use bell.Text.{strtol16}

-- The characters that are left as they are.
abbrev pub unreserved : ℕ → Bool
unreserved ch =
    (leb 48 ch && leb ch 57)
    || ((leb 65 ch && leb ch 90)
        || ((leb 97 ch && leb ch 122)
            || (ch == 45
                || (ch == 95
                    || (ch == 33
                        || (ch == 39
                            || (ch == 40
                                || (ch == 41 || (ch == 42 || (ch == 126 || ch == 46))))))))))

-- `hex_digt`
abbrev pub hex_digit : ℕ → ℕ
hex_digit d = if ltb d 10 then 48 + d else 55 + d

unfoldable pub url_encode : List ℕ → List ℕ
url_encode [] = []
url_encode (ch ∷ cs) =
    let rest = url_encode cs in
    if unreserved ch then ch ∷ rest else 37 ∷ hex_digit (ch / 16) ∷ hex_digit (ch % 16) ∷ rest

-- The loop of `urlDecode`: `skip` is how many characters `i += 2` still passes over, and `cs` what is
-- left from `i` on. `(i + 2) < value.size()` holds when two more characters follow.
unfoldable pub decode_from : ℕ → List ℕ → List ℕ
decode_from skip [] = []
decode_from (suc skip) (ch ∷ cs) = decode_from skip cs
decode_from zero (ch ∷ cs) =
    let escaped = ch == 37 && leb 2 (length cs) in
    let rest = decode_from (if escaped then 2 else 0) cs in
    (if escaped then strtol16 (take 2 cs) else if ch == 43 then 32 else ch) ∷ rest

unfoldable pub url_decode : List ℕ → List ℕ
unfolding decode_from
url_decode = decode_from 0
