-- ===== src/UrlParser/RoundTrip.antt =====
-- `urlDecode` undoes `urlEncode`, and what `urlEncode` gives is safe in a URL.
use bell.Prelude.{
  AllBytes, none_left, one_more, ℕ, suc, ◌/◌, ◌%◌, ◌≡◌, refl, ap, ap₂, Bool, Bool-cases, inl, inr,
  true, false, ◌&&◌, ◌||◌, List, [], ◌∷◌, length, arith, leb, ◌==◌, all_below, all_below_sound,
  eq-all_below,
}
use bell.Text.{strtol16, hex_signed, hex_from, skip_spaces}
use bell.UrlParser.{unreserved, hex_digit, url_encode, decode_from, url_decode}

hex_table : all_below 256 (λ c. strtol16 (hex_digit (c / 16) ∷ hex_digit (c % 16) ∷ []) == c) ≡ true
unfolding all_below strtol16 hex_signed hex_from skip_spaces
hex_table = refl

-- `urlDecode` gives back every string of bytes that `urlEncode` has encoded.
pub url_decode-url_encode : (cs : List ℕ) → AllBytes cs → url_decode (url_encode cs) ≡ cs
unfolding url_decode url_encode decode_from
url_decode-url_encode _ none_left = refl
url_decode-url_encode _ (one_more c cs h hs) = elim (Bool-cases (unreserved c)) [
  | inl plain ↦
      let percent : c == 37 ≡ false = ground arith in
      let plus : c == 43 ≡ false = ground arith in
      rw (plain, percent, plus) (ap (◌∷◌ c) (url_decode-url_encode cs hs))
  | inr other ↦
      let more : leb 2 (suc (suc (length (url_encode cs)))) ≡ true = ground arith in
      let figures : strtol16 (hex_digit (c / 16) ∷ hex_digit (c % 16) ∷ []) ≡ c =
        eq-all_below 256 _ (λ c. c) c hex_table h in
      rw (other, more) (ap₂ ◌∷◌ figures (url_decode-url_encode cs hs))
]

-- The characters that `urlEncode` may give.
abbrev pub safe : ℕ → Bool
safe c = unreserved c || c == 37

abbrev pub all_safe : List ℕ → Bool
all_safe [] = true
all_safe (c ∷ cs) = safe c && all_safe cs

safe_table : all_below 256 (λ c. safe (hex_digit (c / 16)) && safe (hex_digit (c % 16))) ≡ true
unfolding all_below
safe_table = refl

both : (a b d : Bool) → a && b ≡ true → d ≡ true → a && (b && d) ≡ true
both true true true h k = refl
both true true false h k = k
both true false d h k = h
both false b d h k = h

-- What `urlEncode` gives for a string of bytes has only letters, digits, `!'()*-._~` and `%`.
pub url_encode_safe : (cs : List ℕ) → AllBytes cs → all_safe (url_encode cs) ≡ true
unfolding url_encode
url_encode_safe _ none_left = refl
url_encode_safe _ (one_more c cs h hs) = elim (Bool-cases (unreserved c)) [
  | inl plain ↦ rw (plain, plain, url_encode_safe cs hs) refl
  | inr other ↦
      let figures =
        all_below_sound 256 (λ c. safe (hex_digit (c / 16)) && safe (hex_digit (c % 16))) c
          safe_table h in
      rw other (
        both (safe (hex_digit (c / 16))) (safe (hex_digit (c % 16))) _ figures
          (url_encode_safe cs hs))
]
