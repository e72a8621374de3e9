-- ===== src/UrlParser/Printed.antt =====
-- URLs in parts, as main/io/include/URLParser.h reads them: what each group of the expression takes.
use bell.Prelude.{
  ℕ, zero, suc, ◌+◌, ◌/◌, ◌%◌, ◌≤◌, ◌<◌, ◌^◌, ◌≡◌, refl, ap, Bool, true, false, List, [], ◌∷◌, ◌++◌,
  Option, none, some, if◌then◌else◌, arith, length,
}
use bell.Text.Decimal.{ℤ, pos, to_string}
use bell.Text.{figures, c_string}
use bell.UrlParser.Parse.{
  span, in_query, in_path, in_host, in_schema, in_hash, match_schema, match_query, all_hash,
  match_hash, is_http, schema_of,
}

abbrev pub All : (ℕ → Bool) → List ℕ → Type 0
All ok [] = 0 ≤ 0
All ok (c ∷ cs) = (ok c ≡ true) × All ok cs

-- A text that does not go on with a character that passes the test.
abbrev pub Stops : (ℕ → Bool) → List ℕ → Type 0
Stops ok [] = 0 ≤ 0
Stops ok (c ∷ cs) = ok c ≡ false

pub span-append :
    (ok : ℕ → Bool) (xs ys : List ℕ) → All ok xs → Stops ok ys → span ok (xs ++ ys) ≡ (xs, ys)
unfolding span
span-append ok [] [] h stop = refl
span-append ok [] (y ∷ ys) h stop = rw stop
span-append ok (x ∷ xs) ys (h, hs) stop =
    rw h (ap (λ (t : List ℕ × List ℕ). (x ∷ t.0, t.1)) (span-append ok xs ys hs stop))

pub All-append : (ok : ℕ → Bool) (xs ys : List ℕ) → All ok xs → All ok ys → All ok (xs ++ ys)
All-append ok [] ys h k = k
All-append ok (x ∷ xs) ys (h, hs) k = (h, All-append ok xs ys hs k)

pub All-weaken :
    (ok may : ℕ → Bool) (xs : List ℕ)
    → ((c : ℕ) → ok c ≡ true → may c ≡ true)
    → All ok xs
    → All may xs
All-weaken ok may [] imp h = h
All-weaken ok may (x ∷ xs) imp (h, hs) = (imp x h, All-weaken ok may xs imp hs)

pub All-figures :
    (ok : ℕ → Bool) (k n : ℕ) → ((r : ℕ) → r < 10 → ok (48 + r) ≡ true) → All ok (figures 10 k n)
unfolding figures
All-figures ok zero n h = omega arith
All-figures ok (suc k) n h =
    All-append ok (figures 10 k (n / 10)) ((48 + n % 10) ∷ []) (All-figures ok k (n / 10) h)
      (h (n % 10) (omega arith), omega arith)

-- The text behind a mark, if there is one.
abbrev pub marked : ℕ → Option (List ℕ) → List ℕ
marked c none = []
marked c (some cs) = c ∷ cs

abbrev pub AllOf : (ℕ → Bool) → Option (List ℕ) → Type 0
AllOf ok none = 0 ≤ 0
AllOf ok (some cs) = All ok cs

abbrev pub port_text : Option ℕ → Option (List ℕ)
port_text none = none
port_text (some p) = some (to_string p)

-- The parts of a URL.
pub record Parts : Type 0 where
  pub schema : List ℕ
  pub host : List ℕ
  pub port : Option ℕ
  pub path : List ℕ
  pub query : Option (List ℕ)
  pub hash : Option (List ℕ)

abbrev pub FitsInt : Option ℕ → Type 0
FitsInt none = 0 ≤ 0
FitsInt (some p) = p < 2 ^ 31

-- The parts from the path on, and the whole.
abbrev pub tail_text : Parts → List ℕ
tail_text u = u.path ++ (marked b'?' u.query ++ marked b'#' u.hash)

abbrev pub print_url : Parts → List ℕ
print_url u =
    u.schema
    ++ (b':' ∷ (b'/' ∷ (b'/' ∷ ((u.host ++ marked b':' (port_text u.port)) ++ tail_text u))))

abbrev pub not_nul : ℕ → Bool
not_nul zero = false
not_nul (suc c) = true

-- No part has a character that ends it, the path is empty or begins with a character that ends a host. No
-- character is a NUL.
pub record IsWellFormed (u : Parts) : Type 0 where
  pub named : 0 < length u.schema
  pub schema_fits : All in_schema u.schema
  pub host_fits : All in_schema u.host
  pub port_fits : FitsInt u.port
  pub path_fits : All in_path u.path
  pub rooted : Stops in_host u.path
  pub query_fits : AllOf in_query u.query
  pub hash_fits : AllOf in_hash u.hash
  pub no_nul : All not_nul (print_url u)

pub c_string-All : (cs : List ℕ) → All not_nul cs → c_string cs ≡ cs
unfolding c_string
c_string-All [] h = refl
c_string-All (zero ∷ cs) h = absurd (cc (h.0))
c_string-All (suc c ∷ cs) (h, hs) = ap (λ (t : List ℕ). suc c ∷ t) (c_string-All cs hs)

-- The port that stands in the URL, and else 80 for "http" and 443 for all others.
abbrev pub port_or_default : List ℕ → Option ℕ → ℤ
port_or_default schema none = if is_http schema then pos 80 else pos 443
port_or_default schema (some p) = pos p

pub match_schema-append :
    (s rest : List ℕ)
    → 0 < length s
    → All in_schema s
    → match_schema (s ++ (b':' ∷ rest)) ≡ (s, rest)
unfolding match_schema
match_schema-append [] rest h ok = absurd (omega arith)
match_schema-append (c ∷ cs) rest h ok =
    ap (schema_of ((c ∷ cs) ++ (b':' ∷ rest)))
      (span-append in_schema (c ∷ cs) (b':' ∷ rest) ok refl)

pub hash-Stops : (ok : ℕ → Bool) (h : Option (List ℕ)) → ok b'#' ≡ false → Stops ok (marked b'#' h)
hash-Stops ok none e = omega arith
hash-Stops ok (some cs) e = e

pub query-Stops :
    (ok : ℕ → Bool) (q h : Option (List ℕ))
    → ok b'?' ≡ false
    → ok b'#' ≡ false
    → Stops ok (marked b'?' q ++ marked b'#' h)
query-Stops ok none h e f = hash-Stops ok h f
query-Stops ok (some cs) h e f = e

pub path-Stops : (p q : List ℕ) → Stops in_host p → Stops in_host q → Stops in_host (p ++ q)
path-Stops [] q h k = k
path-Stops (c ∷ p) q h k = h

pub match_query-marked :
    (q h : Option (List ℕ))
    → AllOf in_query q
    → match_query (marked b'?' q ++ marked b'#' h) ≡ (marked b'?' q, marked b'#' h)
unfolding match_query
match_query-marked none none ok = refl
match_query-marked none (some cs) ok = refl
match_query-marked (some cs) h ok =
    ap (λ (t : List ℕ × List ℕ). (b'?' ∷ t.0, t.1))
      (span-append in_query cs (marked b'#' h) ok (hash-Stops in_query h refl))

pub all_hash-All : (cs : List ℕ) → All in_hash cs → all_hash cs ≡ true
unfolding all_hash
all_hash-All [] h = refl
all_hash-All (c ∷ cs) (h, hs) = rw h (all_hash-All cs hs)

pub match_hash-marked : (h : Option (List ℕ)) → AllOf in_hash h → match_hash (marked b'#' h) ≡ true
unfolding match_hash
match_hash-marked none ok = refl
match_hash-marked (some cs) ok = all_hash-All cs ok
