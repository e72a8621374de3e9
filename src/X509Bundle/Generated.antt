-- ===== src/X509Bundle/Generated.antt =====
-- A bundle as the generator of main/io/X509Bundle.cpp writes it, sorted by subject name, and what the
-- callback makes of it: the certificates' own list decides.
use mathlib.Core.Path.{subst}
use bell.Prelude.{
  ℕ, ◌+◌, ◌/◌, ◌%◌, ◌^◌, ◌≤◌, ◌<◌, ◌≡◌, refl, sym, ap, ◌∙◌, Bool, true, false, List, [], ◌∷◌, ◌++◌,
  some, length, ltb, leb, arith, append_assoc, append-nil, length-append, take-length-append,
  drop-length-append, or_high,
}
use bell.X509Bundle.{Bundle, returned, word, index_crts, install, init, bytes_at}

-- A root certificate: its subject name and its public key.
pub record Root : Type 0 where
  pub name : List ℕ
  pub key : List ℕ

-- Two bytes, the high one first.
abbrev pub two_bytes : ℕ → List ℕ
two_bytes n = n / 256 ∷ n % 256 ∷ []

abbrev pub record_of : Root → List ℕ
record_of c = two_bytes (length c.name) ++ (two_bytes (length c.key) ++ (c.name ++ c.key))

abbrev pub records_of : List Root → List ℕ
records_of [] = []
records_of (c ∷ cs) = record_of c ++ records_of cs

abbrev pub bundle_of : List Root → List ℕ
bundle_of cs = two_bytes (length cs) ++ records_of cs

-- Where the records stand, from an offset on.
abbrev pub offsets : ℕ → List Root → List ℕ
offsets at [] = []
offsets at (c ∷ cs) = at ∷ offsets (at + 4 + length c.name + length c.key) cs

-- The lengths fit their two bytes.
abbrev pub AllShort : List Root → Type 0
AllShort [] = Unit {0}
AllShort (c ∷ cs) = (length c.name < 2 ^ 16) × (length c.key < 2 ^ 16) × AllShort cs

-- Two bytes read back.
word-two_bytes :
    (pre : List ℕ) (n : ℕ) (post : List ℕ)
    → n < 2 ^ 16
    → word (pre ++ (two_bytes n ++ post)) (length pre) ≡ n
unfolding word
word-two_bytes [] n post h = or_high 8 (n / 256) (n % 256) (omega arith) ∙ omega arith
word-two_bytes (x ∷ pre) n post h = word-two_bytes pre n post h

-- What stands behind a prefix is read as it is.
bytes_at-append :
    (pre xs post : List ℕ) → bytes_at (pre ++ (xs ++ post)) (length pre) (length xs) ≡ some xs
unfolding bytes_at
bytes_at-append pre xs post =
    let fits : leb (length pre + length xs) (length (pre ++ (xs ++ post))) ≡ true =
      ground (arith, length-append pre (xs ++ post), length-append xs post) in
    rw (fits, drop-length-append pre (xs ++ post)) (ap some (take-length-append xs post))

-- `xs` stands in the bytes at an offset.
pub record Stands (bytes : List ℕ) (at : ℕ) (xs : List ℕ) : Type 0 where
  pub before : List ℕ
  pub after : List ℕ
  pub placed : at ≡ length before
  pub split : bytes ≡ before ++ (xs ++ after)

module _ {bytes : List ℕ} {at : ℕ} where
  pub Stands-left : (xs ys : List ℕ) → Stands bytes at (xs ++ ys) → Stands bytes at xs
  Stands-left xs ys s = record {
    before = s.before;
    after = ys ++ s.after;
    placed = s.placed;
    split = s.split ∙ ap (◌++◌ s.before) (append_assoc xs ys s.after);
  }

  pub Stands-right :
      (xs ys : List ℕ) → Stands bytes at (xs ++ ys) → Stands bytes (at + length xs) ys
  Stands-right xs ys s = record {
    before = s.before ++ xs;
    after = s.after;
    placed = omega (arith, s.placed, length-append s.before xs);
    split =
        s.split
        ∙ ap (◌++◌ s.before) (append_assoc xs ys s.after)
        ∙ sym (append_assoc s.before xs (ys ++ s.after));
  }

  Stands-bytes_at : (xs : List ℕ) → Stands bytes at xs → bytes_at bytes at (length xs) ≡ some xs
  Stands-bytes_at xs s = rw (s.split, s.placed) (bytes_at-append s.before xs s.after)

  Stands-word : (n : ℕ) → n < 2 ^ 16 → Stands bytes at (two_bytes n) → word bytes at ≡ n
  Stands-word n h s = rw (s.split, s.placed) (word-two_bytes s.before n s.after h)

-- What the code reads of a record.
pub record Reads (bytes : List ℕ) (at : ℕ) (c : Root) : Type 0 where
  pub name_len : word bytes at ≡ length c.name
  pub key_len : word bytes (at + 2) ≡ length c.key
  pub header : bytes_at bytes at 4 ≡ some (two_bytes (length c.name) ++ two_bytes (length c.key))
  pub name_header : bytes_at bytes at 2 ≡ some (two_bytes (length c.name))
  pub name_bytes : bytes_at bytes (at + 4) (length c.name) ≡ some c.name
  pub key_bytes : bytes_at bytes (at + 4 + length c.name) (length c.key) ≡ some c.key

module _ {bytes : List ℕ} {at : ℕ} (c : Root) (hn : length c.name < 2 ^ 16)
    (hk : length c.key < 2 ^ 16) (s : Stands bytes at (record_of c)) where
  behind_name_len : Stands bytes (at + 2) (two_bytes (length c.key) ++ (c.name ++ c.key))
  behind_name_len = Stands-right (two_bytes (length c.name)) _ s

  behind_key_len : Stands bytes (at + 4) (c.name ++ c.key)
  behind_key_len =
      subst (λ k. Stands bytes k (c.name ++ c.key)) (omega arith)
        (Stands-right (two_bytes (length c.key)) _ behind_name_len)

  pub Stands-Reads : Reads bytes at c
  Stands-Reads = record {
    name_len = Stands-word (length c.name) hn (Stands-left (two_bytes (length c.name)) _ s);
    key_len =
        Stands-word (length c.key) hk (Stands-left (two_bytes (length c.key)) _ behind_name_len);
    header =
        Stands-bytes_at (two_bytes (length c.name) ++ two_bytes (length c.key))
          (Stands-left _ (c.name ++ c.key) s);
    name_header =
        Stands-bytes_at (two_bytes (length c.name)) (Stands-left (two_bytes (length c.name)) _ s);
    name_bytes = Stands-bytes_at c.name (Stands-left c.name c.key behind_key_len);
    key_bytes = Stands-bytes_at c.key (Stands-right c.name c.key behind_key_len);
  }

Stands-le :
    {bytes : List ℕ} {at : ℕ} (xs : List ℕ) → Stands bytes at xs → at + length xs ≤ length bytes
Stands-le xs s = omega (
  arith,
  ap length s.split,
  s.placed,
  length-append s.before (xs ++ s.after),
  length-append xs s.after,
)

pub length-record_of : (c : Root) → length (record_of c) ≡ 4 + length c.name + length c.key
length-record_of c = omega (arith, length-append c.name c.key)

-- The loop of `init` finds each record, and then the end of the records.
pub index_crts-offsets :
    {bytes : List ℕ} (at : ℕ) (cs : List Root)
    → AllShort cs
    → Stands bytes at (records_of cs)
    → index_crts bytes (length cs) at ≡ some (offsets at cs, at + length (records_of cs))
unfolding index_crts
index_crts-offsets at [] short s = ap (λ n. some ([], n)) (omega arith)
index_crts-offsets {bytes} at (c ∷ cs) short s =
    let reads = Stands-Reads c short.0 short.1 (Stands-left (record_of c) (records_of cs) s) in
    let next = at + 4 + length c.name + length c.key in
    let behind : Stands bytes next (records_of cs) =
      subst (λ k. Stands bytes k (records_of cs)) (omega (arith, length-record_of c))
        (Stands-right (record_of c) (records_of cs) s) in
    let fits : ltb (length bytes) (at + 4) ≡ false = ground (
      arith,
      Stands-le (record_of c ++ records_of cs) s,
      length-append (record_of c) (records_of cs),
      length-record_of c,
    ) in
    rw (fits, reads.name_len, reads.key_len, index_crts-offsets next cs short.2 behind)
      (ap (λ n. some (at ∷ offsets next cs, n))
        (omega (arith, length-append (record_of c) (records_of cs), length-record_of c)))

-- The state that `init` makes of a generated bundle.
abbrev pub loaded : List Root → Bundle
loaded cs = record {
  bytes = bundle_of cs;
  crts = some (offsets 2 cs);
  crts_live = true;
  num_certs = length cs;
  should_verify_certs = true;
}

pub whole : (cs : List Root) → Stands (bundle_of cs) 0 (bundle_of cs)
whole cs = record {
  before = [];
  after = [];
  placed = refl;
  split = sym (append-nil (bundle_of cs));
}

-- `init` takes a generated bundle of 1 to 65535 certificates whose lengths fit.
pub init-bundle_of :
    (calloc moves : ℕ → Bool) (s : Bundle) (cs : List Root)
    → calloc (length cs) ≡ true
    → 0 < length cs
    → length cs < 2 ^ 16
    → AllShort cs
    → init calloc moves s (bundle_of cs) ≡ returned (loaded cs)
unfolding init install
init-bundle_of calloc moves s [] had some_certs few short = absurd (omega arith)
init-bundle_of calloc moves s (c ∷ cs) had some_certs few short =
    let all = c ∷ cs in
    let count : word (bundle_of all) 0 ≡ length all =
      Stands-word (length all) few
        (Stands-left (two_bytes (length all)) (records_of all) (whole all)) in
    let records : Stands (bundle_of all) 2 (records_of all) =
      Stands-right (two_bytes (length all)) (records_of all) (whole all) in
    let long : ltb (length (bundle_of all)) 6 ≡ false =
      ground (arith, length-append (record_of c) (records_of cs), length-record_of c) in
    let inside : ltb (length (bundle_of all)) (2 + length (records_of all)) ≡ false =
      ground (arith) in
    rw (long, count, had, index_crts-offsets 2 all short records, inside) refl
