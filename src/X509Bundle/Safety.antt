-- ===== src/X509Bundle/Safety.antt =====
-- The callback of main/io/X509Bundle.cpp reads inside the bundle and the issuer, returns, and clears the
-- flags only for a certificate that a record of the bundle vouches for.
use Prim.Native.Nat.{Ordering, bit_and}
use mathlib.Core.Path.{subst}
use bell.Prelude.{
  ℕ, zero, suc, ◌+◌, ◌-◌, ◌^◌, ◌≤◌, ◌<◌, ◌≡◌, ◌≢◌, refl, sym, ◌⊎◌, inl, inr, List, [], ◌∷◌, Option,
  none, some, length, get_elem?, arith, Bool-cases, ◌==◌, take, drop,
}
use bell.X509Bundle.{
  Bundle, word, bytes_at, order, Crt, Mbedtls, reachable, compare_name, key_of,
  crt_check_certificate, conclude, check_found, crt_verify_callback,
}
use bell.X509Bundle.Search.{
  Found, found, missing, overread, unfinished, find_crt, find_crt-Ends, Ends,
}
use bell.X509Bundle.Inside.{IsValid, IsIndexed, AllInside, record_end}

-- The name at each offset of the index is no longer than what may be read of the issuer.
abbrev pub AllReadable : List ℕ → List ℕ → List ℕ → Type 0
AllReadable issuer bytes [] = Unit {0}
AllReadable issuer bytes (at ∷ crts) =
    (word bytes at ≤ length issuer) × AllReadable issuer bytes crts

module _ (issuer bytes : List ℕ) where
  bytes_at-inside :
      (xs : List ℕ) (at n : ℕ) → at + n ≤ length xs → bytes_at xs at n ≡ some (take n (drop at xs))
  unfolding bytes_at
  bytes_at-inside xs at n le = ground arith

  at_index :
      (crts : List ℕ) (i : ℕ)
      → i < length crts
      → AllInside bytes crts
      → AllReadable issuer bytes crts
      → (at : ℕ) × (get_elem? crts i ≡ some at)
        × (record_end bytes at ≤ length bytes)
        × (word bytes at ≤ length issuer)
  at_index [] i lt inside readable = absurd (omega arith)
  at_index (at ∷ crts) zero lt inside readable = (at, refl, inside.0, readable.0)
  at_index (at ∷ crts) (suc i) lt inside readable =
      at_index crts i (omega arith) inside.1 readable.1

  -- Each comparison reads what it may, and so does the key.
  compare_name-total :
      (crts : List ℕ) (i : ℕ)
      → i < length crts
      → AllInside bytes crts
      → AllReadable issuer bytes crts
      → ((o : Ordering) × (compare_name issuer bytes crts i ≡ some o))
        × ((key : List ℕ) × (key_of bytes crts i ≡ some key))
  unfolding compare_name key_of
  compare_name-total crts i lt inside readable =
      let here = at_index crts i lt inside readable in
      let at : ℕ = here.0 in
      (
        (
          order (take (word bytes at) (drop 0 issuer)) (take (word bytes at) (drop (at + 4) bytes)),
          simp (
            here.1,
            bytes_at-inside bytes at 2 (omega (arith, here.2)),
            bytes_at-inside issuer 0 (word bytes at) (omega (arith, here.3)),
            bytes_at-inside bytes (at + 4) (word bytes at) (omega (arith, here.2)),
          ),
        ),
        (
          take (word bytes (at + 2)) (drop (at + 4 + word bytes at) bytes),
          simp (
            here.1,
            bytes_at-inside bytes at 4 (omega (arith, here.2)),
            bytes_at-inside bytes (at + 4 + word bytes at) (word bytes (at + 2))
                (omega (arith, here.2)),
          ),
        ),
      )

module _ (m : Mbedtls) (s : Bundle) (child : Crt) (flags : ℕ) where
  open m use {fatal_error, badcert_bad_md, badcert_not_trusted}

  -- The issuer's name is that of a record of the bundle whose key verifies the child.
  pub record Vouched (crts : List ℕ) : Type 0 where
    pub middle : ℕ
    pub key : List ℕ
    pub in_bundle : middle < s.num_certs
    pub named : compare_name child.issuer_raw s.bytes crts middle ≡ some Ordering.eq
    pub keyed : key_of s.bytes crts middle ≡ some key
    pub verified : crt_check_certificate m child key ≡ 0

  -- The callback returns. Where it changes the flags it clears them, and a record vouches for the child.
  abbrev pub Justified : Option (List ℕ) → Option (ℕ × ℕ) → Type 0
  Justified crts none = ⊥
  Justified none (some (ret, flags')) = flags' ≡ flags
  Justified (some crts) (some (ret, flags')) =
      (flags' ≡ flags) ⊎ ((ret ≡ 0) × (flags' ≡ 0) × Vouched crts)

  conclude-Justified :
      (crts : List ℕ) (ret : ℕ)
      → (ret ≡ 0 → Vouched crts)
      → Justified (some crts) (some (conclude m ret flags))
  unfolding conclude
  conclude-Justified crts ret vouched = elim (Bool-cases (ret == 0)) [
    | inl zero_ret ↦ rw (zero_ret, Justified) (inr (refl, refl, vouched (ground arith)))
    | inr failed ↦ rw (failed, Justified) (inl refl)
  ]

  check_found-Justified :
      (crts : List ℕ) (f : Found)
      → fatal_error ≢ 0
      → ((i : ℕ) → i < s.num_certs → (key : List ℕ) × (key_of s.bytes crts i ≡ some key))
      → Ends (compare_name child.issuer_raw s.bytes crts) s.num_certs f
      → Justified (some crts) (check_found m f s.bytes crts child flags)
  unfolding check_found
  check_found-Justified crts (found middle) fatal keys h =
      let keyed = keys middle h.0 in
      rw (keyed.1, Justified)
        (conclude-Justified crts _ (λ verified. record {
          middle = middle;
          key = keyed.0;
          in_bundle = h.0;
          named = h.1;
          keyed = keyed.1;
          verified = verified;
        }))
  check_found-Justified crts missing fatal keys h =
      conclude-Justified crts fatal_error (λ e. absurd (fatal e))
  check_found-Justified crts overread fatal keys h = elim h [ ]
  check_found-Justified crts unfinished fatal keys h = elim h [ ]

  -- The callback with an index, which it reads within its bounds.
  verify_indexed :
      (index : Option (List ℕ))
      → fatal_error ≢ 0
      → s.num_certs < 2 ^ 16
      → IsIndexed s index
      → ((crts : List ℕ) → index ≡ some crts → AllReadable child.issuer_raw s.bytes crts)
      → Justified index (elim index [
        | none ↦ some (fatal_error, flags)
        | some crts ↦
            check_found m
              (find_crt (compare_name child.issuer_raw (reachable s) crts) 17 0 s.num_certs)
              (reachable s)
              crts
              child
              flags
      ])
  verify_indexed none fatal few valid readable = refl
  verify_indexed (some crts) fatal few valid readable =
      let live : reachable s ≡ s.bytes = rw valid.2 refl in
      subst
        (λ (bytes : List ℕ). Justified (some crts) (
          check_found m (find_crt (compare_name child.issuer_raw bytes crts) 17 0 s.num_certs) bytes
            crts child flags))
        (sym live)
        (check_found-Justified crts _ fatal (λ i lt. (reads i lt).1)
          (find_crt-Ends (compare_name child.issuer_raw s.bytes crts) s.num_certs 16 0 s.num_certs
            (λ i lt. (reads i lt).0) (omega arith) (omega arith)))
    where
      reads :
          (i : ℕ)
          → i < s.num_certs
          → ((o : Ordering) × (compare_name child.issuer_raw s.bytes crts i ≡ some o))
            × ((key : List ℕ) × (key_of s.bytes crts i ≡ some key))
      reads i lt =
          compare_name-total child.issuer_raw s.bytes crts i (omega (arith, valid.1)) valid.0
            (readable crts refl)

  -- With a valid index, sorted or not, of at most 65535 records whose names are no longer than what may
  -- be read of the issuer, the callback ends within its 17 rounds and reads nothing outside the bundle.
  -- It leaves the flags alone, or it returns 0 and clears them; and then a record of the bundle bears
  -- the issuer's name, up to the length of its own, and has a key that verifies the certificate.
  pub verify_callback_sound :
      fatal_error ≢ 0
      → s.num_certs < 2 ^ 16
      → IsValid s
      → ((crts : List ℕ) → s.crts ≡ some crts → AllReadable child.issuer_raw s.bytes crts)
      → Justified s.crts (crt_verify_callback m s child flags)
  unfolding crt_verify_callback
  verify_callback_sound fatal few valid readable =
      elim (Bool-cases (bit_and flags (2 ^ 32 - 1 - badcert_bad_md) == badcert_not_trusted)) [
        | inl untrusted ↦ rw (untrusted, Justified) (verify_indexed s.crts fatal few valid readable)
        | inr trusted ↦ rw (trusted, Justified) (unchanged s.crts)
      ]
    where
      unchanged : (index : Option (List ℕ)) → Justified index (some (0, flags))
      unchanged none = refl
      unchanged (some crts) = inl refl
