-- ===== src/X509Bundle/Inside.antt =====
-- What `init` of main/io/X509Bundle.cpp lets in, and what a refused bundle leaves behind.
use mathlib.Core.Path.{subst}
use bell.Prelude.{
  ℕ, zero, suc, ◌+◌, ◌≤◌, ◌≡◌, refl, ap, inl, inr, Bool, true, false, List, [], ◌∷◌, Option, none,
  some, ◌>>=?◌, length, ltb, leb, if◌then◌else◌, arith, Bool-cases, ◌&&◌, not,
}
use bell.X509Bundle.{Bundle, returned, threw, Error, word, index_crts, install, init}

-- The header, the name and the key of the record at an offset lie in the bundle.
abbrev pub record_end : List ℕ → ℕ → ℕ
record_end bytes at = at + 4 + word bytes at + word bytes (at + 2)

abbrev pub AllInside : List ℕ → List ℕ → Type 0
AllInside bytes [] = Unit {0}
AllInside bytes (at ∷ crts) = (record_end bytes at ≤ length bytes) × AllInside bytes crts

-- Each record in the index lies in the bundle, into which its pointers still point, and `num_certs` counts
-- them; before the first bundle there is no index.
abbrev pub IsIndexed : Bundle → Option (List ℕ) → Type 0
IsIndexed s none = Unit {0}
IsIndexed s (some crts) =
    AllInside s.bytes crts × (length crts ≡ s.num_certs) × (s.crts_live ≡ true)

abbrev pub IsValid : Bundle → Type 0
IsValid s = IsIndexed s s.crts

-- What the loop has indexed, where the next record would stand in the bundle.
abbrev Indexed : List ℕ → ℕ → ℕ → Option (List ℕ × ℕ) → Type 0
Indexed bytes rounds cur_crt none = Unit {0}
Indexed bytes rounds cur_crt (some (crts, next)) =
    (length crts ≡ rounds) × (cur_crt ≤ next) × (next ≤ length bytes → AllInside bytes crts)

Indexed-cons :
    (bytes : List ℕ) (rounds cur_crt : ℕ) (short : Bool) (rest : Option (List ℕ × ℕ))
    → Indexed bytes rounds (record_end bytes cur_crt) rest
    → Indexed bytes
        (suc rounds)
        cur_crt
        (if short then none else rest >>=? (λ indexed. some (cur_crt ∷ indexed.0, indexed.1)))
Indexed-cons bytes rounds cur_crt true rest h = tt
Indexed-cons bytes rounds cur_crt false none h = tt
Indexed-cons bytes rounds cur_crt false (some (crts, next)) h =
    (ap suc h.0, omega arith, λ le. (omega arith, h.2 le))

index_crts-Indexed :
    (bytes : List ℕ) (rounds cur_crt : ℕ)
    → Indexed bytes rounds cur_crt (index_crts bytes rounds cur_crt)
unfolding index_crts
index_crts-Indexed bytes zero cur_crt = (refl, omega arith, λ _. tt)
index_crts-Indexed bytes (suc rounds) cur_crt =
    Indexed-cons bytes rounds cur_crt (ltb (length bytes) (cur_crt + 4)) _
      (index_crts-Indexed bytes rounds (record_end bytes cur_crt))

-- What an accepted bundle leaves in the state.
record Accepted (bytes : List ℕ) (num_certs : ℕ) (s : Bundle) : Type 0 where
  pub indexed : IsValid s
  pub holds : s.bytes ≡ bytes
  pub counted : s.num_certs ≡ num_certs
  pub enabled : s.should_verify_certs ≡ true

install-Accepted :
    (s : Bundle) (num_certs cur_crt : ℕ) (index : Option (List ℕ × ℕ)) (s' : Bundle)
    → Indexed s.bytes num_certs cur_crt index
    → install s num_certs index ≡ returned s'
    → Accepted s.bytes num_certs s'
unfolding install
install-Accepted s num_certs cur_crt none s' h e = absurd (cc)
install-Accepted s num_certs cur_crt (some (crts, next)) s' h e =
    elim (Bool-cases (ltb (length s.bytes) next)) [
      | inl beyond ↦ absurd (let e' = rw beyond at e in cc)
      | inr within ↦
          let accepted : Bundle = record s {
            crts = some crts;
            crts_live = true;
            num_certs = num_certs;
            should_verify_certs = true;
          } in
          let same : returned accepted ≡ returned s' = rw within at e in
          let kept : accepted ≡ s' = cc in
          subst (Accepted s.bytes num_certs) kept (record {
            indexed = (h.2 (ground arith), h.0, refl);
            holds = refl;
            counted = refl;
            enabled = refl;
          })
    ]

module _ (calloc moves : ℕ → Bool) (s : Bundle) (x509_bundle : List ℕ) where
  -- Whatever `init` is given, a bundle that it accepts holds a valid index of the new bytes, with the
  -- count that they name, and verification is on.
  pub init-IsValid :
      {s' : Bundle}
      → init calloc moves s x509_bundle ≡ returned s'
      → IsValid s'
        × (s'.bytes ≡ x509_bundle)
        × (s'.num_certs ≡ word x509_bundle 0)
        × (s'.should_verify_certs ≡ true)
  unfolding init
  init-IsValid {s'} e = elim (Bool-cases (ltb (length x509_bundle) 6)) [
    | inl short ↦ absurd (let e' = rw short at e in cc)
    | inr long ↦ elim (Bool-cases (calloc (word x509_bundle 0))) [
      | inl had ↦
          let a =
            install-Accepted
              (record s {
                bytes = x509_bundle;
                crts_live = s.crts_live && not (moves (length x509_bundle));
              })
              (word x509_bundle 0) 2 _ s' (index_crts-Indexed x509_bundle (word x509_bundle 0) 2)
              (rw (long, had) at e) in
          (a.indexed, a.holds, a.counted, a.enabled)
      | inr refused ↦ absurd (let e' = rw (long, refused) at e in cc)
    ]
  ]

  -- Where the bytes of a refused bundle come to stand: a bundle too short to have a header, and one for
  -- whose pointers there is no memory, leave all as it was. Any other replaces the bytes that the old index
  -- points into, while that index and the count stay; and where `bundleBytes` has to move for it, the old
  -- index is left dangling.
  pub init-threw :
      {why : Error} {s' : Bundle}
      → init calloc moves s x509_bundle ≡ threw why s'
      → let replaced = leb 6 (length x509_bundle) && calloc (word x509_bundle 0) in
        (s'.crts ≡ s.crts)
        × (s'.num_certs ≡ s.num_certs)
        × (s'.should_verify_certs ≡ s.should_verify_certs)
        × (s'.bytes ≡ (if replaced then x509_bundle else s.bytes))
        × (s'.crts_live
            ≡ (if replaced then s.crts_live && not (moves (length x509_bundle)) else s.crts_live))
  unfolding init install
  init-threw e = grind arith
