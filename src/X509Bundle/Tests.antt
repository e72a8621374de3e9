-- ===== src/X509Bundle/Tests.antt =====
-- A bundle of two certificates, under a signature that is the key itself.
use Prim.Native.Nat.{Ordering, compare}
use mathlib.Core.Path.{subst}
use bell.Prelude.{
  ℕ, ◌≡◌, refl, true, false, List, [], ◌∷◌, Option, none, some, arith, ◌==◌, if◌then◌else◌, get_or,
  length, leb, ◌&&◌,
}
use bell.X509Bundle.{
  Bundle, returned, threw, word, init, Crt, Mbedtls, crt_verify_callback, invalid_bundle, conclude,
  order, index_crts, install, crt_check_certificate, bytes_at, compare_name, key_of, check_found,
}
use bell.X509Bundle.Search.{find_crt, find_crt-Ends, Ends}
use bell.X509Bundle.Generated.{Root, bundle_of, loaded}
use bell.X509Bundle.Inside.{init-IsValid, init-threw, IsValid}
use bell.X509Bundle.Safety.{verify_callback_sound, Justified, AllReadable}
use bell.X509Bundle.Lookup.{verify_callback-init, verdict, trusted_key, IsSorted}

abbrev keyed : Mbedtls
keyed = record {
  Pk = List ℕ;
  parse_public_key = λ key. (0, key);
  can_do = λ pk sig_pk. true;
  md = λ sig_md tbs. (0, tbs);
  md_get_size = λ sig_md. 32;
  verify_ext =
      λ sig_pk sig_opts pk sig_md hash size sig. if get_or pk 0 0 == get_or sig 0 0 then 0 else 1;
  badcert_bad_md = 0x4000;
  badcert_not_trusted = 8;
  fatal_error = 0x3000;
}

abbrev roots : List Root
roots = record { name = 65 ∷ []; key = 7 ∷ [] } ∷ record { name = 66 ∷ 67 ∷ []; key = 9 ∷ [] } ∷ []

abbrev child : Crt
child = record {
  issuer_raw = 66 ∷ 67 ∷ 68 ∷ [];
  tbs = 1 ∷ [];
  sig = 9 ∷ [];
  sig_pk = 1;
  sig_opts = 0;
  sig_md = 6;
}

abbrev empty : Bundle
empty = record {
  bytes = [];
  crts = none;
  crts_live = false;
  num_certs = 0;
  should_verify_certs = false;
}

two_loaded : init (λ n. true) (λ n. true) empty (bundle_of roots) ≡ returned (loaded roots)
unfolding init install index_crts word
two_loaded = refl

child_vouched : crt_verify_callback keyed (loaded roots) child 8 ≡ some (0, 0)
unfolding crt_verify_callback find_crt compare_name key_of check_found bytes_at order word conclude
    crt_check_certificate
child_vouched = refl

roots-IsSorted : IsSorted roots
unfolding order
roots-IsSorted = ((refl, tt), (tt, tt))

verify_callback-init_example :
    (s' : Bundle) × (init (λ n. true) (λ n. true) empty (bundle_of roots) ≡ returned s')
    × (crt_verify_callback keyed s' child 8
        ≡ some (verdict keyed child 8 (trusted_key (66 ∷ 67 ∷ 68 ∷ []) roots)))
verify_callback-init_example =
    verify_callback-init keyed child 8 (λ n. true) (λ n. true) empty roots refl (omega arith)
      (omega arith) (omega arith) roots-IsSorted (omega arith)

loaded-IsValid : IsValid (loaded roots)
unfolding word
loaded-IsValid = ((omega arith, (omega arith, tt)), refl, refl)

loaded_readable :
    (crts : List ℕ)
    → (loaded roots).crts ≡ some crts
    → AllReadable child.issuer_raw (loaded roots).bytes crts
unfolding word
loaded_readable crts e =
    let same : 2 ∷ 8 ∷ [] ≡ crts = cc in
    subst (AllReadable child.issuer_raw (loaded roots).bytes) same (omega arith, (omega arith, tt))

verify_callback_sound_example :
    Justified keyed
      (loaded roots)
      child
      8
      (some (2 ∷ 8 ∷ []))
      (crt_verify_callback keyed (loaded roots) child 8)
verify_callback_sound_example =
    verify_callback_sound keyed (loaded roots) child 8 (omega arith) (omega arith) loaded-IsValid
      loaded_readable

init-IsValid_example :
    IsValid (loaded roots)
    × ((loaded roots).bytes ≡ bundle_of roots)
    × ((loaded roots).num_certs ≡ word (bundle_of roots) 0)
    × ((loaded roots).should_verify_certs ≡ true)
init-IsValid_example = init-IsValid (λ n. true) (λ n. true) empty (bundle_of roots) two_loaded

-- The one record that it names is longer than the bundle.
abbrev cut_off : List ℕ
cut_off = 0 ∷ 1 ∷ 0 ∷ 9 ∷ 0 ∷ 9 ∷ []

cut_off_refused :
    init (λ n. true) (λ n. true) (loaded roots) cut_off
    ≡ threw invalid_bundle (record (loaded roots) { bytes = cut_off; crts_live = false })
unfolding init install index_crts word
cut_off_refused = refl

init-threw_example :
    ((record (loaded roots) { bytes = cut_off; crts_live = false }).crts ≡ (loaded roots).crts)
    × ((record (loaded roots) { bytes = cut_off; crts_live = false }).num_certs
        ≡ (loaded roots).num_certs)
    × ((record (loaded roots) { bytes = cut_off; crts_live = false }).should_verify_certs ≡ true)
    × (cut_off ≡ (if leb 6 (length cut_off) && true then cut_off else (loaded roots).bytes))
    × (false ≡ (if leb 6 (length cut_off) && true then false else true))
init-threw_example = init-threw (λ n. true) (λ n. true) (loaded roots) cut_off cut_off_refused

-- The comparisons of the number 5 with 1, 3, 5 and 9
abbrev numbers : ℕ → Option Ordering
numbers i = some (compare 5 (get_or (1 ∷ 3 ∷ 5 ∷ 9 ∷ []) i 99))

find_crt-Ends_example : Ends numbers 4 (find_crt numbers 4 0 4)
find_crt-Ends_example =
    find_crt-Ends numbers 4 3 0 4 (λ i lt. (_, refl)) (omega arith) (omega arith)

-- After that the old index dangles, and a lookup reads what has been freed.
reads_freed :
    crt_verify_callback keyed (record (loaded roots) { bytes = cut_off; crts_live = false }) child 8
    ≡ none
unfolding crt_verify_callback find_crt compare_name key_of check_found bytes_at order word conclude
    crt_check_certificate
reads_freed = refl
