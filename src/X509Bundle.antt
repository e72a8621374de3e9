-- ===== src/X509Bundle.antt =====
-- main/io/X509Bundle.cpp: the bundle of trusted root certificates, and the callback that looks the issuer
-- of a certificate up in it. The pointers of `crts` are offsets into `bundleBytes`, and a flag tells whether
-- they still point there: `resize` may move the bytes, and then they dangle. An access outside the bytes
-- that may be read is a result of its own, `none`. What mbedtls does is the parameter `m`; an `int` that it
-- returns is its 32-bit pattern.
pub mod Search
pub mod Inside
pub mod Safety
pub mod Generated
pub mod Names
pub mod Lookup
mod Tests
use Prim.Native.Nat.{bit_or, bit_and, Ordering}
use bell.Prelude.{
  ℕ, zero, suc, ◌+◌, ◌-◌, ◌*◌, ◌^◌, Bool, true, false, List, [], ◌∷◌, Option, none, some, ◌>>=?◌,
  length, get_elem?, get_or, take, drop, ltb, leb, ◌==◌, ◌&&◌, not, if◌then◌else◌,
}
use bell.X509Bundle.Search.{Found, found, missing, overread, unfinished, find_crt}

abbrev pub crt_header_offset : ℕ
crt_header_offset = 4

abbrev pub bundle_header_offset : ℕ
bundle_header_offset = 2

-- `s_crt_bundle`, `bundleBytes` and `s_should_verify_certs`; `crts` is `none` where it is NULL. `crts_live`
-- tells whether the pointers of `crts` point into the storage that `bundleBytes` has now.
pub record Bundle : Type 0 where
  pub bytes : List ℕ
  pub crts : Option (List ℕ)
  pub crts_live : Bool
  pub num_certs : ℕ
  pub should_verify_certs : Bool

-- `p[0] << 8 | p[1]`
unfoldable pub word : List ℕ → ℕ → ℕ
word bytes at = bit_or (get_or bytes at 0 * 2 ^ 8) (get_or bytes (suc at) 0)

-- The loop of `init` with the rounds left: the offsets, and where the next record would stand.
unfoldable pub index_crts : List ℕ → ℕ → ℕ → Option (List ℕ × ℕ)
index_crts bytes zero cur_crt = some ([], cur_crt)
index_crts bytes (suc rounds) cur_crt =
    let rest =
      index_crts bytes rounds
        (cur_crt + crt_header_offset + word bytes cur_crt + word bytes (cur_crt + 2)) in
    if ltb (length bytes) (cur_crt + crt_header_offset)
    then none
    else rest >>=? (λ indexed. some (cur_crt ∷ indexed.0, indexed.1))

-- The two `runtime_error`s, told apart by their texts.
pub data Error : Type 0 where
  invalid_bundle : Error
  out_of_memory : Error

-- How `init` ends: it returns, or throws and leaves the state as it then is.
pub data Outcome : Type 0 where
  returned : Bundle → Outcome
  threw : Error → Bundle → Outcome

-- What is left of `init` once `bundleBytes` holds the new bytes.
unfoldable pub install : Bundle → ℕ → Option (List ℕ × ℕ) → Outcome
install s num_certs none = threw invalid_bundle s
install s num_certs (some (crts, cur_crt)) =
    if ltb (length s.bytes) cur_crt
    then threw invalid_bundle s
    else returned (record s {
      crts = some crts;
      crts_live = true;
      num_certs = num_certs;
      should_verify_certs = true;
    })

-- `init`. `calloc` tells whether an array of so many pointers can be had, and `moves` whether `resize` to
-- so many bytes gives `bundleBytes` other storage, and frees the old; that there is some is taken for granted.
unfoldable pub init : (ℕ → Bool) → (ℕ → Bool) → Bundle → List ℕ → Outcome
init calloc moves s x509_bundle =
    if ltb (length x509_bundle) (bundle_header_offset + crt_header_offset)
    then threw invalid_bundle s
    else if calloc (word x509_bundle 0)
    then install
        (record s {
          bytes = x509_bundle;
          crts_live = s.crts_live && not (moves (length x509_bundle));
        })
        (word x509_bundle 0) (index_crts x509_bundle (word x509_bundle 0) bundle_header_offset)
    else threw out_of_memory s

unfoldable pub should_verify : Bundle → Bool
should_verify s = s.should_verify_certs

-- The `n` bytes at an offset.
unfoldable pub bytes_at : List ℕ → ℕ → ℕ → Option (List ℕ)
bytes_at bytes at n = if leb (at + n) (length bytes) then some (take n (drop at bytes)) else none

-- What may be read through the pointers of `crts`.
abbrev pub reachable : Bundle → List ℕ
reachable s = if s.crts_live then s.bytes else []

-- The sign of what `memcmp` returns, over the shorter of the two.
unfoldable pub order : List ℕ → List ℕ → Ordering
order [] ys = Ordering.eq
order (x ∷ xs) [] = Ordering.eq
order (x ∷ xs) (y ∷ ys) =
    if x == y then order xs ys else if ltb x y then Ordering.lt else Ordering.gt

-- What the callback uses of an `mbedtls_x509_crt`. `issuer_raw` is what may be read from
-- `issuer_raw.p` on: the rest of the certificate follows there.
pub record Crt : Type 0 where
  pub issuer_raw : List ℕ
  pub tbs : List ℕ
  pub sig : List ℕ
  pub sig_pk : ℕ
  pub sig_opts : ℕ
  pub sig_md : ℕ

-- The calls of mbedtls and its constants. A call that can fail returns its code with its result.
pub record Mbedtls : Type 1 where
  pub Pk : Type 0
  pub parse_public_key : List ℕ → ℕ × Pk
  pub can_do : Pk → ℕ → Bool
  pub md : ℕ → List ℕ → ℕ × List ℕ
  pub md_get_size : ℕ → ℕ
  pub verify_ext : ℕ → ℕ → Pk → ℕ → List ℕ → ℕ → List ℕ → ℕ
  pub badcert_bad_md : ℕ
  pub badcert_not_trusted : ℕ
  pub fatal_error : ℕ

-- The comparison in the loop of the callback.
unfoldable pub compare_name : List ℕ → List ℕ → List ℕ → ℕ → Option Ordering
unfolding bytes_at
compare_name issuer bytes crts middle = get_elem? crts middle >>=? (λ at.
    bytes_at bytes at 2 >>=? (λ _. bytes_at issuer 0 (word bytes at) >>=? (λ wanted.
      bytes_at bytes (at + crt_header_offset) (word bytes at)
      >>=? (λ crt_name. some (order wanted crt_name)))))

-- The key of the record that the loop found.
unfoldable pub key_of : List ℕ → List ℕ → ℕ → Option (List ℕ)
unfolding bytes_at
key_of bytes crts middle = get_elem? crts middle >>=? (λ at.
    bytes_at bytes at crt_header_offset
    >>=? (λ _. bytes_at bytes (at + crt_header_offset + word bytes at) (word bytes (at + 2))))

module _ (m : Mbedtls) where
  open m use {
    parse_public_key, can_do, md, md_get_size, verify_ext, badcert_bad_md, badcert_not_trusted,
    fatal_error,
  }

  -- `crtCheckCertificate`; -1 is its 32-bit pattern.
  unfoldable pub crt_check_certificate : Crt → List ℕ → ℕ
  crt_check_certificate child pub_key =
      let (parsed, parent) = parse_public_key pub_key in
      let (hashed, hash) = md child.sig_md child.tbs in
      let verified =
        verify_ext child.sig_pk child.sig_opts parent child.sig_md hash (md_get_size child.sig_md)
          child.sig in
      if parsed == 0
      then if can_do parent child.sig_pk
        then if hashed == 0 then verified else hashed
        else 2 ^ 32 - 1
      else parsed

  -- The end of the callback: what it returns, and the flags.
  unfoldable pub conclude : ℕ → ℕ → ℕ × ℕ
  conclude ret flags = if ret == 0 then (0, 0) else (fatal_error, flags)

  -- The callback after the search.
  unfoldable pub check_found : Found → List ℕ → List ℕ → Crt → ℕ → Option (ℕ × ℕ)
  check_found (found middle) bytes crts child flags =
      key_of bytes crts middle >>=? (λ key. some (conclude (crt_check_certificate child key) flags))
  check_found missing bytes crts child flags = some (conclude fatal_error flags)
  check_found overread bytes crts child flags = none
  check_found unfinished bytes crts child flags = none

  -- `crtVerifyCallback`. The search is given 17 rounds.
  unfoldable pub crt_verify_callback : Bundle → Crt → ℕ → Option (ℕ × ℕ)
  unfolding check_found
  crt_verify_callback s child flags =
      if bit_and flags (2 ^ 32 - 1 - badcert_bad_md) == badcert_not_trusted
      then elim s.crts [
        | none ↦ some (fatal_error, flags)
        | some crts ↦
            check_found
              (find_crt (compare_name child.issuer_raw (reachable s) crts) 17 0 s.num_certs)
              (reachable s) crts child flags
      ]
      else some (0, flags)
