-- ===== src/X509Bundle/Lookup.antt =====
-- The callback of main/io/X509Bundle.cpp on a generated bundle: the list of its certificates decides.
use Prim.Native.Nat.{Ordering, bit_and}
use bell.Prelude.{
  ℕ, zero, suc, ◌+◌, ◌-◌, ◌^◌, ◌≤◌, ◌<◌, ◌≡◌, ◌≢◌, refl, ap, ◌∙◌, Bool, true, List, [], ◌∷◌, Option,
  none, some, length, get_elem?, if◌then◌else◌, arith, Bool-cases, ◌==◌, inl, inr, ◌↔◌, take,
}
use bell.X509Bundle.{
  Bundle, returned, init, bytes_at, order, Crt, Mbedtls, compare_name, key_of,
  crt_check_certificate, conclude, check_found, crt_verify_callback,
}
use bell.X509Bundle.Search.{find_crt, find_crt-scan, scan, scan-eq, scan-ne, IsOrdered}
use bell.X509Bundle.Generated.{
  Root, record_of, records_of, bundle_of, offsets, AllShort, Reads, Stands, Stands-left,
  Stands-right, Stands-Reads, two_bytes, whole, length-record_of, loaded, init-bundle_of,
}
use bell.X509Bundle.Names.{starts_with, order-take, order-starts_with, order-below, order-above}
use mathlib.Core.Path.{subst}

-- The names stand in increasing order, and none is the beginning of another.
abbrev pub AllAfter : Root → List Root → Type 0
AllAfter a [] = Unit {0}
AllAfter a (c ∷ cs) = (order a.name c.name ≡ Ordering.lt) × AllAfter a cs

abbrev pub IsSorted : List Root → Type 0
IsSorted [] = Unit {0}
IsSorted (c ∷ cs) = AllAfter c cs × IsSorted cs

-- No name is longer than what may be read of the issuer.
abbrev pub AllWithin : List ℕ → List Root → Type 0
AllWithin issuer [] = Unit {0}
AllWithin issuer (c ∷ cs) = (length c.name ≤ length issuer) × AllWithin issuer cs

-- The key of the first certificate with whose name the issuer's begins.
unfoldable pub trusted_key : List ℕ → List Root → Option (List ℕ)
trusted_key issuer [] = none
trusted_key issuer (c ∷ cs) =
    if starts_with issuer c.name then some c.key else trusted_key issuer cs

root_at : (cs : List Root) (i : ℕ) → i < length cs → (c : Root) × (get_elem? cs i ≡ some c)
root_at [] i lt = absurd (omega arith)
root_at (c ∷ cs) zero lt = (c, refl)
root_at (c ∷ cs) (suc i) lt = root_at cs i (omega arith)

AllAfter-at :
    (a b : Root) (cs : List Root) (j : ℕ)
    → AllAfter a cs
    → get_elem? cs j ≡ some b
    → order a.name b.name ≡ Ordering.lt
AllAfter-at a b [] j h e = absurd (cc)
AllAfter-at a b (c ∷ cs) zero h e =
    let same : c ≡ b = cc in subst (λ r. order a.name r.name ≡ Ordering.lt) same h.0
AllAfter-at a b (c ∷ cs) (suc j) h e = AllAfter-at a b cs j h.1 e

IsSorted-at :
    (a b : Root) (cs : List Root) (i j : ℕ)
    → i < j
    → IsSorted cs
    → get_elem? cs i ≡ some a
    → get_elem? cs j ≡ some b
    → order a.name b.name ≡ Ordering.lt
IsSorted-at a b [] i j lt h ea eb = absurd (cc)
IsSorted-at a b (c ∷ cs) i zero lt h ea eb = absurd (omega arith)
IsSorted-at a b (c ∷ cs) zero (suc j) lt h ea eb =
    let same : c ≡ a = cc in
    subst (λ r. order r.name b.name ≡ Ordering.lt) same (AllAfter-at c b cs j h.0 eb)
IsSorted-at a b (c ∷ cs) (suc i) (suc j) lt h ea eb = IsSorted-at a b cs i j (omega arith) h.1 ea eb

AllWithin-at :
    (issuer : List ℕ) (c : Root) (cs : List Root) (i : ℕ)
    → AllWithin issuer cs
    → get_elem? cs i ≡ some c
    → length c.name ≤ length issuer
AllWithin-at issuer c [] i h e = absurd (cc)
AllWithin-at issuer c (d ∷ cs) zero h e =
    let same : d ≡ c = cc in subst (λ r. length r.name ≤ length issuer) same h.0
AllWithin-at issuer c (d ∷ cs) (suc i) h e = AllWithin-at issuer c cs i h.1 e

-- The record of each certificate, where the index says.
offset_at :
    {bytes : List ℕ} (at : ℕ) (c : Root) (cs : List Root) (i : ℕ)
    → AllShort cs
    → Stands bytes at (records_of cs)
    → get_elem? cs i ≡ some c
    → (o : ℕ) × (get_elem? (offsets at cs) i ≡ some o) × Reads bytes o c
offset_at at c [] i short s e = absurd (cc)
offset_at {bytes} at c (d ∷ cs) zero short s e =
    let same : d ≡ c = cc in
    (
      at,
      refl,
      subst (Reads bytes at) same
          (Stands-Reads d short.0 short.1 (Stands-left (record_of d) (records_of cs) s)),
    )
offset_at {bytes} at c (d ∷ cs) (suc i) short s e =
    offset_at (at + 4 + length d.name + length d.key) c cs i short.2
      (subst (λ k. Stands bytes k (records_of cs)) (omega (arith, length-record_of d))
        (Stands-right (record_of d) (records_of cs) s))
      e

module _ (issuer : List ℕ) (cs : List Root) (short : AllShort cs)
    (within : AllWithin issuer cs) where
  abbrev probe : ℕ → Option Ordering
  probe = compare_name issuer (bundle_of cs) (offsets 2 cs)

  records : Stands (bundle_of cs) 2 (records_of cs)
  records = Stands-right (two_bytes (length cs)) (records_of cs) (whole cs)

  issuer-bytes_at : (n : ℕ) → n ≤ length issuer → bytes_at issuer 0 n ≡ some (take n issuer)
  unfolding bytes_at
  issuer-bytes_at n le = ground arith

  probe_lem :
      (i : ℕ) (c : Root)
      → get_elem? cs i ≡ some c
      → (compare_name issuer (bundle_of cs) (offsets 2 cs) i ≡ some (order issuer c.name))
        × (key_of (bundle_of cs) (offsets 2 cs) i ≡ some c.key)
  unfolding compare_name key_of
  probe_lem i c e =
      let at = offset_at 2 c cs i short records e in
      let r = at.2 in
      (
        simp (
          at.1,
          r.name_header,
          r.name_len,
          issuer-bytes_at (length c.name) (AllWithin-at issuer c cs i within e),
          r.name_bytes,
          order-take (length c.name) issuer c.name refl,
        ),
        simp (at.1, r.header, r.name_len, r.key_len, r.key_bytes),
      )

  order_at :
      (i : ℕ) (c : Root) (o : Ordering)
      → get_elem? cs i ≡ some c
      → probe i ≡ some o
      → order issuer c.name ≡ o
  order_at i c o e h = let known = (probe_lem i c e).0 in cc

  probe-IsOrdered : IsSorted cs → IsOrdered probe (length cs)
  probe-IsOrdered sorted = record {
    total = λ i lt. let c = root_at cs i lt in (order issuer c.0.name, (probe_lem i c.0 c.1).0);
    below_gt = λ i j lt hi e. lower i j lt hi (λ f. let g = reached j hi Ordering.gt e in cc);
    below_eq = λ i j lt hi e. lower i j lt hi (λ f. let g = reached j hi Ordering.eq e in cc);
    above_lt = λ i j lt hi e.
        let a = root_at cs i (omega arith) in
        let b = root_at cs j hi in
        (probe_lem j b.0 b.1).0
        ∙ ap some (
            order-above issuer a.0.name b.0.name (AllWithin-at issuer b.0 cs j within b.1)
              (IsSorted-at a.0 b.0 cs i j lt sorted a.1 b.1) (order_at i a.0 Ordering.lt a.1 e));
  }
    where
      reached :
          (j : ℕ) (hi : j < length cs) (o : Ordering)
          → probe j ≡ some o
          → order issuer (root_at cs j hi).0.name ≡ o
      reached j hi o e = order_at j (root_at cs j hi).0 o (root_at cs j hi).1 e

      lower :
          (i j : ℕ)
          → i < j
          → (hi : j < length cs) → order issuer (root_at cs j hi).0.name ≢ Ordering.lt
          → probe i ≡ some Ordering.gt
      lower i j lt hi ne =
          let a = root_at cs i (omega arith) in
          let b = root_at cs j hi in
          (probe_lem i a.0 a.1).0
          ∙ ap some (
              order-below issuer a.0.name b.0.name (AllWithin-at issuer a.0 cs i within a.1)
                (IsSorted-at a.0 b.0 cs i j lt sorted a.1 b.1) ne)

module _ (m : Mbedtls) (child : Crt) (flags : ℕ) where
  open m use {fatal_error, badcert_bad_md, badcert_not_trusted}

  -- What the callback is to return, and the flags that it is to leave, for the key that it has found.
  unfoldable pub verdict : Option (List ℕ) → ℕ × ℕ
  unfolding conclude
  verdict none = conclude m fatal_error flags
  verdict (some key) = conclude m (crt_check_certificate m child key) flags

  -- From the certificate at an index on.
  scan-trusted_key :
      (bytes crts : List ℕ) (probe : ℕ → Option Ordering) (i : ℕ) (cs : List Root)
      → AllWithin child.issuer_raw cs
      → ((j : ℕ) (c : Root)
          → get_elem? cs j ≡ some c
          → (probe (i + j) ≡ some (order child.issuer_raw c.name))
            × (key_of bytes crts (i + j) ≡ some c.key))
      → check_found m (scan probe (length cs) i) bytes crts child flags
        ≡ some (verdict (trusted_key child.issuer_raw cs))
  unfolding scan check_found trusted_key verdict
  scan-trusted_key bytes crts probe i [] within sees = refl
  scan-trusted_key bytes crts probe i (c ∷ cs) within sees =
      elim (Bool-cases (starts_with child.issuer_raw c.name)) [
        | inl named ↦
            rw (scan-eq probe i (length cs) (met ∙ ap some (reads.1 named)), here.1, named) refl
        | inr other ↦
            rw
              (
                other,
                scan-ne probe (length cs) i (order child.issuer_raw c.name) met
                    (λ e. let named = reads.0 e in cc),
              )
              (scan-trusted_key bytes crts probe (suc i) cs within.1 later)
      ]
    where
      reads :
          (order child.issuer_raw c.name ≡ Ordering.eq)
          ↔ (starts_with child.issuer_raw c.name ≡ true)
      reads = order-starts_with child.issuer_raw c.name within.0

      at : i + 0 ≡ i
      at = omega arith

      here : (probe i ≡ some (order child.issuer_raw c.name)) × (key_of bytes crts i ≡ some c.key)
      here = rw at at (sees 0 c refl)

      met : probe i ≡ some (order child.issuer_raw c.name)
      met = here.0

      later :
          (j : ℕ) (d : Root)
          → get_elem? cs j ≡ some d
          → (probe (suc i + j) ≡ some (order child.issuer_raw d.name))
            × (key_of bytes crts (suc i + j) ≡ some d.key)
      later j d e =
          subst
            (λ k.
              (probe k ≡ some (order child.issuer_raw d.name)) × (key_of bytes crts k ≡ some d.key))
            {x = i + suc j} (omega arith) (sees (suc j) d e)

  -- After `init` of a generated bundle of 1 to 65535 certificates, whose lengths fit and whose names stand in
  -- strictly increasing order, so that no two are alike and none is the beginning of another, the callback treats a certificate as its list says: where the only flag that counts is that the issuer
  -- is not trusted, the first certificate with whose name the issuer's begins decides by its key, and
  -- where there is none the verification fails; with any other flags the callback leaves them and
  -- returns 0. Of the issuer as many bytes may be read as the longest name has.
  pub verify_callback-init :
      (calloc moves : ℕ → Bool) (s : Bundle) (cs : List Root)
      → calloc (length cs) ≡ true
      → 0 < length cs
      → length cs < 2 ^ 16
      → AllShort cs
      → IsSorted cs
      → AllWithin child.issuer_raw cs
      → (s' : Bundle) × (init calloc moves s (bundle_of cs) ≡ returned s')
        × (crt_verify_callback m s' child flags
            ≡ some (
                if bit_and flags (2 ^ 32 - 1 - badcert_bad_md) == badcert_not_trusted
                then verdict (trusted_key child.issuer_raw cs)
                else (0, flags)))
  unfolding crt_verify_callback
  verify_callback-init calloc moves s cs had some_certs few short sorted within =
      (loaded cs, init-bundle_of calloc moves s cs had some_certs few short, answer)
    where
      issuer : List ℕ
      issuer = child.issuer_raw

      searched :
          find_crt (compare_name child.issuer_raw (bundle_of cs) (offsets 2 cs)) 17 0 (length cs)
          ≡ scan (compare_name child.issuer_raw (bundle_of cs) (offsets 2 cs)) (length cs) 0
      searched =
          find_crt-scan (compare_name child.issuer_raw (bundle_of cs) (offsets 2 cs)) (length cs) 16
            (probe-IsOrdered child.issuer_raw cs short within sorted) (omega arith)

      checked :
          check_found m
            (find_crt
              (compare_name child.issuer_raw (bundle_of cs) (offsets 2 cs))
              17
              0
              (length cs))
            (bundle_of cs)
            (offsets 2 cs)
            child
            flags
          ≡ some (verdict (trusted_key child.issuer_raw cs))
      checked =
          ap (λ f. check_found m f (bundle_of cs) (offsets 2 cs) child flags) searched
          ∙ scan-trusted_key (bundle_of cs) (offsets 2 cs) _ 0 cs within (λ j c e.
            subst
              (λ k.
                (compare_name child.issuer_raw (bundle_of cs) (offsets 2 cs) k
                  ≡ some (order child.issuer_raw c.name))
                × (key_of (bundle_of cs) (offsets 2 cs) k ≡ some c.key))
              {x = j} (omega arith) (probe_lem child.issuer_raw cs short within j c e))

      answer :
          crt_verify_callback m (loaded cs) child flags
          ≡ some (
              if bit_and flags (2 ^ 32 - 1 - badcert_bad_md) == badcert_not_trusted
              then verdict (trusted_key child.issuer_raw cs)
              else (0, flags))
      answer =
          elim (Bool-cases (bit_and flags (2 ^ 32 - 1 - badcert_bad_md) == badcert_not_trusted)) [
            | inl untrusted ↦ rw untrusted checked
            | inr trusted ↦ rw trusted refl
          ]
