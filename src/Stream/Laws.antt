-- ===== src/Stream/Laws.antt =====
-- What the operations do to a good stream, by the bytes that are still to come.
use bell.Prelude.{
  ℕ, zero, suc, ◌+◌, ◌≡◌, refl, sym, ap, ◌∙◌, true, false, List, [], ◌∷◌, ◌++◌, none, some, arith,
  length, get_elem?, take, drop, take-length-append, drop-length-append, drop-all, ltb,
}
use bell.Stream.{Stream, good, spoiled, tell, peek, get, read, seek_by}

-- The stream is good, and these bytes are to come.
pub record At (s : Stream) (rest : List ℕ) : Type 0 where
  pub no_eof : s.eof ≡ false
  pub no_fail : s.failed ≡ false
  pub coming : drop s.pos s.bytes ≡ rest

pub tell-good : (s : Stream) → good s ≡ true → tell s ≡ (some s.pos, s)
unfolding tell
tell-good s e = rw e refl

pub tell-bad : (s : Stream) → good s ≡ false → tell s ≡ (none, spoiled s)
unfolding tell
tell-bad s e = rw e refl

drop-drop : (n m : ℕ) (xs : List ℕ) → drop m (drop n xs) ≡ drop (n + m) xs
drop-drop zero m xs = ap (λ k. drop k xs) (omega arith)
drop-drop (suc n) m [] =
    let e : suc (n + m) ≡ suc n + m = omega arith in
    drop-all m [] (omega arith) ∙ ap (λ k. drop {A = ℕ} k []) e
drop-drop (suc n) m (x ∷ xs) =
    let e : suc (n + m) ≡ suc n + m = omega arith in drop-drop n m xs ∙ ap (λ k. drop k (x ∷ xs)) e

get_elem-drop : (n : ℕ) (xs : List ℕ) → get_elem? xs n ≡ get_elem? (drop n xs) 0
get_elem-drop zero xs = refl
get_elem-drop (suc n) [] = refl
get_elem-drop (suc n) (x ∷ xs) = get_elem-drop n xs

module _ {s : Stream} where
  pub peek-At : {c : ℕ} {rest : List ℕ} → At s (c ∷ rest) → peek s ≡ (some c, s)
  unfolding peek
  peek-At at = rw (at.no_eof, at.no_fail, get_elem-drop, at.coming) refl

  pub peek-At_end : At s [] → peek s ≡ (none, record s { eof = true })
  unfolding peek
  peek-At_end at = rw (at.no_eof, at.no_fail, get_elem-drop, at.coming) refl

  later :
      (n : ℕ) {rest after : List ℕ}
      → At s rest
      → drop n rest ≡ after
      → drop (s.pos + n) s.bytes ≡ after
  later n at e = sym (drop-drop s.pos n s.bytes) ∙ ap (drop n) at.coming ∙ e

  pub get-At : {c : ℕ} {rest : List ℕ} → At s (c ∷ rest) → At (get s) rest
  unfolding get
  get-At at =
      rw (at.no_eof, at.no_fail, get_elem-drop, at.coming)
        record { no_eof = refl; no_fail = refl; coming = later 1 at refl }

  pub read-At :
      (xs rest : List ℕ)
      → At s (xs ++ rest)
      → ((read s (length xs)).0 ≡ xs) × At (read s (length xs)).1 rest
  unfolding read
  read-At xs rest at =
      let got : take (length xs) (drop s.pos s.bytes) ≡ xs =
        ap (take (length xs)) at.coming ∙ take-length-append xs rest in
      let enough : ltb (length xs) (length xs) ≡ false = ground arith in
      rw (at.no_eof, at.no_fail, got, enough)
        (
          refl,
          record {
            no_eof = refl;
            no_fail = refl;
            coming = later (length xs) at (drop-length-append xs rest);
          },
        )

  pub seek_by-At : (xs rest : List ℕ) → At s (xs ++ rest) → At (seek_by s (length xs)) rest
  unfolding seek_by
  seek_by-At xs rest at = rw at.no_fail record {
    no_eof = refl;
    no_fail = refl;
    coming = later (length xs) at (drop-length-append xs rest);
  }
