-- ===== src/BellTar/Fill.antt =====
-- The padding behind a file: what the writer puts, and that the reader passes over it.
use bell.Prelude.{
  Bool-cases, inl, inr, ℕ, zero, suc, ◌-◌, ◌%◌, ◌^◌, ◌≤◌, ◌<◌, ◌≡◌, refl, sym, ap, ◌∙◌, true, false,
  List, [], ◌∷◌, ◌++◌, arith, length, replicate, length-drop, length-append, length-replicate, ◌==◌,
  add_size,
}
use bell.Stream.{Stream}
use bell.Stream.Laws.{At, peek-At, peek-At_end, get-At}
use bell.BellTar.{fill, fill_from}
use bell.BellTar.Reader.{seek_from, seek_to_next_header}

-- How far a size is from the next multiple of 512.
abbrev pub gap : ℕ → ℕ
gap n = (512 - n % 512) % 512

fill_enough : (fuel n : ℕ) → n < 2 ^ 64 → gap n ≤ fuel → fill_from fuel n ≡ replicate (gap n) 0
unfolding fill_from
fill_enough zero n h le = let e : gap n ≡ 0 = omega arith in rw e refl
fill_enough (suc fuel) n h le = elim (Bool-cases (n % 512 == 0)) [
  | inl whole ↦ let e : gap n ≡ 0 = ground arith in rw (whole, e) refl
  | inr part ↦
      let e : gap n ≡ suc (gap (add_size n 1)) = ground arith in
      rw part (
        ap (◌∷◌ 0) (fill_enough fuel (add_size n 1) (omega arith) (omega arith))
        ∙ ap (λ k. replicate {A = ℕ} k 0) (sym e))
]

-- `_fill` rounds a size below 2^64 up to the next multiple of 512 with NULs, and its loop ends within 512 steps.
pub fill_lem : (n : ℕ) → n < 2 ^ 64 → fill n ≡ replicate ((512 - n % 512) % 512) 0
unfolding fill
fill_lem n h = fill_enough 512 n h (omega arith)

-- What may follow the padding: nothing, or a byte other than NUL.
pub data Begins : List ℕ → Type 0 where
  nothing : Begins []
  byte : (c : ℕ) (cs : List ℕ) → Begins (suc c ∷ cs)

-- The stream stands at what follows, or has met its end.
pub data Settled (s : Stream) : List ℕ → Type 0 where
  ended : s.eof ≡ true → s.failed ≡ false → Settled s []
  standing : (c : ℕ) (cs : List ℕ) → At s (suc c ∷ cs) → Settled s (suc c ∷ cs)

seek_from-At :
    (fuel k : ℕ) {s : Stream} {rest : List ℕ}
    → Begins rest
    → k < fuel
    → At s (replicate k 0 ++ rest)
    → Settled (seek_from fuel s) rest
unfolding seek_from
seek_from-At zero k b lt at = absurd (omega arith)
seek_from-At (suc fuel) zero nothing lt at = rw (peek-At_end at) (ended refl at.no_fail)
seek_from-At (suc fuel) zero (byte c cs) lt at =
    let other : suc c == 0 ≡ false = ground arith in rw (peek-At at, other) (standing c cs at)
seek_from-At (suc fuel) (suc k) b lt at =
    rw (peek-At at) (seek_from-At fuel k b (omega arith) (get-At at))

pub seek_to_next_header-At :
    (k : ℕ) {s : Stream} {rest : List ℕ}
    → Begins rest
    → At s (replicate k 0 ++ rest)
    → Settled (seek_to_next_header s) rest
unfolding seek_to_next_header
seek_to_next_header-At k {s} {rest} b at =
    seek_from-At (suc (length s.bytes)) k b
      (omega (
        arith,
        ap length at.coming,
        length-append (replicate k 0) rest,
        length-replicate {A = ℕ} k 0,
        length-drop s.pos s.bytes,
      ))
      at
