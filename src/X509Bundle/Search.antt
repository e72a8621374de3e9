-- ===== src/X509Bundle/Search.antt =====
-- The binary search of `crtVerifyCallback` in main/io/X509Bundle.cpp, over the comparison in its body.
use Prim.Native.Nat.{Ordering}
use mathlib.Core.Path.{subst}
use native.Mathlib.Decide.{dec_lt}
use native.Mathlib.Nat.{pow-suc}
use bell.Prelude.{
  ℕ, zero, suc, ◌+◌, ◌-◌, ◌/◌, ◌^◌, ◌≤◌, ◌<◌, ◌≡◌, ◌≢◌, refl, ap, ◌∙◌, sym, true, false, Option,
  none, some, ltb, arith,
}

-- How the search ends; `overread` is a comparison that reads where it may not.
pub data Found : Type 0 where
  found : ℕ → Found
  missing : Found
  overread : Found
  unfinished : Found

module _ (probe : ℕ → Option Ordering) where
  -- The loop, on fuel. `stop` is `end + 1`: `end` may be -1, and then `middle` is 0 in C too, whose
  -- division rounds towards 0.
  unfoldable pub find_crt : ℕ → ℕ → ℕ → Found
  find_crt zero start stop = unfinished
  find_crt (suc fuel) start stop = elim (ltb start stop) [
    | false ↦ missing
    | true ↦ elim (probe ((start + stop - 1) / 2)) [
      | none ↦ overread
      | some Ordering.eq ↦ found ((start + stop - 1) / 2)
      | some Ordering.lt ↦ find_crt fuel start ((start + stop - 1) / 2)
      | some Ordering.gt ↦ find_crt fuel ((start + stop - 1) / 2 + 1) stop
    ]
  ]

  -- The search from the first record to the last that it stands for: the rounds left, and the index.
  unfoldable pub scan : ℕ → ℕ → Found
  scan zero i = missing
  scan (suc rounds) i = elim (probe i) [
    | none ↦ overread
    | some Ordering.eq ↦ found i
    | some Ordering.lt ↦ scan rounds (suc i)
    | some Ordering.gt ↦ scan rounds (suc i)
  ]

  -- The comparisons of one wanted name with the names of `n` records, which stand in order.
  pub record IsOrdered (n : ℕ) : Type 0 where
    pub total : (i : ℕ) → i < n → (o : Ordering) × (probe i ≡ some o)
    pub below_gt :
        (i j : ℕ) → i < j → j < n → probe j ≡ some Ordering.gt → probe i ≡ some Ordering.gt
    pub below_eq :
        (i j : ℕ) → i < j → j < n → probe j ≡ some Ordering.eq → probe i ≡ some Ordering.gt
    pub above_lt :
        (i j : ℕ) → i < j → j < n → probe i ≡ some Ordering.lt → probe j ≡ some Ordering.lt

  -- What each end of the search tells, at an index below `n`.
  abbrev pub Ends : ℕ → Found → Type 0
  Ends n (found middle) = (middle < n) × (probe middle ≡ some Ordering.eq)
  Ends n missing = Unit {0}
  Ends n overread = ⊥
  Ends n unfinished = ⊥

  -- One round of the loop.
  abbrev middle : ℕ → ℕ → ℕ
  middle start stop = (start + stop - 1) / 2

  module _ (fuel start stop : ℕ) where
    round_done : stop ≤ start → find_crt (suc fuel) start stop ≡ missing
    unfolding find_crt
    round_done h = ground arith

    round_eq :
        start < stop
        → probe (middle start stop) ≡ some Ordering.eq
        → find_crt (suc fuel) start stop ≡ found (middle start stop)
    unfolding find_crt
    round_eq h e = ground arith

    round_lt :
        start < stop
        → probe (middle start stop) ≡ some Ordering.lt
        → find_crt (suc fuel) start stop ≡ find_crt fuel start (middle start stop)
    unfolding find_crt
    round_lt h e = ground arith

    round_gt :
        start < stop
        → probe (middle start stop) ≡ some Ordering.gt
        → find_crt (suc fuel) start stop ≡ find_crt fuel (middle start stop + 1) stop
    unfolding find_crt
    round_gt h e = ground arith

  -- The three ways on from a comparison that reads what it may.
  data Way (i : ℕ) : Type 0 where
    goes_lt : probe i ≡ some Ordering.lt → Way i
    goes_eq : probe i ≡ some Ordering.eq → Way i
    goes_gt : probe i ≡ some Ordering.gt → Way i

  way : (i : ℕ) (o : Ordering) → probe i ≡ some o → Way i
  way i Ordering.lt e = goes_lt e
  way i Ordering.eq e = goes_eq e
  way i Ordering.gt e = goes_gt e

  -- A round on more than one record is left to the search of a half.
  Ends-round :
      (n k start stop : ℕ)
      → ((a b : ℕ) → b ≤ n → b - a < 2 ^ k → Ends n (find_crt (suc k) a b))
      → stop ≤ n
      → stop - start < 2 ^ suc k
      → start < stop
      → Way (middle start stop)
      → Ends n (find_crt (suc (suc k)) start stop)
  Ends-round n k start stop half le lt more (goes_eq e) =
      subst (Ends n) (sym (round_eq (suc k) start stop more e)) (omega arith, e)
  Ends-round n k start stop half le lt more (goes_lt e) =
      subst (Ends n) (sym (round_lt (suc k) start stop more e))
        (half start (middle start stop) (omega arith) (omega (arith, pow-suc 2 k)))
  Ends-round n k start stop half le lt more (goes_gt e) =
      subst (Ends n) (sym (round_gt (suc k) start stop more e))
        (half (middle start stop + 1) stop le (omega (arith, pow-suc 2 k)))

  -- Where each comparison reads what it may, a range of fewer than 2^k records is searched in k + 1
  -- rounds, by comparisons inside the range alone, and the record found compares equal.
  pub find_crt-Ends :
      (n k start stop : ℕ)
      → ((i : ℕ) → i < n → (o : Ordering) × (probe i ≡ some o))
      → stop ≤ n
      → stop - start < 2 ^ k
      → Ends n (find_crt (suc k) start stop)
  find_crt-Ends n zero start stop total le lt =
      subst (Ends n) (sym (round_done 0 start stop (omega arith))) tt
  find_crt-Ends n (suc k) start stop total le lt = elim (dec_lt start stop) [
    | no empty ↦ subst (Ends n) (sym (round_done (suc k) start stop (omega arith))) tt
    | yes more ↦
        let read = total (middle start stop) (omega arith) in
        Ends-round n k start stop (λ a b. find_crt-Ends n k a b total) le lt more
          (way (middle start stop) read.0 read.1)
  ]

  -- The straight search passes over what compares unequal, and stops at what compares equal.
  module _ (i : ℕ) where
    scan-lt : (rounds : ℕ) → probe i ≡ some Ordering.lt → scan (suc rounds) i ≡ scan rounds (suc i)
    unfolding scan
    scan-lt rounds e = ground arith

    scan-gt : (rounds : ℕ) → probe i ≡ some Ordering.gt → scan (suc rounds) i ≡ scan rounds (suc i)
    unfolding scan
    scan-gt rounds e = ground arith

    pub scan-eq : (rounds : ℕ) → probe i ≡ some Ordering.eq → scan (suc rounds) i ≡ found i
    unfolding scan
    scan-eq rounds e = ground arith

  pub scan-ne :
      (rounds i : ℕ) (o : Ordering)
      → probe i ≡ some o
      → o ≢ Ordering.eq
      → scan (suc rounds) i ≡ scan rounds (suc i)
  scan-ne rounds i Ordering.lt e ne = scan-lt i rounds e
  scan-ne rounds i Ordering.eq e ne = absurd (ne refl)
  scan-ne rounds i Ordering.gt e ne = scan-gt i rounds e

  scan-found :
      (rounds i m : ℕ)
      → i ≤ m
      → m < i + rounds
      → ((j : ℕ) → j < m → probe j ≡ some Ordering.gt)
      → probe m ≡ some Ordering.eq
      → scan rounds i ≡ found m
  scan-found zero i m le lt below here = absurd (omega arith)
  scan-found (suc rounds) i m le lt below here = elim (dec_lt i m) [
    | yes earlier ↦
        scan-gt i rounds (below i earlier)
        ∙ scan-found rounds (suc i) m earlier (omega arith) below here
    | no reached ↦
        let e : i ≡ m = omega arith in
        scan-eq i rounds (subst (λ j. probe j ≡ some Ordering.eq) (sym e) here) ∙ ap found e
  ]

  -- The first `start` names are below the wanted one, and the others above.
  scan-above :
      (rounds i n : ℕ)
      → i + rounds ≤ n
      → ((j : ℕ) → i ≤ j → j < n → probe j ≡ some Ordering.lt)
      → scan rounds i ≡ missing
  unfolding scan
  scan-above zero i n le above = refl
  scan-above (suc rounds) i n le above =
      scan-lt i rounds (above i (omega arith) (omega arith))
      ∙ scan-above rounds (suc i) n (omega arith) (λ j lo. above j (omega arith))

  scan-missing :
      (rounds i start n : ℕ)
      → i + rounds ≡ n
      → ((j : ℕ) → j < start → probe j ≡ some Ordering.gt)
      → ((j : ℕ) → start ≤ j → j < n → probe j ≡ some Ordering.lt)
      → scan rounds i ≡ missing
  unfolding scan
  scan-missing zero i start n e below above = refl
  scan-missing (suc rounds) i start n e below above = elim (dec_lt i start) [
    | yes lower ↦
        scan-gt i rounds (below i lower)
        ∙ scan-missing rounds (suc i) start n (omega arith) below above
    | no upper ↦ scan-above (suc rounds) i n (omega arith) (λ j lo. above j (omega arith))
  ]

  -- What the search has left behind on both sides.
  record Around (n start stop : ℕ) : Type 0 where
    pub below : (j : ℕ) → j < start → probe j ≡ some Ordering.gt
    pub above : (j : ℕ) → stop ≤ j → j < n → probe j ≡ some Ordering.lt
    pub within : stop ≤ n

  Around-lower :
      {n start stop : ℕ}
      → IsOrdered n
      → Around n start stop
      → (m : ℕ) → m < stop
      → probe m ≡ some Ordering.lt
      → Around n start m
  Around-lower {n} {start} {stop} o a m lt e = record {
    below = a.below;
    above = λ j lo hi. elim (dec_lt m j) [
      | yes after ↦ o.above_lt m j after hi e
      | no here ↦ subst (λ k. probe k ≡ some Ordering.lt) (omega arith) e
    ];
    within = omega (arith, a.within);
  }

  Around-upper :
      {n start stop : ℕ}
      → IsOrdered n
      → Around n start stop
      → (m : ℕ) → m < stop
      → probe m ≡ some Ordering.gt
      → Around n (m + 1) stop
  Around-upper {n} {start} {stop} o a m lt e = record {
    below = λ j hi. elim (dec_lt j m) [
      | yes before ↦ o.below_gt j m before (omega (arith, a.within)) e
      | no here ↦ subst (λ k. probe k ≡ some Ordering.gt) (omega arith) e
    ];
    above = a.above;
    within = a.within;
  }

  scan-round :
      (n k start stop : ℕ)
      → ((a b : ℕ) → Around n a b → b - a < 2 ^ k → find_crt (suc k) a b ≡ scan n 0)
      → IsOrdered n
      → Around n start stop
      → stop - start < 2 ^ suc k
      → start < stop
      → Way (middle start stop)
      → find_crt (suc (suc k)) start stop ≡ scan n 0
  scan-round n k start stop half o a lt more (goes_eq e) =
      round_eq (suc k) start stop more e
      ∙ sym (
          scan-found n 0 (middle start stop) (omega arith) (omega (arith, a.within))
            (λ j lo. o.below_eq j (middle start stop) lo (omega (arith, a.within)) e) e)
  scan-round n k start stop half o a lt more (goes_lt e) =
      round_lt (suc k) start stop more e
      ∙ half start (middle start stop) (Around-lower o a (middle start stop) (omega arith) e)
          (omega (arith, pow-suc 2 k))
  scan-round n k start stop half o a lt more (goes_gt e) =
      round_gt (suc k) start stop more e
      ∙ half (middle start stop + 1) stop (Around-upper o a (middle start stop) (omega arith) e)
          (omega (arith, pow-suc 2 k))

  scan-done :
      (n fuel start stop : ℕ)
      → Around n start stop
      → stop ≤ start
      → find_crt (suc fuel) start stop ≡ scan n 0
  scan-done n fuel start stop a empty =
      round_done fuel start stop empty
      ∙ sym (scan-missing n 0 start n (omega arith) a.below (λ j lo. a.above j (omega arith)))

  find_crt-Around :
      (n k start stop : ℕ)
      → IsOrdered n
      → Around n start stop
      → stop - start < 2 ^ k
      → find_crt (suc k) start stop ≡ scan n 0
  find_crt-Around n zero start stop o a lt = scan-done n 0 start stop a (omega arith)
  find_crt-Around n (suc k) start stop o a lt = elim (dec_lt start stop) [
    | no empty ↦ scan-done n (suc k) start stop a (omega arith)
    | yes more ↦
        let read = o.total (middle start stop) (omega (arith, a.within)) in
        scan-round n k start stop (λ b c around. find_crt-Around n k b c o around) o a lt more
          (way (middle start stop) read.0 read.1)
  ]

  -- Over names in order the binary search gives what the straight search gives.
  pub find_crt-scan : (n k : ℕ) → IsOrdered n → n < 2 ^ k → find_crt (suc k) 0 n ≡ scan n 0
  find_crt-scan n k o lt = find_crt-Around n k 0 n o around (omega arith)
    where
      around : Around n 0 n
      around = record {
        below = λ j lo. absurd (omega arith);
        above = λ j lo hi. absurd (omega arith);
        within = omega arith;
      }
