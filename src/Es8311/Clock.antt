-- ===== src/Es8311/Clock.antt =====
-- The clock of the ES8311: the search of the table, and the registers that hold a row.
use bell.Prelude.{
  ℕ, zero, suc, Bool-cases, ◌+◌, ◌-◌, ◌*◌, ◌/◌, ◌%◌, ◌≤◌, ◌<◌, ◌≡◌, ◌≢◌, refl, Bool, true, ◌&&◌,
  List, [], ◌∷◌, none, some, arith, get_elem?, ◌==◌, ltb, leb, ◌||◌, Option-cases, inl, inr,
}
use bell.I2c.{I2c}
use bell.I2c.Chip.{Chip}
use bell.Es8311.Table.{CoeffDiv, coeff_div, get_coeff, get_coeff_from}
use bell.Es8311.{program_clock, pcm_hw_params, premulti_code, bclk_code}
use bell.Es8311.Fields.{divider_byte, dividers_byte, mode_byte, keep_high, keep_none_byte}
use bell.Es8311.Registers.{reg-modify}

-- A row of the table, at index `k`, for the two frequencies.
abbrev pub RowAt : List CoeffDiv → ℕ → ℕ → ℕ → Type 0
RowAt cs k mclk rate =
    (c : CoeffDiv) × (get_elem? cs k ≡ some c) × (c.mclk ≡ mclk) × (c.rate ≡ rate)

from_sound :
    (cs : List CoeffDiv) (i mclk rate k : ℕ)
    → get_coeff_from cs i mclk rate ≡ some k
    → (j : ℕ) × (k ≡ i + j) × RowAt cs j mclk rate
unfolding get_coeff_from
from_sound [] i mclk rate k h = cc
from_sound (c ∷ cs) i mclk rate k h = elim (Bool-cases (c.rate == rate && c.mclk == mclk)) [
  | inl hit ↦ (0, ground arith, (c, refl, ground arith, ground arith))
  | inr miss ↦
      let (j, e, row) = from_sound cs (i + 1) mclk rate k (rw miss at h) in
      (suc j, omega arith, row)
]

-- An index that the search returns is that of a row with the two frequencies.
pub get_coeff_sound : (mclk rate k : ℕ) → get_coeff mclk rate ≡ some k → RowAt coeff_div k mclk rate
unfolding get_coeff
get_coeff_sound mclk rate k h =
    let (j, e, row) = from_sound coeff_div 0 mclk rate k h in
    let e' : k ≡ j = omega arith in rw e' row

from_complete :
    (cs : List CoeffDiv) (i mclk rate j : ℕ)
    → RowAt cs j mclk rate
    → get_coeff_from cs i mclk rate ≢ none
unfolding get_coeff_from
from_complete [] i mclk rate j (c, at, m, r) h = cc
from_complete (c ∷ cs) i mclk rate zero (d, at, m, r) h = ground arith
from_complete (c ∷ cs) i mclk rate (suc j) row h =
    ground (arith, from_complete cs (i + 1) mclk rate j row)

-- The search fails only if no row has the two frequencies.
pub get_coeff_complete :
    (mclk rate j : ℕ) → RowAt coeff_div j mclk rate → get_coeff mclk rate ≢ none
unfolding get_coeff
get_coeff_complete mclk rate j row = from_complete coeff_div 0 mclk rate j row

-- Each value of a row fits the field of the register that takes it.
pub record Fits (c : CoeffDiv) : Type 0 where
  pub prediv : (1 ≤ c.prediv) × (c.prediv ≤ 8)
  pub premulti : premulti_code c.premulti < 4
  pub adcdiv : (1 ≤ c.adcdiv) × (c.adcdiv ≤ 16)
  pub dacdiv : (1 ≤ c.dacdiv) × (c.dacdiv ≤ 16)
  pub fsmode : c.fsmode < 2
  pub lrck_h : c.lrck_h < 64
  pub lrck_l : c.lrck_l < 256
  pub bclkdiv : bclk_code c.bclkdiv < 32
  pub adcosr : c.adcosr < 64
  pub dacosr : c.dacosr < 128

-- The sample rate that a row's dividers give is the row's rate.
abbrev pub Divides : CoeffDiv → Type 0
Divides c = c.mclk * c.premulti ≡ c.rate * c.prediv * (c.lrck_h * 256 + c.lrck_l + 1)

-- The registers hold the row: each value stands in its field, the bits beside it are kept, and so is
-- every register past the eighth.
pub record Programmed (c : CoeffDiv) (before after : ℕ → ℕ) : Type 0 where
  pub dividers : after 2 ≡ (c.prediv - 1) * 32 + premulti_code c.premulti * 8 + before 2 % 8
  pub dac_adc : after 5 ≡ (c.adcdiv - 1) * 16 + (c.dacdiv - 1)
  pub mode : after 3 ≡ before 3 / 128 * 128 + c.fsmode * 64 + c.adcosr
  pub dac_rate : after 4 ≡ before 4 / 128 * 128 + c.dacosr
  pub lrck_high : after 7 ≡ before 7 / 64 * 64 + c.lrck_h
  pub lrck_low : after 8 ≡ c.lrck_l
  pub bclk : after 6 ≡ before 6 / 32 * 32 + bclk_code c.bclkdiv
  pub others : (q : ℕ) → after (9 + q) ≡ before (9 + q)

module _ (i : I2c) (chip : Chip i 0 0x32 0x33) (c : CoeffDiv) (fits : Fits c) (b : i.Bus) where
  open chip use {reg}

  abbrev after : i.Bus
  after = (program_clock i c b).1

  program_clock-Programmed : Programmed c (reg b) (reg after)
  unfolding program_clock
  program_clock-Programmed = record {
    dividers = simp (reg-modify i chip) (
        divider_byte (reg b 2) c.prediv (premulti_code c.premulti) (chip.byte_wide b 2)
          fits.prediv.0 fits.prediv.1 fits.premulti);
    dac_adc = simp (reg-modify i chip) (
        dividers_byte (reg b 5) c.adcdiv c.dacdiv (chip.byte_wide b 5) fits.adcdiv.0 fits.adcdiv.1
          fits.dacdiv.0 fits.dacdiv.1);
    mode =
        simp (reg-modify i chip)
          (mode_byte (reg b 3) c.fsmode c.adcosr (chip.byte_wide b 3) fits.fsmode fits.adcosr);
    dac_rate = simp (reg-modify i chip) (
        keep_high 7 (reg b 4) c.dacosr (omega arith) (chip.byte_wide b 4)
          (omega (arith, chip.byte_wide b 4)) (omega (arith, fits.dacosr))
          (omega (arith, chip.byte_wide b 4, fits.dacosr)));
    lrck_high = simp (reg-modify i chip) (
        keep_high 6 (reg b 7) c.lrck_h (omega arith) (chip.byte_wide b 7)
          (omega (arith, chip.byte_wide b 7)) (omega (arith, fits.lrck_h))
          (omega (arith, chip.byte_wide b 7, fits.lrck_h)));
    lrck_low =
        simp (reg-modify i chip)
          (keep_none_byte (reg b 8) c.lrck_l (chip.byte_wide b 8) fits.lrck_l);
    bclk = simp (reg-modify i chip) (
        keep_high 5 (reg b 6) (bclk_code c.bclkdiv) (omega arith) (chip.byte_wide b 6)
          (omega (arith, chip.byte_wide b 6)) (omega (arith, fits.bclkdiv))
          (omega (arith, chip.byte_wide b 6, fits.bclkdiv)));
    others = λ q. simp (reg-modify i chip) (ground arith);
  }

all_rows : (CoeffDiv → Bool) → List CoeffDiv → Bool
all_rows p [] = true
all_rows p (c ∷ cs) = p c && all_rows p cs

all_rows_sound :
    (p : CoeffDiv → Bool) (cs : List CoeffDiv) (k : ℕ) {c : CoeffDiv}
    → all_rows p cs ≡ true
    → get_elem? cs k ≡ some c
    → p c ≡ true
unfolding all_rows
all_rows_sound p [] k h e = cc
all_rows_sound p (d ∷ cs) zero h e = ground arith
all_rows_sound p (d ∷ cs) (suc k) h e = all_rows_sound p cs k (ground arith) e

between : ℕ → ℕ → ℕ → Bool
between lo hi n = leb lo n && leb n hi

fits : CoeffDiv → Bool
unfolding between premulti_code bclk_code
fits c =
    between 1 8 c.prediv
    && (ltb (premulti_code c.premulti) 4
        && (between 1 16 c.adcdiv
            && (between 1 16 c.dacdiv
                && (ltb c.fsmode 2
                    && (ltb c.lrck_h 64
                        && (ltb c.lrck_l 256
                            && (ltb (bclk_code c.bclkdiv) 32
                                && (ltb c.adcosr 64 && ltb c.dacosr 128))))))))

fits-coeff_div : all_rows fits coeff_div ≡ true
unfolding all_rows fits coeff_div
fits-coeff_div = refl

fits-Fits : (c : CoeffDiv) → fits c ≡ true → Fits c
unfolding fits
fits-Fits c h = ground arith

-- One row is out of line: 3072000 Hz divided for 8000 Hz gives 12000 Hz.
abbrev pub OddOne : ℕ → ℕ → Type 0
OddOne mclk rate = (mclk ≡ 3072000) × (rate ≡ 8000)

divides : CoeffDiv → Bool
divides c =
    (c.mclk == 3072000 && c.rate == 8000)
    || (c.mclk * c.premulti == c.rate * c.prediv * (c.lrck_h * 256 + c.lrck_l + 1))

divides-coeff_div : all_rows divides coeff_div ≡ true
unfolding all_rows divides coeff_div
divides-coeff_div = refl

divides-Divides : (c : CoeffDiv) → divides c ≡ true → ¬ OddOne c.mclk c.rate → Divides c
unfolding divides
divides-Divides c h n = elim (Bool-cases (c.mclk == 3072000 && c.rate == 8000)) [
  | inl odd ↦ absurd (n (ground arith, ground arith))
  | inr even ↦ ground arith
]

-- For every pair of frequencies that the table has, `es8311_pcm_hw_params` leaves the registers of a
-- working codec holding a row of the table for that pair.
pub pcm_hw_params_found :
    (i : I2c) (chip : Chip i 0 0x32 0x33) (mclk rate j : ℕ) (b : i.Bus)
    → RowAt coeff_div j mclk rate
    → (k : ℕ) × (c : CoeffDiv) × (get_elem? coeff_div k ≡ some c)
      × (c.mclk ≡ mclk)
      × (c.rate ≡ rate)
      × Programmed c (chip.reg b) (chip.reg (pcm_hw_params i mclk rate b).1)
unfolding pcm_hw_params
pcm_hw_params_found i chip mclk rate j b row = elim (Option-cases (get_coeff mclk rate)) [
  | inl missed ↦ absurd (get_coeff_complete mclk rate j row missed)
  | inr (k, found) ↦
      let (c, at, m, r) = get_coeff_sound mclk rate k found in
      (
        k,
        c,
        at,
        m,
        r,
        rw (found, at)
            (program_clock-Programmed i chip c
              (fits-Fits c (all_rows_sound fits coeff_div k fits-coeff_div at)) b),
      )
]

-- The dividers of every row of the table give exactly its rate, but for the row of 3072000 and 8000 Hz.
pub coeff_div-Divides :
    (k : ℕ) (c : CoeffDiv) → get_elem? coeff_div k ≡ some c → ¬ OddOne c.mclk c.rate → Divides c
coeff_div-Divides k c at =
    divides-Divides c (all_rows_sound divides coeff_div k divides-coeff_div at)

-- For a pair that the table lacks it does nothing.
pub pcm_hw_params_unknown :
    (i : I2c) (mclk rate : ℕ) (b : i.Bus)
    → ((j : ℕ) → ¬ (RowAt coeff_div j mclk rate))
    → (pcm_hw_params i mclk rate b).1 ≡ b
unfolding pcm_hw_params
pcm_hw_params_unknown i mclk rate b lacks = elim (Option-cases (get_coeff mclk rate)) [
  | inl missed ↦ rw missed
  | inr (k, found) ↦ absurd (lacks k (get_coeff_sound mclk rate k found))
]
