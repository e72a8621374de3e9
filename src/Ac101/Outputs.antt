-- ===== src/Ac101/Outputs.antt =====
-- The rate, the power states, the clock and the start-up of the AC101.
use Prim.Native.Nat.{bit_and, bit_or}
use mathlib.Core.Path.{subst, sym}
use bell.Prelude.{
  or_high, zero-bit_or, ◌≢◌, zero, suc, ℕ, ◌+◌, ◌*◌, ◌/◌, ◌%◌, ◌<◌, ◌≡◌, refl, ap, ◌∙◌, false,
  arith, with_field, set_field, ◌==◌, if◌then◌else◌, or_above, keep_below,
}
use bell.I2c.{I2c, pure}
use bell.Ac101.Registers.{
  Chip, reg-modify, reg-write_reg, read_reg-value, reg-read_reg, write_reg-ok,
}
use bell.Ac101.{
  standby, on, off, unknown, power, start_module, stop_pll, i2s_config_clock, rate_code, init,
  init_registers, reset_then, write_reg, read_reg, set_spk_volume, set_earph_volume,
}

one_or : (t : ℕ) → t < 2 → bit_or t 1 ≡ 1
one_or zero h = refl
one_or (suc zero) h = refl
one_or (suc (suc t)) h = omega arith

top_bit_on : (v : ℕ) → v < 0x10000 → bit_or v 0x8000 ≡ 0x8000 + v % 0x8000
top_bit_on v h =
    let top : v / 0x8000 < 2 = omega arith in
    or_above 15 v 1 ∙ ap (λ t. t * 0x8000 + v % 0x8000) (one_or (v / 0x8000) top)

top_bit_off : (v : ℕ) → v < 0x10000 → bit_and v 0x7fff ≡ v % 0x8000
top_bit_off v h = keep_below 15 v

not_zero : (n : ℕ) → n ≢ 0 → n == 0 ≡ false
not_zero n h = ground arith

module _ (i : I2c) (port : ℕ) (chip : Chip i port) (b : i.Bus) where
  open chip use {reg}

  start_dac :
      (q : ℕ)
      → reg (power i port on b).1 q ≡ (if q == 2 then 0x8000 + reg b 2 % 0x8000 else reg b q)
  unfolding power start_module
  start_dac q =
      reg-modify i port chip 2 _ b q refl
      ∙ ap (λ t. if q == 2 then t % 0x10000 else reg b q)
          (top_bit_on (reg b 2) (chip.word_wide b 2))
      ∙ ap (λ t. if q == 2 then t else reg b q) (omega arith)

  stopped : (q : ℕ) → reg (stop_pll i port b).1 q ≡ (if q == 2 then reg b 2 % 0x8000 else reg b q)
  unfolding stop_pll
  stopped q =
      reg-modify i port chip 2 _ b q refl
      ∙ ap (λ t. if q == 2 then t % 0x10000 else reg b q)
          (top_bit_off (reg b 2) (chip.word_wide b 2))
      ∙ ap (λ t. if q == 2 then t else reg b q) (omega arith)

  -- The power states act on the top bit of the second PLL register alone: on sets it, standby and off
  -- clear it, an unknown state changes nothing. The other bits and all other registers are kept.
  pub power-reg :
      (q : ℕ)
      → (reg (power i port on b).1 q ≡ (if q == 2 then 0x8000 + reg b 2 % 0x8000 else reg b q))
        × (reg (power i port standby b).1 q ≡ (if q == 2 then reg b 2 % 0x8000 else reg b q))
        × (reg (power i port off b).1 q ≡ (if q == 2 then reg b 2 % 0x8000 else reg b q))
        × (reg (power i port unknown b).1 q ≡ reg b q)
  unfolding power
  power-reg q = (start_dac q, stopped q, stopped q, refl)

  -- The dividers of the I2S clock go to bits 9 to 12 and 6 to 8; the rest of the register is kept.
  pub i2s_config_clock-reg :
      (bclk_div lclk_div : ℕ)
      → bclk_div < 16
      → lclk_div < 8
      → reg (i2s_config_clock i port bclk_div lclk_div b).1 0x10
        ≡ reg b 0x10 / 0x2000 * 0x2000 + bclk_div * 512 + lclk_div * 64 + reg b 0x10 % 64
  unfolding i2s_config_clock
  i2s_config_clock-reg bclk_div lclk_div hb hl =
      let v : ℕ = reg b 0x10 in
      let wide : v < 0x10000 = chip.word_wide b 0x10 in
      let w : ℕ = with_field 6 7 v (bclk_div * 8) in
      let eight : bclk_div * 512 ≡ bclk_div * 8 * 64 = omega arith in
      let above : w / 64 ≡ (v / 0x2000 * 16 + bclk_div) * 8 = omega arith in
      let joined : bit_or w (lclk_div * 64) ≡ w + lclk_div * 64 =
        or_above 6 w lclk_div
        ∙ ap (λ t. bit_or t lclk_div * 64 + w % 64) above
        ∙ ap (λ t. t * 64 + w % 64) (or_high 3 (v / 0x2000 * 16 + bclk_div) lclk_div hl)
        ∙ omega arith in
      reg-modify i port chip 0x10 _ b 0x10 refl
      ∙ ap (λ t. bit_or t (lclk_div * 64) % 0x10000)
          (ap (bit_or (bit_and v 0xe03f)) eight
            ∙ set_field 6 7 3 v (bclk_div * 8) (omega arith) (omega arith))
      ∙ ap (λ t. t % 0x10000) joined
      ∙ omega arith

-- The registers once the codec is started: the rate is 44100 Hz, the PLL is on, the speaker and the
-- earphone stand at volume 70 and are switched on.
pub record IsStarted (after : ℕ → ℕ) : Type 0 where
  pub pll1 : after 0x01 ≡ 0x014f
  pub pll2 : after 0x02 ≡ 0x8600
  pub sysclk : after 0x03 ≡ 0xaa08
  pub clocks : after 0x04 ≡ 0x800c
  pub resets : after 0x05 ≡ 0x800c
  pub rate : after 0x06 ≡ rate_code 44100
  pub lrclk : after 0x10 ≡ 0x8850
  pub dac_on : after 0x48 ≡ 0x8000
  pub mixer_on : after 0x53 ≡ 0xff00
  pub mixer_source : after 0x54 ≡ 0x050a
  pub headphone : after 0x56 ≡ 0xf801 / 1024 * 1024 + 70 * 63 / 255 * 16 + 1
  pub speaker : after 0x58 ≡ 0x0220 + 70 * 31 / 100

module _ (i : I2c) (port : ℕ) (chip : Chip i port) where
  open chip use {reg}

  init_registers-IsStarted : (b : i.Bus) → IsStarted (reg (init_registers i port b).1)
  unfolding init_registers set_spk_volume set_earph_volume rate_code
  init_registers-IsStarted b = record {
    pll1 = simp (reg-modify i port chip, reg-write_reg i port chip);
    pll2 = simp (reg-modify i port chip, reg-write_reg i port chip);
    sysclk = simp (reg-modify i port chip, reg-write_reg i port chip);
    clocks = simp (reg-modify i port chip, reg-write_reg i port chip);
    resets = simp (reg-modify i port chip, reg-write_reg i port chip);
    rate = simp (reg-modify i port chip, reg-write_reg i port chip);
    lrclk = simp (reg-modify i port chip, reg-write_reg i port chip);
    dac_on = simp (reg-modify i port chip, reg-write_reg i port chip);
    mixer_on = simp (reg-modify i port chip, reg-write_reg i port chip);
    mixer_source = simp (reg-modify i port chip, reg-write_reg i port chip);
    headphone = simp (reg-modify i port chip, reg-write_reg i port chip);
    speaker = simp (reg-modify i port chip, reg-write_reg i port chip);
  }

  -- A codec that does not answer, whose reset register reads 0, makes `init` return false, and then no
  -- register has changed.
  pub init_refused :
      (b : i.Bus) (i2s_code : ℕ)
      → reg b 0 ≡ 0
      → ((init i port i2s_code b).0 ≡ false)
        × ((q : ℕ) → reg (init i port i2s_code b).1 q ≡ reg b q)
  unfolding init
  init_refused b i2s_code h =
      let answer : init i port i2s_code b ≡ (false, (read_reg i port 0 b).1) =
        ap
          (λ r. (if r == 0 then pure false else reset_then i port i2s_code) (read_reg i port 0 b).1)
          (read_reg-value i port chip 0 b ∙ h) in
      (ap (λ x. x.0) answer, λ q. ap (λ x. reg x.1 q) answer ∙ reg-read_reg i port chip 0 b q)

  -- A codec that answers is started by `init`, and the result says whether the I2S calls succeeded.
  pub init-IsStarted :
      (b : i.Bus) (i2s_code : ℕ)
      → reg b 0 ≢ 0
      → ((init i port i2s_code b).0 ≡ (i2s_code == 0)) × IsStarted (reg (init i port i2s_code b).1)
  unfolding init reset_then
  init-IsStarted b i2s_code h =
      let some_value : (read_reg i port 0 b).0 == 0 ≡ false =
        ap (λ r. r == 0) (read_reg-value i port chip 0 b) ∙ not_zero (reg b 0) h in
      let asked : i.Bus = (read_reg i port 0 b).1 in
      let sent : i.Bus = (write_reg i port 0 0x123 asked).1 in
      let answer : init i port i2s_code b ≡ (
        bit_or (write_reg i port 0 0x123 asked).0 i2s_code == 0,
        (init_registers i port sent).1,
      ) =
        ap (λ t. (if t then pure false else reset_then i port i2s_code) asked) some_value in
      (
        ap (λ x. x.0) answer
            ∙ ap (λ c. bit_or c i2s_code == 0) (write_reg-ok i port chip 0 0x123 asked)
            ∙ ap (λ t. t == 0) (zero-bit_or i2s_code),
        subst (λ x. IsStarted (reg x.1)) (sym answer) (init_registers-IsStarted sent),
      )
