-- ===== src/Es8311/Startup.antt =====
-- The registers of the ES8311 once `Es8311Init` is done.
use Prim.Native.Nat.{bit_and, bit_or}
use bell.Prelude.{ℕ, true, ◌+◌, ◌*◌, ◌/◌, ◌%◌, ◌≡◌, refl, ◌∙◌, arith, all_below, eq-all_below, ◌==◌}
use bell.I2c.{I2c}
use bell.I2c.Chip.{Chip}
use bell.Es8311.Fields.{keep_high, keep_none_byte}
use bell.Es8311.Registers.{reg-modify, reg-write_reg}
use bell.Es8311.Setup.{start_codec, codec_startup, init}
use bell.Es8311.Table.{get_coeff, coeff_div}
use bell.Es8311.{pcm_hw_params, program_clock, premulti_code, bclk_code}

-- The codec is a slave that takes its clock from the MCLK pin, divided for 44100 Hz out of 11289600
-- Hz; no clock is inverted, the analogue part has power, and the volume stands at 0xbf. The bits that
-- the driver does not own are those of before.
pub record IsStarted (b after : ℕ → ℕ) : Type 0 where
  pub reset : after 0x0 ≡ 0x80
  pub clock_source : after 0x1 ≡ 0x3f
  pub multiplier : after 0x2 ≡ 0x00
  pub adc_rate : after 0x3 ≡ 0x10
  pub dac_rate : after 0x4 ≡ 0x10
  pub dividers : after 0x5 ≡ 0x00
  pub bclk : after 0x6 ≡ b 6 / 64 * 64 + 3
  pub lrck_high : after 0x7 ≡ b 7 / 64 * 64
  pub lrck_low : after 0x8 ≡ 0xff
  pub power : after 0xd ≡ 0x01
  pub analog : after 0xe ≡ 0x02
  pub microphone : after 0x14 ≡ 0x1a
  pub volume : after 0x32 ≡ 0xbf
  pub mute : after 0x31 ≡ b 0x31

bclk_table :
    all_below 256
      (λ v. bit_and (bit_or (bit_and v 0xe0) 3 % 256) 0xffff_ffdf % 256 == v / 64 * 64 + 3)
    ≡ true
unfolding all_below
bclk_table = refl

module _ (i : I2c) (chip : Chip i 0 0x32 0x33) (b : i.Bus) where
  open chip use {reg}

  -- `Es8311Init` leaves a working codec started, whatever its registers held.
  pub start_codec-IsStarted : IsStarted (reg b) (reg (start_codec i b).1)
  unfolding start_codec codec_startup init pcm_hw_params program_clock premulti_code bclk_code
      get_coeff coeff_div
  start_codec-IsStarted = record {
    reset = simp (reg-modify i chip, reg-write_reg i chip);
    clock_source = simp (reg-modify i chip, reg-write_reg i chip);
    multiplier = simp (reg-modify i chip, reg-write_reg i chip);
    adc_rate = simp (reg-modify i chip, reg-write_reg i chip);
    dac_rate = simp (reg-modify i chip, reg-write_reg i chip);
    dividers = simp (reg-modify i chip, reg-write_reg i chip);
    bclk =
        simp (reg-modify i chip, reg-write_reg i chip)
          (eq-all_below 256 _ (λ v. v / 64 * 64 + 3) (reg b 6) bclk_table (chip.byte_wide b 6));
    lrck_high =
        simp (reg-modify i chip, reg-write_reg i chip)
          (keep_high 6 (reg b 7) 0 (omega arith) (chip.byte_wide b 7)
              (omega (arith, chip.byte_wide b 7)) (omega arith) (omega (arith, chip.byte_wide b 7))
            ∙ omega arith);
    lrck_low =
        simp (reg-modify i chip, reg-write_reg i chip)
          (keep_none_byte (reg b 8) 0xff (chip.byte_wide b 8) (omega arith));
    power = simp (reg-modify i chip, reg-write_reg i chip);
    analog = simp (reg-modify i chip, reg-write_reg i chip);
    microphone = simp (reg-modify i chip, reg-write_reg i chip);
    volume = simp (reg-write_reg i chip);
    mute = simp (reg-modify i chip, reg-write_reg i chip);
  }
