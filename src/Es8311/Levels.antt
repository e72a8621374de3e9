-- ===== src/Es8311/Levels.antt =====
-- What the controls of the ES8311 leave in its registers, and what they read back.
use Prim.Native.Nat.{bit_and, bit_or}
use bell.Prelude.{
  ℕ, zero, suc, ◌+◌, ◌*◌, ◌/◌, ◌%◌, ◌<◌, ◌≡◌, ◌≢◌, refl, ◌∙◌, ap, true, false, arith, ◌==◌,
  if◌then◌else◌, eq-all_below, all_below,
}
use bell.I2c.{I2c}
use bell.I2c.Chip.{Chip}
use bell.Es8311.{mute}
use bell.Es8311.Controls.{
  Module, adc, dac, adc_dac, line, set_bits_per_sample, start, stop, set_voice_volume,
  get_voice_volume, set_voice_mute, get_voice_mute, set_mic_gain, has_adc, has_dac,
}
use bell.Es8311.Fields.{width_byte, stop_byte, start_byte, gain_byte}
use bell.Es8311.Registers.{reg-modify, reg-write_reg, read_reg-value}

muted_table :
    all_below 256 (λ v. bit_and (bit_or (bit_and v 0x9f) 0x60 % 256) 0x20 / 32 == 1) ≡ true
unfolding all_below
muted_table = refl

unmuted_table : all_below 256 (λ v. bit_and (bit_and v 0x9f % 256) 0x20 / 32 == 0) ≡ true
unfolding all_below
unmuted_table = refl

module _ (i : I2c) (chip : Chip i 0 0x32 0x33) (b : i.Bus) where
  open chip use {reg}

  -- What the two getters make of the registers.
  mute_flag : (get_voice_mute i b).0.1 ≡ bit_and (reg b 0x31) 0x20 / 32
  unfolding get_voice_mute
  mute_flag = rw (read_reg-value i chip 0x31 b) (ground (arith, chip.byte_wide b 0x31))

  volume_level : (get_voice_volume i b).0 ≡ (0, reg b 0x32 * 100 / 256)
  unfolding get_voice_volume
  volume_level = rw (read_reg-value i chip 0x32 b) (ground (arith, chip.byte_wide b 0x32))

module _ (i : I2c) (chip : Chip i 0 0x32 0x33) (b : i.Bus) where
  open chip use {reg}

  -- The mute bits and the volume after `es8311_mute`.
  reg-mute_off :
      (reg (set_voice_mute i 0 b).1 0x31 ≡ bit_and (reg b 0x31) 0x9f % 256)
      × (reg (set_voice_mute i 0 b).1 0x32 ≡ reg b 0x32)
  unfolding set_voice_mute mute
  reg-mute_off = (
    simp (reg-write_reg i chip, reg-modify i chip),
    simp (reg-write_reg i chip, reg-modify i chip),
  )

  reg-mute_on :
      (enable : ℕ)
      → enable ≢ 0
      → (reg (set_voice_mute i enable b).1 0x31 ≡ bit_or (bit_and (reg b 0x31) 0x9f) 0x60 % 256)
        × (reg (set_voice_mute i enable b).1 0x32 ≡ 0)
  unfolding set_voice_mute mute
  reg-mute_on enable h =
      let on : (enable == 0) ≡ false = ground arith in
      rw on (simp (reg-write_reg i chip, read_reg-value i chip), simp (reg-write_reg i chip))

module _ (i : I2c) (chip : Chip i 0 0x32 0x33) (b : i.Bus) where
  open chip use {reg}

  -- `Es8311GetVoiceMute` reads back what `Es8311SetVoiceMute` set: 0 for 0, and 1 for any other
  -- argument.
  pub get_voice_mute-set_voice_mute :
      (enable : ℕ)
      → (get_voice_mute i (set_voice_mute i enable b).1).0.1 ≡ (if enable == 0 then 0 else 1)
  get_voice_mute-set_voice_mute zero =
      mute_flag i chip _
      ∙ ap (λ v. bit_and v 0x20 / 32) (reg-mute_off i chip b).0
      ∙ eq-all_below 256 _ (λ _. 0) (reg b 0x31) unmuted_table (chip.byte_wide b 0x31)
  get_voice_mute-set_voice_mute (suc n) =
      mute_flag i chip _
      ∙ ap (λ v. bit_and v 0x20 / 32) (reg-mute_on i chip b (suc n) (omega arith)).0
      ∙ eq-all_below 256 _ (λ _. 1) (reg b 0x31) muted_table (chip.byte_wide b 0x31)
      ∙ ground arith

  -- Muting sets the volume register to 0, and unmuting does not set it back: the volume read after
  -- both is 0, whatever it was.
  pub get_voice_volume_unmuted :
      (enable : ℕ)
      → enable ≢ 0
      → (get_voice_volume i (set_voice_mute i 0 (set_voice_mute i enable b).1).1).0 ≡ (0, 0)
  get_voice_volume_unmuted enable h =
      volume_level i chip _
      ∙ ap (λ v. (0, v * 100 / 256)) ((reg-mute_off i chip _).1 ∙ (reg-mute_on i chip b enable h).1)

  -- `Es8311GetVoiceVolume` reads the stored byte as a share of 256 in percent, while
  -- `Es8311SetVoiceVolume` stores the low byte of its argument, unscaled, and 1 in place of 0.
  pub get_voice_volume-set_voice_volume :
      (volume : ℕ)
      → (get_voice_volume i (set_voice_volume i volume b).1).0
        ≡ (0, (if volume == 0 then 1 else volume) % 256 * 100 / 256)
  unfolding set_voice_volume
  get_voice_volume-set_voice_volume volume =
      volume_level i chip _ ∙ ap (λ v. (0, v * 100 / 256)) (reg-write_reg i chip 0x32 _ b 0x32)

  -- `Es8311SetMicGain` does not clear the gain that is set: two calls leave the bits of both.
  pub set_mic_gain-set_mic_gain :
      (g h : ℕ)
      → g / 6 < 8
      → h / 6 < 8
      → reg (set_mic_gain i h (set_mic_gain i g b).1).1 0x16
        ≡ bit_or (bit_or (reg b 0x16 % 8) (g / 6)) (h / 6)
  unfolding set_mic_gain
  set_mic_gain-set_mic_gain g h hg hh =
      simp (reg-modify i chip)
        (gain_byte (reg b 0x16) (g / 6) (h / 6) (chip.byte_wide b 0x16) hg hh)

  -- Whichever of the two ports a module has, `Es8311SetBitsPerSample` puts the code of the width into
  -- bits 4:2 of its register and keeps the others; the register of the other port is kept.
  pub set_bits_per_sample-reg :
      (mode : Module) (bits : ℕ)
      → bits < 8
      → (reg (set_bits_per_sample i mode bits b).1 0x09
          ≡ (if has_adc mode then reg b 0x09 / 32 * 32 + bits * 4 + reg b 0x09 % 4 else reg b 0x09))
        × (reg (set_bits_per_sample i mode bits b).1 0x0a ≡ (
            if has_dac mode then reg b 0x0a / 32 * 32 + bits * 4 + reg b 0x0a % 4 else reg b 0x0a))
  unfolding set_bits_per_sample
  set_bits_per_sample-reg adc bits h = (
    simp (reg-modify i chip) (width_byte (reg b 0x09) bits (chip.byte_wide b 0x09) h),
    simp (reg-modify i chip),
  )
  set_bits_per_sample-reg dac bits h = (
    simp (reg-modify i chip),
    simp (reg-modify i chip) (width_byte (reg b 0x0a) bits (chip.byte_wide b 0x0a) h),
  )
  set_bits_per_sample-reg adc_dac bits h = (
    simp (reg-modify i chip) (width_byte (reg b 0x09) bits (chip.byte_wide b 0x09) h),
    simp (reg-modify i chip) (width_byte (reg b 0x0a) bits (chip.byte_wide b 0x0a) h),
  )
  set_bits_per_sample-reg line bits h = (refl, refl)

  -- For a module with a DAC, `Es8311Stop` sets bit 1 of register 0x12, and `Es8311Start` after it
  -- clears that bit; both keep the other bits.
  pub start-stop :
      (mode : Module)
      → has_dac mode ≡ true
      → (reg (stop i mode b).1 0x12 ≡ reg b 0x12 / 4 * 4 + 2 + reg b 0x12 % 2)
        × (reg (start i mode (stop i mode b).1).1 0x12 ≡ reg b 0x12 / 4 * 4 + reg b 0x12 % 2)
  unfolding start stop
  start-stop dac h = (
    simp (reg-modify i chip) (stop_byte (reg b 0x12) (chip.byte_wide b 0x12)),
    simp (reg-modify i chip) (start_byte (reg b 0x12) (chip.byte_wide b 0x12)),
  )
  start-stop adc_dac h = (
    simp (reg-modify i chip, reg-write_reg i chip) (stop_byte (reg b 0x12) (chip.byte_wide b 0x12)),
    simp (reg-modify i chip, reg-write_reg i chip)
        (start_byte (reg b 0x12) (chip.byte_wide b 0x12)),
  )
  start-stop adc h = cc
  start-stop line h = cc
