-- ===== src/Es8311/Controls.antt =====
-- The functions of es8311.c that a player calls: format, width, start and stop, volume, mute, gain.
use Prim.Native.Nat.{bit_and, bit_or}
use bell.Prelude.{ℕ, zero, suc, ◌+◌, ◌*◌, ◌/◌, ◌%◌, Bool, true, false, ◌==◌, if◌then◌else◌}
use bell.I2c.{I2c, Driver, pure, ◌>>=◌, ◌>>◌, minus_one}
use bell.Es8311.{write_reg, read_reg, modify, mute}

-- The modules of `ESCodecModule` and the formats of `ESCodecI2SFmt`.
pub data Module : Type 0 where
  adc dac adc_dac line : Module

pub data I2sFmt : Type 0 where
  normal left right dsp unknown : I2sFmt

abbrev pub has_adc : Module → Bool
has_adc adc = true
has_adc adc_dac = true
has_adc _ = false

abbrev pub has_dac : Module → Bool
has_dac dac = true
has_dac adc_dac = true
has_dac _ = false

-- `~0x03` on an `int`
abbrev not_three : ℕ
not_three = 0xffff_fffc

abbrev pub fmt_bits : I2sFmt → ℕ → ℕ
fmt_bits normal v = bit_and v not_three
fmt_bits left v = bit_or (bit_and v not_three) 0x01
fmt_bits right v = bit_or (bit_and v not_three) 0x01
fmt_bits dsp v = bit_or v 0x03
fmt_bits unknown v = v

module _ (i : I2c) where
  open i use {Bus}

  abbrev when : Bool → Driver Bus ℕ → Driver Bus ℕ
  when true m = m
  when false m = pure 0

  -- `Es8311ConfigFmt`: both port registers are read before either is written.
  unfoldable pub config_fmt : Module → I2sFmt → Driver Bus ℕ
  config_fmt mode fmt = do
    a ← when (has_adc mode) (write_reg i 0x17 0xbf)
    b ← when (has_dac mode) (write_reg i 0x12 0x00)
    reg_adc ← read_reg i 0x09
    reg_dac ← read_reg i 0x0a
    c ← write_reg i 0x09 (fmt_bits fmt (reg_adc % 256))
    d ← write_reg i 0x0a (fmt_bits fmt (reg_dac % 256))
    pure (bit_or a (bit_or b (bit_or c d)))

  -- `Es8311SetBitsPerSample`; `bits` is the code of a `BitsLength`.
  unfoldable pub set_bits_per_sample : Module → ℕ → Driver Bus ℕ
  set_bits_per_sample mode bits = do
    a ← when (has_adc mode) (modify i 0x09 (λ v. bit_or (bit_and v 0xe3) (bits * 4)))
    b ← when (has_dac mode) (modify i 0x0a (λ v. bit_or (bit_and v 0xe3) (bits * 4)))
    pure (bit_or a b)

  -- `Es8311Start` and `Es8311Stop`
  unfoldable pub start : Module → Driver Bus ℕ
  start mode = do
    a ← when (has_adc mode) (write_reg i 0x17 0xbf)
    b ← when (has_dac mode) (modify i 0x12 (λ v. bit_and v 0xfd))
    pure (bit_or a b)

  unfoldable pub stop : Module → Driver Bus ℕ
  stop mode = do
    a ← when (has_adc mode) (write_reg i 0x17 0x00)
    b ← when (has_dac mode) (modify i 0x12 (λ v. bit_or v 0x02))
    pure (bit_or a b)

  -- `Es8311SetVoiceVolume`: its result is 0 whatever the write returns.
  unfoldable pub set_voice_volume : ℕ → Driver Bus ℕ
  set_voice_volume volume = do write_reg i 0x32 (if volume == 0 then 1 else volume); pure 0

  -- `Es8311GetVoiceVolume`: the result, and `*volume`.
  unfoldable pub get_voice_volume : Driver Bus (ℕ × ℕ)
  get_voice_volume = do
    regv ← read_reg i 0x32
    pure (if regv == minus_one then (minus_one, 0) else (0, regv * 100 / 256))

  -- `Es8311SetVoiceMute`
  unfoldable pub set_voice_mute : ℕ → Driver Bus ℕ
  set_voice_mute enable = do mute i enable; pure 0

  -- `Es8311GetVoiceMute`: the result, and `*mute`.
  unfoldable pub get_voice_mute : Driver Bus (ℕ × ℕ)
  get_voice_mute = do
    res ← read_reg i 0x31
    pure (res, if res == minus_one then 0 else bit_and res 0x20 / 32)

  -- `Es8311SetMicGain`; the gain is in decibels.
  unfoldable pub set_mic_gain : ℕ → Driver Bus ℕ
  set_mic_gain gain = modify i 0x16 (λ v. bit_or (bit_and v 0x07) (gain / 6))

  -- `Es8311SetAdcVolume`
  unfoldable pub set_adc_volume : ℕ → Driver Bus ℕ
  set_adc_volume adc_vol = write_reg i 0x17 adc_vol

  -- `Es8311GetRef`
  unfoldable pub get_ref : Bool → Driver Bus ℕ
  get_ref true = modify i 0x44 (λ v. bit_or v 0x50)
  get_ref false = write_reg i 0x44 0x08

  -- `Es8311ReadAll`: the loop over the registers from `from` on.
  read_all_from : ℕ → ℕ → Driver Bus (Unit {0})
  read_all_from zero from b = (tt, b)
  read_all_from (suc n) from b = read_all_from n (from + 1) (read_reg i from b).1

  unfoldable pub read_all : Driver Bus (Unit {0})
  unfolding read_all_from
  read_all = read_all_from 0x4a 0
