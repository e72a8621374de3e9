-- ===== src/Es8311/Setup.antt =====
-- `es8311_init`, `es8311_Codec_Startup`, `Es8311Init` and `Es8311Uninit`.
use Prim.Native.Nat.{bit_and, bit_or}
use bell.Prelude.{ℕ, ◌*◌, ◌%◌, ◌^◌, false, Option, none, some, ◌==◌, if◌then◌else◌}
use bell.I2c.{I2c, Driver, pure, ◌>>=◌, ◌>>◌}
use bell.Es8311.{Private, write_reg, modify, pcm_hw_params}

abbrev pub master_mode : ℕ
master_mode = 0

abbrev pub from_sclk_pin : ℕ
from_sclk_pin = 1

-- What `es8311_Codec_Startup` stores: slave mode, 16-bit I2S, the clock from the MCLK pin.
abbrev pub startup_private : Private
startup_private = record {
  dmic_enable = false;
  mclkinv = false;
  sclkinv = false;
  master_slave_mode = 1;
  pcm_format = 0;
  pcm_resolution = 0;
  mclk_src = 0;
}

module _ (i : I2c) where
  open i use {Bus}

  -- The fixed values that `es8311_init` begins with.
  unfoldable pub init_power : Driver Bus ℕ
  init_power = do
    write_reg i 0x45 0x00
    write_reg i 0x01 0x30
    write_reg i 0x02 0x00
    write_reg i 0x03 0x10
    write_reg i 0x16 0x24
    write_reg i 0x04 0x10
    write_reg i 0x05 0x00
    write_reg i 0x0b 0x00
    write_reg i 0x0c 0x00
    write_reg i 0x10 0x1f
    write_reg i 0x11 0x7f
    write_reg i 0x00 0x80

  -- Master or slave mode, and the source of the internal clock.
  unfoldable pub init_mode : Private → Driver Bus ℕ
  init_mode p = do
    modify i 0x00
        (λ v. if p.master_slave_mode == master_mode then bit_or v 0x40 else bit_and v 0xbf)
    write_reg i 0x0d 0x01
    write_reg i 0x01 0x3f
    modify i 0x01 (λ v. if p.mclk_src == from_sclk_pin then bit_or v 0x80 else bit_and v 0x7f)

  -- Inverted clocks, and the digital microphone. `~(0x40)` is taken on an `int`.
  unfoldable pub init_pins : Private → Driver Bus ℕ
  init_pins p = do
    modify i 0x01 (λ v. if p.mclkinv then bit_or v 0x40 else bit_and v 0xffff_ffbf)
    modify i 0x06 (λ v. if p.sclkinv then bit_or v 0x20 else bit_and v 0xffff_ffdf)
    write_reg i 0x14 0x1a
    modify i 0x14 (λ v. if p.dmic_enable then bit_or v 0x40 else bit_and v 0xffff_ffbf)

  -- The fixed values that `es8311_init` ends with.
  unfoldable pub init_levels : Driver Bus ℕ
  init_levels = do
    write_reg i 0x13 0x10
    write_reg i 0x0e 0x02
    write_reg i 0x15 0x40
    write_reg i 0x1b 0x0a
    write_reg i 0x1c 0x6a
    write_reg i 0x37 0x48
    write_reg i 0x44 0x08
    write_reg i 0x32 0xbf

  -- `es8311_init`. The clock passed on is `lrck_freq * 256`, a `uint32_t`; `mclk_freq` is not used.
  unfoldable pub init : Private → ℕ → ℕ → Driver Bus ℕ
  unfolding init_power init_mode init_pins init_levels
  init p mclk_freq lrck_freq = do
    init_power
    init_mode p
    pcm_hw_params i (lrck_freq * 256 % 2 ^ 32) lrck_freq
    init_pins p
    init_levels

  -- `es8311_Codec_Startup`: the private data, and the bus.
  unfoldable pub codec_startup : ℕ → ℕ → Driver Bus Private
  codec_startup mclk_freq lrck_freq = do
    init startup_private mclk_freq lrck_freq
    pure startup_private

  -- `Es8311Init`, once `I2cInit` has set up the port: the private data, and the bus.
  unfoldable pub start_codec : Driver Bus (Option Private)
  start_codec = do p ← codec_startup 11289600 44100; pure (some p)

  -- `Es8311Uninit`: the private data is freed.
  unfoldable pub uninit : Driver Bus (Option Private)
  uninit = do write_reg i 0x00 0x3f; pure none
