-- ===== src/Ac101.antt =====
-- main/audio-sinks/esp/ac101.c: the driver of the AC101 codec, whose registers have 16 bits. `i2c_port`
-- is the parameter `port`. The results of the I2S calls of ESP-IDF are arguments of `init`,
-- `ENABLE_ADC` is off, and logging and the delay are left out.
pub mod Map
pub mod Registers
pub mod Volume
pub mod Outputs
mod Tests
use Prim.Native.Nat.{bit_and, bit_or}
use bell.Prelude.{
  ℕ, ◌+◌, ◌*◌, ◌/◌, ◌%◌, Bool, true, false, List, [], ◌∷◌, min, get_or, ◌==◌, if◌then◌else◌,
}
use bell.I2c.{
  I2c, Cmd, start, stop, write_byte, write_bytes, read_bytes, queue_all, Driver, pure, ◌>>=◌, ◌>>◌,
}
use bell.Ac101.Map.{
  chip_audio_rs, pll_ctrl1, pll_ctrl2, sysclk_ctrl, mod_clk_ena, mod_rst_ctrl, i2s_sr_ctrl,
  i2s1lck_ctrl, i2s1_sdout_ctrl, i2s1_sdin_ctrl, i2s1_mxr_src, adc_dig_ctrl, dac_dig_ctrl,
  dac_mxr_src, adc_ana_ctrl, adc_src, adc_srcbst_ctrl, omixer_daca_ctrl, omixer_sr,
  omixer_bst1_ctrl, hpout_ctrl, spkout_ctrl, spkout_en, earout_en, not_spkout_en, not_earout_en,
}

-- `adac_power_e` and `ac_module_t`
pub data Power : Type 0 where
  standby on off unknown : Power

pub data Module : Type 0 where
  adc dac adc_dac line : Module

-- `ac_output_mixer_source_t`
pub data Source : Type 0 where
  mic1 mic2 linein other : Source

-- The code that `set_sample_rate` writes for a rate; an unknown rate is taken for 44100.
unfoldable pub rate_code : ℕ → ℕ
rate_code rate =
    if rate == 8000
    then 0x0000
    else if rate == 11025
    then 0x1000
    else if rate == 12000
    then 0x2000
    else if rate == 16000
    then 0x3000
    else if rate == 22050
    then 0x4000
    else if rate == 24000
    then 0x5000
    else if rate == 32000
    then 0x6000
    else if rate == 44100
    then 0x7000
    else if rate == 48000
    then 0x8000
    else if rate == 96000
    then 0x9000
    else if rate == 192000
    then 0xa000
    else 0x7000

module _ (i : I2c) (port : ℕ) where
  open i use {Bus, queued, begin}

  -- `i2c_write_reg`; the address is `AC101_ADDR << 1`, and the value a `uint16_t`.
  unfoldable pub write_reg : ℕ → ℕ → Driver Bus ℕ
  write_reg reg val b =
      let v = val % 0x10000 in
      let cmds = start ∷ write_bytes (0x34 ∷ reg ∷ v / 256 ∷ v % 256 ∷ []) 1 ∷ stop ∷ [] in
      let (code, bytes, b') = begin port cmds b in (bit_or (queue_all queued cmds) code, b')

  -- `i2c_read_reg`: errors are not looked at, and a byte that is not read counts as 0.
  unfoldable pub read_reg : ℕ → Driver Bus ℕ
  read_reg reg b =
      let (code, bytes, b') =
        begin port
          (start
            ∷ write_byte 0x34 1
            ∷ write_byte reg 1
            ∷ start
            ∷ write_byte 0x35 1
            ∷ read_bytes 2 0
            ∷ stop
            ∷ [])
          b in
      (get_or bytes 0 0 * 256 + get_or bytes 1 0, b')

  -- The pattern `v = i2c_read_reg(r); i2c_write_reg(r, f(v))`.
  unfoldable pub modify : ℕ → (ℕ → ℕ) → Driver Bus ℕ
  modify r f = do v ← read_reg r; write_reg r (f v)

  unfoldable pub set_sample_rate : ℕ → Driver Bus ℕ
  set_sample_rate rate = write_reg i2s_sr_ctrl (rate_code rate)

  unfoldable pub get_spk_volume : Driver Bus ℕ
  get_spk_volume = do v ← read_reg spkout_ctrl; pure (bit_and v 0x1f * 100 / 0x1f)

  -- `~0x1f` and `~(0x3f << 4)` are cut to 16 bits where they are joined to a `uint16_t`.
  unfoldable pub set_spk_volume : ℕ → Driver Bus ℕ
  set_spk_volume volume =
      modify spkout_ctrl (λ v. bit_or (min (volume % 256) 100 * 0x1f / 100) (bit_and v 0xffe0))

  unfoldable pub get_earph_volume : Driver Bus ℕ
  get_earph_volume = do v ← read_reg hpout_ctrl; pure (bit_and (v / 16) 0x3f * 100 / 0x3f)

  unfoldable pub set_earph_volume : ℕ → Driver Bus ℕ
  set_earph_volume volume =
      modify hpout_ctrl (λ v. bit_or (min (volume % 256) 255 * 0x3f / 255 * 16) (bit_and v 0xfc0f))

  -- `volume`: only the earphone, with the left channel, follows.
  unfoldable pub volume : ℕ → ℕ → Driver Bus ℕ
  volume left right = set_earph_volume left

  unfoldable pub speaker : Bool → Driver Bus ℕ
  speaker true = modify spkout_ctrl (λ v. bit_or v spkout_en)
  speaker false = modify spkout_ctrl (λ v. bit_and v not_spkout_en)

  unfoldable pub headset : Bool → Driver Bus ℕ
  headset true = modify hpout_ctrl (λ v. bit_or v earout_en)
  headset false = modify hpout_ctrl (λ v. bit_and v not_earout_en)

  -- `ac101_set_output_mixer_gain`; the gain is the code of an `ac_output_mixer_gain_t`.
  unfoldable pub set_output_mixer_gain : ℕ → Source → Driver Bus ℕ
  set_output_mixer_gain gain mic1 =
      modify omixer_bst1_ctrl (λ v. bit_or (bit_and v 0xfe3f) (bit_and gain 7 * 64))
  set_output_mixer_gain gain mic2 =
      modify omixer_bst1_ctrl (λ v. bit_or (bit_and v 0xffc7) (bit_and gain 7 * 8))
  set_output_mixer_gain gain linein =
      modify omixer_bst1_ctrl (λ v. bit_or (bit_and v 0xfff8) (bit_and gain 7))
  set_output_mixer_gain gain other = read_reg omixer_bst1_ctrl

  pll_on : Driver Bus ℕ
  pll_on = modify pll_ctrl2 (λ v. bit_or v 0x8000)

  modules_on : Driver Bus ℕ
  modules_on = do write_reg 0x04 0x800c; write_reg 0x05 0x800c

  -- `ac101_start`
  unfoldable pub start_module : Module → Driver Bus ℕ
  unfolding pll_on modules_on
  start_module line = do
    write_reg 0x51 0x0408
    write_reg 0x40 0x8000
    write_reg 0x50 0x3bc0
    modules_on
    pll_on
  start_module adc = modules_on
  start_module dac = pll_on
  start_module adc_dac = do modules_on; pll_on

  -- `ac101_stop`
  unfoldable pub stop_pll : Driver Bus ℕ
  stop_pll = modify pll_ctrl2 (λ v. bit_and v 0x7fff)

  unfoldable pub power : Power → Driver Bus ℕ
  power standby = stop_pll
  power off = stop_pll
  power on = start_module dac
  power unknown = pure 0

  -- `ac101_i2s_config_clock`; the dividers are codes of their enums.
  unfoldable pub i2s_config_clock : ℕ → ℕ → Driver Bus ℕ
  i2s_config_clock bclk_div lclk_div =
      modify i2s1lck_ctrl (λ v. bit_or (bit_or (bit_and v 0xe03f) (bclk_div * 512)) (lclk_div * 64))

  -- `ac101_deinit`: a soft reset.
  unfoldable pub soft_reset : Driver Bus ℕ
  soft_reset = write_reg chip_audio_rs 0x123

  -- The registers that `init` sets, in order, once the codec has answered.
  unfoldable pub init_registers : Driver Bus ℕ
  init_registers = do
    write_reg pll_ctrl1 0x014f
    write_reg pll_ctrl2 0x8600
    write_reg sysclk_ctrl 0xaa08
    write_reg mod_clk_ena 0x800c
    write_reg mod_rst_ctrl 0x800c
    write_reg i2s_sr_ctrl 0x7000
    write_reg i2s1lck_ctrl 0x8850
    write_reg i2s1_sdout_ctrl 0xc000
    write_reg i2s1_sdin_ctrl 0xc000
    write_reg i2s1_mxr_src 0x2200
    write_reg adc_srcbst_ctrl 0x4440
    write_reg adc_src 0x0000
    write_reg adc_dig_ctrl 0x0000
    write_reg adc_ana_ctrl 0x3300
    write_reg dac_mxr_src 0x8800
    write_reg dac_dig_ctrl 0x8000
    write_reg omixer_daca_ctrl 0xf000
    write_reg omixer_daca_ctrl 0xff00
    write_reg omixer_sr 0x050a
    write_reg spkout_ctrl 0x0220
    write_reg hpout_ctrl 0xf801
    set_spk_volume 70
    set_earph_volume 70

  unfoldable pub reset_then : ℕ → Driver Bus Bool
  reset_then i2s_code = do
    sent ← write_reg chip_audio_rs 0x123
    init_registers
    pure (bit_or sent i2s_code == 0)

  -- `init`; `i2s_code` joins the codes of `i2s_driver_install` and `i2s_set_pin`.
  unfoldable pub init : ℕ → Driver Bus Bool
  unfolding reset_then
  init i2s_code = do
    res ← read_reg chip_audio_rs
    if res == 0 then pure false else reset_then i2s_code
