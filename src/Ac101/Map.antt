-- ===== src/Ac101/Map.antt =====
-- Register addresses and masks of main/audio-sinks/include/esp/ac101.h and main/audio-sinks/esp/ac101.c.
use bell.Prelude.{ℕ}

abbrev pub chip_audio_rs : ℕ
chip_audio_rs = 0x00

abbrev pub pll_ctrl1 : ℕ
pll_ctrl1 = 0x01

abbrev pub pll_ctrl2 : ℕ
pll_ctrl2 = 0x02

abbrev pub sysclk_ctrl : ℕ
sysclk_ctrl = 0x03

abbrev pub mod_clk_ena : ℕ
mod_clk_ena = 0x04

abbrev pub mod_rst_ctrl : ℕ
mod_rst_ctrl = 0x05

abbrev pub i2s_sr_ctrl : ℕ
i2s_sr_ctrl = 0x06

abbrev pub i2s1lck_ctrl : ℕ
i2s1lck_ctrl = 0x10

abbrev pub i2s1_sdout_ctrl : ℕ
i2s1_sdout_ctrl = 0x11

abbrev pub i2s1_sdin_ctrl : ℕ
i2s1_sdin_ctrl = 0x12

abbrev pub i2s1_mxr_src : ℕ
i2s1_mxr_src = 0x13

abbrev pub adc_dig_ctrl : ℕ
adc_dig_ctrl = 0x40

abbrev pub dac_dig_ctrl : ℕ
dac_dig_ctrl = 0x48

abbrev pub dac_mxr_src : ℕ
dac_mxr_src = 0x4c

abbrev pub adc_ana_ctrl : ℕ
adc_ana_ctrl = 0x50

abbrev pub adc_src : ℕ
adc_src = 0x51

abbrev pub adc_srcbst_ctrl : ℕ
adc_srcbst_ctrl = 0x52

abbrev pub omixer_daca_ctrl : ℕ
omixer_daca_ctrl = 0x53

abbrev pub omixer_sr : ℕ
omixer_sr = 0x54

abbrev pub omixer_bst1_ctrl : ℕ
omixer_bst1_ctrl = 0x55

abbrev pub hpout_ctrl : ℕ
hpout_ctrl = 0x56

abbrev pub spkout_ctrl : ℕ
spkout_ctrl = 0x58

-- `SPKOUT_EN` and `EAROUT_EN`
abbrev pub spkout_en : ℕ
spkout_en = 0x0aa0

abbrev pub earout_en : ℕ
earout_en = 0x3800

-- `~mask` as a `uint16_t`
abbrev pub not_spkout_en : ℕ
not_spkout_en = 0xf55f

abbrev pub not_earout_en : ℕ
not_earout_en = 0xc7ff
