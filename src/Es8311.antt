-- ===== src/Es8311.antt =====
-- main/audio-sinks/esp/es8311.c: the driver of the ES8311 codec. Its functions are state-passing
-- functions over the I2C bus. Results of type `int` are bit patterns of 32 bits, and a `uint8_t` is a
-- number below 256. Logging is left out. `calloc` and `free` of the private data are the fields of
-- `Private` being set; the variants behind CONFIG_ESP32_KORVO_V1_1_BOARD and CONFIG_USE_ES7243 are off.
pub mod Table
pub mod Setup
pub mod Controls
pub mod Fields
pub mod Registers
pub mod Clock
pub mod Levels
pub mod Startup
mod Tests
use Prim.Native.Nat.{bit_and, bit_or}
use bell.Prelude.{
  ℕ, ◌+◌, ◌*◌, ◌%◌, ◌^◌, Bool, List, [], ◌∷◌, Option, none, some, get_or, get_elem?, ltb, ◌==◌,
  if◌then◌else◌,
}
use bell.I2c.{
  I2c, Cmd, start, stop, write_byte, read_bytes, queue_all, Driver, pure, ◌>>=◌, ◌>>◌, minus_one,
}
use bell.Es8311.Table.{CoeffDiv, coeff_div, get_coeff}

abbrev pub es8311_addr : ℕ
es8311_addr = 0x32

abbrev pub es7243_addr : ℕ
es7243_addr = 0x26

-- `struct es8311_private`
pub record Private : Type 0 where
  pub dmic_enable : Bool
  pub mclkinv : Bool
  pub sclkinv : Bool
  pub master_slave_mode : ℕ
  pub pcm_format : ℕ
  pub pcm_resolution : ℕ
  pub mclk_src : ℕ

-- `uint8_t` shifts and differences
abbrev pub shl8 : ℕ → ℕ → ℕ
shl8 x k = x * 2 ^ k % 256

abbrev pub pred8 : ℕ → ℕ
pred8 x = (x + 255) % 256

-- The registers that `es8311_pcm_hw_params` programs from a row of the table.
pub premulti_code : ℕ → ℕ
premulti_code m =
    if m == 1 then 0 else if m == 2 then 1 else if m == 4 then 2 else if m == 8 then 3 else 0

pub bclk_code : ℕ → ℕ
bclk_code d = if ltb d 19 then pred8 d else d

module _ (i : I2c) where
  open i use {Bus, queued, begin}

  -- Build a command list and run it on port 0: the error code, and the bytes read.
  transfer : List Cmd → Driver Bus (ℕ × List ℕ)
  transfer cmds b =
      let (code, bytes, b') = begin 0 cmds b in ((bit_or (queue_all queued cmds) code, bytes), b')

  -- The value is a `uint8_t`: a wider argument is cut at the call.
  write_at : ℕ → ℕ → ℕ → Driver Bus ℕ
  write_at addr reg_add value = do
    sent ←
        transfer (
          start ∷ write_byte addr 1 ∷ write_byte reg_add 1 ∷ write_byte (value % 256) 1 ∷ stop ∷ [])
    pure (if sent.0 == 0 then sent.0 else minus_one)

  read_at : ℕ → ℕ → Driver Bus ℕ
  read_at addr reg_add = do
    asked ← transfer (start ∷ write_byte addr 1 ∷ write_byte reg_add 1 ∷ stop ∷ [])
    given ← transfer (start ∷ write_byte (bit_or addr 1) 1 ∷ read_bytes 1 1 ∷ stop ∷ [])
    pure (if bit_or asked.0 given.0 == 0 then get_or given.1 0 0 % 256 else minus_one)

  -- `Es8311WriteReg`, `Es8311ReadReg` and the pair for the ES7243
  unfoldable pub write_reg : ℕ → ℕ → Driver Bus ℕ
  unfolding write_at transfer
  write_reg = write_at es8311_addr

  unfoldable pub read_reg : ℕ → Driver Bus ℕ
  unfolding read_at transfer
  read_reg = read_at es8311_addr

  pub es7243_write_reg : ℕ → ℕ → Driver Bus ℕ
  es7243_write_reg = write_at es7243_addr

  pub es7243_read_reg : ℕ → Driver Bus ℕ
  es7243_read_reg = read_at es7243_addr

  pub es7243_init : Driver Bus ℕ
  es7243_init = do
    a ← es7243_write_reg 0x00 0x01
    b ← es7243_write_reg 0x06 0x00
    c ← es7243_write_reg 0x05 0x1b
    d ← es7243_write_reg 0x01 0x0c
    e ← es7243_write_reg 0x08 0x43
    f ← es7243_write_reg 0x05 0x13
    let ret = bit_or a (bit_or b (bit_or c (bit_or d (bit_or e f))))
    pure (if ret == 0 then ret else minus_one)

  -- The pattern `regv = Read(r); regv = f(regv); Write(r, regv)`.
  unfoldable pub modify : ℕ → (ℕ → ℕ) → Driver Bus ℕ
  modify r f = do regv ← read_reg r; write_reg r (f regv)

  -- The part of `es8311_pcm_hw_params` for a row that was found.
  unfoldable pub program_clock : CoeffDiv → Driver Bus (Unit {0})
  program_clock c = do
    modify 0x02 (λ v.
        bit_or (bit_or (bit_and v 0x07) (shl8 (pred8 c.prediv) 5))
          (shl8 (premulti_code c.premulti) 3))
    modify 0x05 (λ v. bit_or (bit_or (bit_and v 0x00) (shl8 (pred8 c.adcdiv) 4)) (pred8 c.dacdiv))
    modify 0x03 (λ v. bit_or (bit_or (bit_and v 0x80) (shl8 c.fsmode 6)) c.adcosr)
    modify 0x04 (λ v. bit_or (bit_and v 0x80) c.dacosr)
    modify 0x07 (λ v. bit_or (bit_and v 0xc0) c.lrck_h)
    modify 0x08 (λ v. bit_or (bit_and v 0x00) c.lrck_l)
    modify 0x06 (λ v. bit_or (bit_and v 0xe0) (bclk_code c.bclkdiv))
    pure tt

  hw_params_for : Option CoeffDiv → Driver Bus (Unit {0})
  hw_params_for none = pure tt
  hw_params_for (some c) = program_clock c

  -- `es8311_pcm_hw_params`: nothing is written for a rate that the table lacks.
  unfoldable pub pcm_hw_params : ℕ → ℕ → Driver Bus (Unit {0})
  unfolding hw_params_for
  pcm_hw_params mclk lrck =
      hw_params_for (elim (get_coeff mclk lrck) [ none ↦ none | some k ↦ get_elem? coeff_div k ])

  -- `es8311_mute`
  unfoldable pub mute : ℕ → Driver Bus (Unit {0})
  mute enable =
      if enable == 0
      then (do modify 0x31 (λ v. bit_and v 0x9f); write_reg 0x12 0x00; pure tt)
      else (do
        v ← read_reg 0x31
        write_reg 0x12 0x02
        write_reg 0x31 (bit_or (bit_and v 0x9f) 0x60)
        write_reg 0x32 0x00
        write_reg 0x37 0x08
        pure tt)
