-- ===== src/Ac101/Volume.antt =====
-- The volumes and gains of the AC101: which bits a setter changes, and what a getter reads back.
use Prim.Native.Nat.{bit_and, bit_or}
use bell.Prelude.{
  or_above, and_above, ℕ, ◌+◌, ◌*◌, ◌/◌, ◌%◌, ◌≤◌, ◌<◌, ◌≡◌, refl, ap, ◌∙◌, min, Bool, true, false,
  arith, keep_below, set_field, set_field_left, with_field, or_low, or_high, keep_above,
}
use bell.I2c.{I2c}
use bell.Ac101.Registers.{Chip, reg-modify, read_reg-value}
use bell.Ac101.{
  mic1, mic2, linein, get_spk_volume, set_spk_volume, get_earph_volume, set_earph_volume,
  set_output_mixer_gain, speaker, headset,
}

module _ (i : I2c) (port : ℕ) (chip : Chip i port) (b : i.Bus) where
  open chip use {reg}

  -- What the getters make of the registers.
  spk_level : (get_spk_volume i port b).0 ≡ reg b 0x58 % 32 * 100 / 31
  unfolding get_spk_volume
  spk_level =
      rw (read_reg-value i port chip 0x58 b) (ap (λ v. v * 100 / 31) (keep_below 5 (reg b 0x58)))

  earph_level : (get_earph_volume i port b).0 ≡ reg b 0x56 / 16 % 64 * 100 / 63
  unfolding get_earph_volume
  earph_level =
      rw (read_reg-value i port chip 0x56 b)
        (ap (λ v. v * 100 / 63) (keep_below 6 (reg b 0x56 / 16)))

module _ (i : I2c) (port : ℕ) (chip : Chip i port) (b : i.Bus) where
  open chip use {reg}

  -- The setters replace one field of their register.
  reg-set_spk_volume :
      (volume : ℕ)
      → reg (set_spk_volume i port volume b).1 0x58
        ≡ reg b 0x58 / 32 * 32 + min (volume % 256) 100 * 31 / 100
  unfolding set_spk_volume
  reg-set_spk_volume volume =
      let x : ℕ = min (volume % 256) 100 * 31 / 100 in
      let wide : reg b 0x58 < 0x10000 = chip.word_wide b 0x58 in
      reg-modify i port chip 0x58 _ b 0x58 refl
      ∙ ap (λ t. bit_or x t % 0x10000) (keep_above 5 11 (reg b 0x58) (omega arith))
      ∙ ap (λ t. t % 0x10000) (or_low 5 x (reg b 0x58 / 32) (omega arith))
      ∙ omega arith

  reg-set_earph_volume :
      (volume : ℕ)
      → reg (set_earph_volume i port volume b).1 0x56
        ≡ with_field 4 6 (reg b 0x56) (min (volume % 256) 255 * 63 / 255)
  unfolding set_earph_volume
  reg-set_earph_volume volume =
      let wide : reg b 0x56 < 0x10000 = chip.word_wide b 0x56 in
      reg-modify i port chip 0x56 _ b 0x56 refl
      ∙ ap (λ t. t % 0x10000)
          (set_field_left 4 6 6 (reg b 0x56) (min (volume % 256) 255 * 63 / 255) (omega arith)
            (omega arith))
      ∙ omega arith

  -- The speaker volume read back after it was set: for a volume up to 100 it is at most 4 below what
  -- was asked for, and never above it; a larger one counts as 100. The bits above the volume are kept.
  pub get_spk_volume-set_spk_volume :
      (volume : ℕ)
      → volume < 256
      → ((get_spk_volume i port (set_spk_volume i port volume b).1).0 ≤ min volume 100)
        × (min volume 100 ≤ (get_spk_volume i port (set_spk_volume i port volume b).1).0 + 4)
        × (reg (set_spk_volume i port volume b).1 0x58 / 32 ≡ reg b 0x58 / 32)
  get_spk_volume-set_spk_volume volume h =
      let r = reg-set_spk_volume volume in
      let g = spk_level i port chip (set_spk_volume i port volume b).1 in
      (omega (arith, r, g), omega (arith, r, g), omega (arith, r, g))

  -- The earphone volume is set on a scale of 0 to 255 and read back on one of 0 to 100. The bits on
  -- either side of it are kept.
  pub get_earph_volume-set_earph_volume :
      (volume : ℕ)
      → volume < 256
      → ((get_earph_volume i port (set_earph_volume i port volume b).1).0
          ≡ volume * 63 / 255 * 100 / 63)
        × (reg (set_earph_volume i port volume b).1 0x56 / 1024 ≡ reg b 0x56 / 1024)
        × (reg (set_earph_volume i port volume b).1 0x56 % 16 ≡ reg b 0x56 % 16)
  get_earph_volume-set_earph_volume volume h =
      let r = reg-set_earph_volume volume in
      let g = earph_level i port chip (set_earph_volume i port volume b).1 in
      (omega (arith, r, g), omega (arith, r, g), omega (arith, r, g))

  -- Each source has a gain field of its own: the setter puts the low three bits of the gain there and
  -- keeps the rest of the register.
  pub set_output_mixer_gain-reg :
      (gain : ℕ)
      → (reg (set_output_mixer_gain i port gain mic1 b).1 0x55
          ≡ with_field 6 3 (reg b 0x55) (gain % 8))
        × (reg (set_output_mixer_gain i port gain mic2 b).1 0x55
            ≡ with_field 3 3 (reg b 0x55) (gain % 8))
        × (reg (set_output_mixer_gain i port gain linein b).1 0x55 ≡ reg b 0x55 / 8 * 8 + gain % 8)
  unfolding set_output_mixer_gain
  set_output_mixer_gain-reg gain =
      let wide : reg b 0x55 < 0x10000 = chip.word_wide b 0x55 in
      let low : bit_and gain 7 ≡ gain % 8 = keep_below 3 gain in
      (
        reg-modify i port chip 0x55 _ b 0x55 refl
            ∙ ap (λ g. bit_or (bit_and (reg b 0x55) 0xfe3f) (g * 64) % 0x10000) low
            ∙ ap (λ t. t % 0x10000)
                (set_field 6 3 7 (reg b 0x55) (gain % 8) (omega arith) (omega arith))
            ∙ omega arith,
        reg-modify i port chip 0x55 _ b 0x55 refl
            ∙ ap (λ g. bit_or (bit_and (reg b 0x55) 0xffc7) (g * 8) % 0x10000) low
            ∙ ap (λ t. t % 0x10000)
                (set_field 3 3 10 (reg b 0x55) (gain % 8) (omega arith) (omega arith))
            ∙ omega arith,
        reg-modify i port chip 0x55 _ b 0x55 refl
            ∙ ap (λ g. bit_or (bit_and (reg b 0x55) 0xfff8) g % 0x10000) low
            ∙ ap (λ t. bit_or t (gain % 8) % 0x10000) (keep_above 3 13 (reg b 0x55) (omega arith))
            ∙ ap (λ t. t % 0x10000) (or_high 3 (reg b 0x55 / 8) (gain % 8) (omega arith))
            ∙ omega arith,
      )

  -- Switching the speaker or the headset leaves its volume field as it was.
  pub volume_switched :
      (active : Bool)
      → (reg (speaker i port active b).1 0x58 % 32 ≡ reg b 0x58 % 32)
        × (reg (headset i port active b).1 0x56 / 16 % 64 ≡ reg b 0x56 / 16 % 64)
  unfolding speaker headset
  volume_switched true =
      let spk : reg (speaker i port true b).1 0x58 ≡ bit_or (reg b 0x58) 0xaa0 % 0x10000 =
        reg-modify i port chip 0x58 _ b 0x58 refl in
      let ear : reg (headset i port true b).1 0x56 ≡ bit_or (reg b 0x56) 0x3800 % 0x10000 =
        reg-modify i port chip 0x56 _ b 0x56 refl in
      (
        omega (arith, spk, or_above 5 (reg b 0x58) 0x55),
        omega (arith, ear, or_above 10 (reg b 0x56) 14),
      )
  volume_switched false =
      let spk : reg (speaker i port false b).1 0x58 ≡ bit_and (reg b 0x58) 0xf55f % 0x10000 =
        reg-modify i port chip 0x58 _ b 0x58 refl in
      let ear : reg (headset i port false b).1 0x56 ≡ bit_and (reg b 0x56) 0xc7ff % 0x10000 =
        reg-modify i port chip 0x56 _ b 0x56 refl in
      (
        omega (arith, spk, and_above 5 (reg b 0x58) 0x7aa),
        omega (arith, ear, and_above 10 (reg b 0x56) 49),
      )
