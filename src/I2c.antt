-- ===== src/I2c.antt =====
-- The I2C master of ESP-IDF, which the codec drivers of main/audio-sinks/esp call. It is not part of
-- the repository: `I2c` is what the drivers use of it. `i2c_cmd_link_create` and
-- `i2c_cmd_link_delete` only manage the memory of a command list, which is a value here.
pub mod Chip
pub mod Simulator
use bell.Prelude.{ℕ, List, [], ◌∷◌}
use Prim.Native.Nat.{bit_or}

-- One entry of a command list, with its acknowledge flag.
pub data Cmd : Type 0 where
  start stop : Cmd
  write_byte : ℕ → ℕ → Cmd
  write_bytes : List ℕ → ℕ → Cmd
  read_bytes : ℕ → ℕ → Cmd

-- `queued` is the error code of the call that adds an entry; `begin` runs a list on a port, and
-- gives the error code, the bytes read, and the bus as it stands then.
pub record I2c : Type 1 where
  pub Bus : Type 0
  pub queued : Cmd → ℕ
  pub begin : ℕ → List Cmd → Bus → ℕ × List ℕ × Bus

-- `res |= …` over the calls that build a command list.
unfoldable pub queue_all : (Cmd → ℕ) → List Cmd → ℕ
queue_all queued [] = 0
queue_all queued (c ∷ cs) = bit_or (queued c) (queue_all queued cs)

-- A driver function: it changes the bus, and returns a value.
abbrev pub Driver : Type 0 → Type 0 → Type 0
Driver Bus A = Bus → A × Bus

module _ {Bus : Type 0} where
  abbrev pub pure : {A : Type 0} → A → Driver Bus A
  pure a b = (a, b)

  infixl 5 ◌>>=◌ ◌>>◌
  abbrev pub ◌>>=◌ : {A B : Type 0} → Driver Bus A → (A → Driver Bus B) → Driver Bus B
  ◌>>=◌ m f b = f (m b).0 (m b).1

  abbrev pub ◌>>◌ : {A B : Type 0} → Driver Bus A → Driver Bus B → Driver Bus B
  ◌>>◌ m k b = k (m b).1

-- -1 as an `int` of 32 bits
abbrev pub minus_one : ℕ
minus_one = 0xffff_ffff
