-- ===== src/Ac101/Registers.antt =====
-- A working AC101 behind the bus, and what a write and a read of the driver do to it.
use bell.Prelude.{ℕ, ◌/◌, ◌%◌, ◌<◌, ◌≡◌, ◌∙◌, List, [], ◌∷◌, arith, false, ◌==◌, if◌then◌else◌}
use bell.I2c.{I2c, Cmd, start, stop, write_byte, write_bytes, read_bytes, queue_all}
use bell.Ac101.{write_reg, read_reg, modify}

-- The command lists that the driver sends.
abbrev pub store_list : ℕ → ℕ → List Cmd
store_list r v = start ∷ write_bytes (0x34 ∷ r ∷ v / 256 ∷ v % 256 ∷ []) 1 ∷ stop ∷ []

abbrev pub fetch_list : ℕ → List Cmd
fetch_list r =
    start
    ∷ write_byte 0x34 1
    ∷ write_byte r 1
    ∷ start
    ∷ write_byte 0x35 1
    ∷ read_bytes 2 0
    ∷ stop
    ∷ []

-- As the data sheet describes it: four bytes written set the register that the second names, high byte
-- first, and a read after a repeated start returns the two bytes of the register named. A write to
-- register 0 is different: it resets the codec, and nothing is said of the registers after it.
pub record Chip (i : I2c) (port : ℕ) : Type 0 where
  pub reg : i.Bus → ℕ → ℕ
  pub queued_ok : (c : Cmd) → i.queued c ≡ 0
  pub word_wide : (b : i.Bus) (q : ℕ) → reg b q < 0x10000
  pub store_ok : (b : i.Bus) (r v : ℕ) → (i.begin port (store_list r v) b).0 ≡ 0
  pub store_reg :
      (b : i.Bus) (r v q : ℕ)
      → v < 0x10000
      → r == 0 ≡ false
      → reg (i.begin port (store_list r v) b).2 q ≡ (if q == r then v else reg b q)
  pub fetch_bytes :
      (b : i.Bus) (r : ℕ) → (i.begin port (fetch_list r) b).1 ≡ reg b r / 256 ∷ reg b r % 256 ∷ []
  pub fetch_reg : (b : i.Bus) (r q : ℕ) → reg (i.begin port (fetch_list r) b).2 q ≡ reg b q

module _ (i : I2c) (port : ℕ) (c : Chip i port) where
  open i use {Bus}
  open c use {reg}

  pub write_reg-ok : (r v : ℕ) (b : Bus) → (write_reg i port r v b).0 ≡ 0
  unfolding write_reg queue_all
  write_reg-ok r v b = simp (c.queued_ok, c.store_ok)

  pub reg-write_reg :
      (r v : ℕ) (b : Bus) (q : ℕ)
      → r == 0 ≡ false
      → reg (write_reg i port r v b).1 q ≡ (if q == r then v % 0x10000 else reg b q)
  unfolding write_reg
  reg-write_reg r v b q h = c.store_reg b r (v % 0x10000) q (omega arith) h

  pub read_reg-value : (r : ℕ) (b : Bus) → (read_reg i port r b).0 ≡ reg b r
  unfolding read_reg
  read_reg-value r b = rw (c.fetch_bytes b r) (omega arith)

  pub reg-read_reg : (r : ℕ) (b : Bus) (q : ℕ) → reg (read_reg i port r b).1 q ≡ reg b q
  unfolding read_reg
  reg-read_reg r b q = c.fetch_reg b r q

  pub reg-modify :
      (r : ℕ) (f : ℕ → ℕ) (b : Bus) (q : ℕ)
      → r == 0 ≡ false
      → reg (modify i port r f b).1 q ≡ (if q == r then f (reg b r) % 0x10000 else reg b q)
  unfolding modify
  reg-modify r f b q h = reg-write_reg r _ _ q h ∙ simp (read_reg-value, reg-read_reg)
