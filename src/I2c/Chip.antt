-- ===== src/I2c/Chip.antt =====
-- A device of byte-wide registers behind the bus, as the data sheets of the codecs describe it: a
-- write of two bytes to its address stores the second in the register that the first names; a write
-- of one byte selects a register, and a read from the address with the lowest bit set returns it.
use bell.Prelude.{ℕ, ◌≡◌, ◌<◌, List, [], ◌∷◌, ◌==◌, if◌then◌else◌}
use bell.I2c.{I2c, Cmd, start, stop, write_byte, read_bytes}

-- The command lists that the drivers send to the device at `addr`.
abbrev pub store_list : ℕ → ℕ → ℕ → List Cmd
store_list addr reg value =
    start ∷ write_byte addr 1 ∷ write_byte reg 1 ∷ write_byte value 1 ∷ stop ∷ []

abbrev pub select_list : ℕ → ℕ → List Cmd
select_list addr reg = start ∷ write_byte addr 1 ∷ write_byte reg 1 ∷ stop ∷ []

abbrev pub fetch_list : ℕ → List Cmd
fetch_list addr = start ∷ write_byte addr 1 ∷ read_bytes 1 1 ∷ stop ∷ []

pub record Chip (i : I2c) (port addr read_addr : ℕ) : Type 0 where
  pub reg : i.Bus → ℕ → ℕ
  pub selected : i.Bus → ℕ
  pub queued_ok : (c : Cmd) → i.queued c ≡ 0
  pub byte_wide : (b : i.Bus) (q : ℕ) → reg b q < 256
  pub store_ok : (b : i.Bus) (r v : ℕ) → (i.begin port (store_list addr r v) b).0 ≡ 0
  pub store_reg :
      (b : i.Bus) (r v q : ℕ)
      → v < 256
      → reg (i.begin port (store_list addr r v) b).2 q ≡ (if q == r then v else reg b q)
  pub select_ok : (b : i.Bus) (r : ℕ) → (i.begin port (select_list addr r) b).0 ≡ 0
  pub select_selected : (b : i.Bus) (r : ℕ) → selected (i.begin port (select_list addr r) b).2 ≡ r
  pub select_reg : (b : i.Bus) (r q : ℕ) → reg (i.begin port (select_list addr r) b).2 q ≡ reg b q
  pub fetch_ok : (b : i.Bus) → (i.begin port (fetch_list read_addr) b).0 ≡ 0
  pub fetch_byte : (b : i.Bus) → (i.begin port (fetch_list read_addr) b).1 ≡ reg b (selected b) ∷ []
  pub fetch_reg : (b : i.Bus) (q : ℕ) → reg (i.begin port (fetch_list read_addr) b).2 q ≡ reg b q
