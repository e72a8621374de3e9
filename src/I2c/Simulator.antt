-- ===== src/I2c/Simulator.antt =====
-- A codec of byte-wide registers in software, for trying the drivers on.
use bell.Prelude.{ℕ, ◌%◌, ◌≡◌, ◌<◌, refl, List, [], ◌∷◌, arith, ◌==◌, if◌then◌else◌}
use bell.I2c.{I2c, Cmd, start, stop, write_byte, read_bytes}
use bell.I2c.Chip.{Chip, store_list}

pub record Device : Type 0 where
  pub selected : ℕ
  pub cells : ℕ → ℕ

store : Device → ℕ → ℕ → Device
store d r v = record { selected = r; cells = λ q. if q == r then v else d.cells q }

-- Any other list is refused with error code 1.
unfoldable pub run_list : List Cmd → Device → ℕ × List ℕ × Device
unfolding store
run_list (start ∷ write_byte a k ∷ write_byte r l ∷ write_byte v m ∷ stop ∷ []) d =
    (0, [], store d r v)
run_list (start ∷ write_byte a k ∷ write_byte r l ∷ stop ∷ []) d =
    (0, [], record d { selected = r })
run_list (start ∷ write_byte a k ∷ read_bytes n m ∷ stop ∷ []) d =
    (0, (d.cells d.selected % 256) ∷ [], d)
run_list _ d = (1, [], d)

abbrev pub simulated : I2c
simulated = record { Bus = Device; queued = λ c. 0; begin = λ port cmds d. run_list cmds d }

stored :
    (d : Device) (r v q : ℕ)
    → v < 256
    → (run_list (store_list 0x32 r v) d).2.cells q % 256 ≡ (if q == r then v else d.cells q % 256)
unfolding run_list
stored d r v q h = ground arith

unfoldable pub simulated_chip : Chip simulated 0 0x32 0x33
unfolding run_list stored
simulated_chip = record {
  reg = λ d q. d.cells q % 256;
  selected = λ d. d.selected;
  queued_ok = λ c. refl;
  byte_wide = λ d q. omega arith;
  store_ok = λ d r v. refl;
  store_reg = stored;
  select_ok = λ d r. refl;
  select_selected = λ d r. refl;
  select_reg = λ d r q. refl;
  fetch_ok = λ d. refl;
  fetch_byte = λ d. refl;
  fetch_reg = λ d q. refl;
}

-- A device whose registers all hold 0xff.
abbrev pub all_ones : Device
all_ones = record { selected = 0; cells = λ q. 255 }
