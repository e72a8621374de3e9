-- ===== src/Ac101/Tests.antt =====
-- The AC101 driver on a codec in software.
use bell.Prelude.{
  ℕ, ◌+◌, ◌*◌, ◌/◌, ◌%◌, ◌<◌, ◌≡◌, ◌≢◌, refl, List, [], ◌∷◌, false, arith, ◌==◌, if◌then◌else◌,
}
use bell.I2c.{I2c, Cmd, start, stop, write_byte, write_bytes, read_bytes}
use bell.Ac101.Outputs.{IsStarted, init-IsStarted}
use bell.Ac101.Registers.{Chip, store_list}
use bell.Ac101.{init}

-- The registers. Register 0 keeps its value: it names the chip.
abbrev Device : Type 0
Device = ℕ → ℕ

run_list : List Cmd → Device → ℕ × List ℕ × Device
run_list (start ∷ write_bytes (a ∷ r ∷ h ∷ l ∷ []) k ∷ stop ∷ []) d =
    (0, [], λ q. if r == 0 then d q else if q == r then h * 256 + l else d q)
run_list
      (start
        ∷ write_byte a k
        ∷ write_byte r m
        ∷ start
        ∷ write_byte c n
        ∷ read_bytes o p
        ∷ stop
        ∷ [])
      d =
    (0, d r % 0x10000 / 256 ∷ d r % 0x10000 % 256 ∷ [], d)
run_list _ d = (1, [], d)

abbrev simulated : I2c
simulated = record { Bus = Device; queued = λ c. 0; begin = λ port cmds d. run_list cmds d }

stored :
    (d : Device) (r v q : ℕ)
    → v < 0x10000
    → r == 0 ≡ false
    → (run_list (store_list r v) d).2 q % 0x10000 ≡ (if q == r then v else d q % 0x10000)
unfolding run_list
stored d r v q h e = rw e (ground arith)

simulated_chip : Chip simulated 0
unfolding run_list stored
simulated_chip = record {
  reg = λ d q. d q % 0x10000;
  queued_ok = λ c. refl;
  word_wide = λ d q. omega arith;
  store_ok = λ d r v. refl;
  store_reg = stored;
  fetch_bytes = λ d r. refl;
  fetch_reg = λ d r q. refl;
}

-- Every register reads 0xa5a5, and none reads anything.
abbrev awake : Device
awake = λ q. 0xa5a5

abbrev silent : Device
silent = λ q. 0

silent_reads_0 : simulated_chip.reg silent 0 ≡ 0
unfolding simulated_chip
silent_reads_0 = refl

awake_answers : simulated_chip.reg awake 0 ≢ 0
unfolding simulated_chip
awake_answers h = omega arith

init-IsStarted_example :
    ((init simulated 0 0 awake).0 ≡ (0 == 0))
    × IsStarted (simulated_chip.reg (init simulated 0 0 awake).1)
init-IsStarted_example = init-IsStarted simulated 0 simulated_chip awake 0 awake_answers
