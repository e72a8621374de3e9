-- ===== src/Es8311/Registers.antt =====
-- What a write, a read and a read-modify-write of the driver do to a working ES8311.
use Prim.Native.Nat.{bit_or}
use native.Mathlib.Nat.{mod-eq_of_lt}
use bell.Prelude.{ℕ, ◌%◌, ◌≡◌, ap, ◌∙◌, arith, ◌==◌, if◌then◌else◌}
use bell.I2c.{I2c, queue_all, minus_one}
use bell.I2c.Chip.{Chip, store_list}
use bell.Es8311.{write_reg, read_reg, modify}

module _ (i : I2c) (c : Chip i 0 0x32 0x33) where
  open i use {Bus, queued, begin}
  open c use {reg}

  write_code : (r v : ℕ) (b : Bus) → ℕ
  write_code r v b =
      bit_or (queue_all queued (store_list 0x32 r (v % 256)))
        (begin 0 (store_list 0x32 r (v % 256)) b).0

  write_code_zero : (r v : ℕ) (b : Bus) → write_code r v b ≡ 0
  unfolding write_code queue_all
  write_code_zero r v b = simp (c.queued_ok, c.store_ok)

  pub write_reg-ok : (r v : ℕ) (b : Bus) → (write_reg i r v b).0 ≡ 0
  unfolding write_reg write_code
  write_reg-ok r v b = ap (λ k. if k == 0 then k else minus_one) (write_code_zero r v b)

  pub reg-write_reg :
      (r v : ℕ) (b : Bus) (q : ℕ)
      → reg (write_reg i r v b).1 q ≡ (if q == r then v % 256 else reg b q)
  unfolding write_reg
  reg-write_reg r v b q = c.store_reg b r (v % 256) q (omega arith)

  pub read_reg-value : (r : ℕ) (b : Bus) → (read_reg i r b).0 ≡ reg b r
  unfolding read_reg queue_all
  read_reg-value r b =
      simp (c.queued_ok, c.select_ok, c.fetch_ok, c.fetch_byte, c.select_selected, c.select_reg)
        (mod-eq_of_lt (c.byte_wide b r))

  pub reg-read_reg : (r : ℕ) (b : Bus) (q : ℕ) → reg (read_reg i r b).1 q ≡ reg b q
  unfolding read_reg
  reg-read_reg r b q = simp (c.fetch_reg, c.select_reg)

  pub reg-modify :
      (r : ℕ) (f : ℕ → ℕ) (b : Bus) (q : ℕ)
      → reg (modify i r f b).1 q ≡ (if q == r then f (reg b r) % 256 else reg b q)
  unfolding modify
  reg-modify r f b q = reg-write_reg r _ _ q ∙ simp (read_reg-value, reg-read_reg)

  pub modify-ok : (r : ℕ) (f : ℕ → ℕ) (b : Bus) → (modify i r f b).0 ≡ 0
  unfolding modify
  modify-ok r f b = write_reg-ok r _ _
