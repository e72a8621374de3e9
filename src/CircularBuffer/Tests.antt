-- ===== src/CircularBuffer/Tests.antt =====
-- The ring on concrete bytes: eight bytes round the end of a storage of four.
use bell.Prelude.{◌≡◌, refl, inl, inr, List, [], ◌∷◌, arith}
use bell.CircularBuffer.{Ring, write, read, empty_buffer, empty_except, put_chunk, get_chunk}
use bell.CircularBuffer.Fifo.{contents}
use bell.CircularBuffer.Inv.{IsValid}
use bell.CircularBuffer.Refine.{Op, put, get, clear, keep, run, queue_run, run_refines, step}

abbrev wrapped : Ring
wrapped = record {
  beg_index = 3;
  end_index = 1;
  data_size = 2;
  data_capacity = 4;
  buffer = 9 ∷ 0 ∷ 0 ∷ 8 ∷ [];
}

wrapped-IsValid : IsValid wrapped
wrapped-IsValid = record {
  storage = refl;
  small = omega arith;
  beg_in = omega arith;
  end_in = omega arith;
  size_in = omega arith;
  runs = inr (inl refl);
}

write_round :
    write wrapped (1 ∷ 2 ∷ 3 ∷ [])
    ≡ (2, record wrapped { end_index = 3; data_size = 4; buffer = 9 ∷ 1 ∷ 2 ∷ 8 ∷ [] })
unfolding write put_chunk
write_round = refl

abbrev script : List Op
script = put (1 ∷ 2 ∷ 3 ∷ []) ∷ get 3 ∷ keep 5 ∷ get 9 ∷ clear ∷ get 1 ∷ []

run-script :
    run wrapped script
    ≡ (2, []) ∷ (3, 8 ∷ 9 ∷ 1 ∷ []) ∷ (0, []) ∷ (1, 2 ∷ []) ∷ (0, []) ∷ (0, []) ∷ []
unfolding run step write put_chunk read get_chunk empty_except empty_buffer
run-script = refl

run_refines_example : run wrapped script ≡ queue_run 4 (contents wrapped) script
run_refines_example = run_refines script wrapped-IsValid
