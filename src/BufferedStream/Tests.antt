-- ===== src/BufferedStream/Tests.antt =====
-- A buffer of eight bytes that is refilled three bytes at a time.
use bell.Prelude.{ℕ, ◌≡◌, refl, true, false, [], ◌∷◌, List, some, arith, replicate, inl, inr}
use bell.BufferedStream.{
  Buffered, create, read, fill_room, fill_round, fill_loop, fills_on, length_between, waits,
}
use bell.BufferedStream.Filling.{AreGiven, Fills, fill_loop-Fills}
use bell.BufferedStream.Rounds.{IsValid, Reads, read_lem}

abbrev eight : Buffered
eight = create (replicate 8 0) 8 4 3 2 1 false

-- The first byte stands at the end of the buffer, and the others at its start.
abbrev round_the_end : Buffered
round_the_end = record eight {
  buf = 2 ∷ 3 ∷ 0 ∷ 0 ∷ 0 ∷ 0 ∷ 0 ∷ 1 ∷ [];
  read_ptr = 7;
  write_ptr = 2;
  read_available = 3;
  running = true;
}

round_the_end-IsValid : IsValid round_the_end
unfolding create
round_the_end-IsValid = record {
  ring_valid = record {
    storage = refl;
    small = omega arith;
    beg_in = omega arith;
    end_in = omega arith;
    size_in = omega arith;
    runs = inr (inl refl);
  };
  small = omega arith;
}

round_the_end_ready : waits round_the_end ≡ false
unfolding waits create
round_the_end_ready = refl

read_lem_example : Reads round_the_end 2 (read 4 round_the_end 2)
unfolding create
read_lem_example =
    read_lem 4 2 round_the_end-IsValid round_the_end_ready refl (omega arith) (omega arith)

three_asked : fill_room round_the_end ≡ 3
unfolding fill_room length_between create
three_asked = refl

-- Two rounds, of one byte and of three; then the free bytes are too few for another.
abbrev chunks : List (List ℕ)
chunks = (4 ∷ []) ∷ (5 ∷ 6 ∷ 7 ∷ []) ∷ [] ∷ [] ∷ [] ∷ [] ∷ []

chunks-AreGiven : AreGiven chunks round_the_end
unfolding fill_room fill_round length_between create
chunks-AreGiven =
    (omega arith, (omega arith, (omega arith, (omega arith, (omega arith, (omega arith, tt))))))

fill_loop-Fills_example : Fills chunks round_the_end (fill_loop chunks round_the_end)
unfolding create
fill_loop-Fills_example =
    fill_loop-Fills chunks round_the_end round_the_end-IsValid (omega arith) (omega arith)
      chunks-AreGiven

two_rounds : (b : Buffered) × (fill_loop chunks round_the_end ≡ some (b, [] ∷ [] ∷ [] ∷ [] ∷ []))
unfolding fill_loop fill_round fills_on create
two_rounds = (_, refl)
