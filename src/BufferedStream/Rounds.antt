-- ===== src/BufferedStream/Rounds.antt =====
-- A round of either loop of main/io/BufferedStream.cpp is a call of the ring of
-- main/io/CircularBuffer.cpp that does not go round its end; so the buffer is a queue of bytes.
use mathlib.Core.Path.{subst}
use bell.Prelude.{
  ℕ, zero, suc, ◌+◌, ◌-◌, ◌%◌, ◌^◌, ◌≤◌, ◌<◌, ◌≡◌, refl, sym, ap, ap₂, ◌∙◌, true, false, inl, inr,
  List, [], ◌∷◌, ◌++◌, Option, some, arith, min, length, take, drop, ◌==◌, Bool-cases, take-nil,
  drop-all, not, ◌&&◌,
}
use bell.CircularBuffer.{Ring, put_chunk, get_chunk}
use bell.CircularBuffer.Inv as RingInv
use bell.CircularBuffer.Inv.{put_chunk-IsValid, get_chunk-IsValid}
use bell.CircularBuffer.Fifo.{contents, contents-put, get_chunk-contents}
use bell.BufferedStream.{
  Buffered, length_between, read_round, round_length, read_loop, read, waits, fill_room, fill_round,
}

-- The ring that the buffer is.
abbrev pub ring : Buffered → Ring
ring b = record {
  beg_index = b.read_ptr;
  end_index = b.write_ptr;
  data_size = b.read_available;
  data_capacity = b.buffer_size;
  buffer = b.buf;
}

-- The bytes that are buffered, oldest first.
abbrev pub buffered : Buffered → List ℕ
buffered b = contents (ring b)

pub record IsValid (b : Buffered) : Type 0 where
  pub ring_valid : RingInv.IsValid (ring b)
  pub small : b.buffer_size < 2 ^ 31

-- Bytes that the task may have asked for fit the ring, unless it is full.
pub fill_room-le :
    {b : Buffered}
    → IsValid b
    → b.read_available < b.buffer_size
    → (fill_room b + b.read_available ≤ b.buffer_size) × (fill_room b + b.write_ptr ≤ b.buffer_size)
unfolding fill_room length_between
fill_room-le {b} v lt = let r = v.ring_valid in ground arith

ring-fill_round :
    {b : Buffered} (chunk : List ℕ)
    → IsValid b
    → length chunk + b.write_ptr ≤ b.buffer_size
    → length chunk + b.read_available ≤ b.buffer_size
    → ring (fill_round b chunk) ≡ put_chunk (ring b) chunk
unfolding fill_round put_chunk
ring-fill_round {b} chunk v fits held = let r = v.ring_valid in ground arith

ring-read_round :
    {b : Buffered} (n : ℕ)
    → IsValid b
    → n + b.read_ptr ≤ b.buffer_size
    → n ≤ b.read_available
    → ((read_round b n).0 ≡ (get_chunk (ring b) n).0)
      × (ring (read_round b n).1 ≡ (get_chunk (ring b) n).1)
unfolding read_round get_chunk
ring-read_round {b} n v fits held = let r = v.ring_valid in ground arith

pub size-fill_round :
    (b : Buffered) (chunk : List ℕ) → (fill_round b chunk).buffer_size ≡ b.buffer_size
unfolding fill_round
size-fill_round b chunk = refl

pub size-read_round : (b : Buffered) (n : ℕ) → (read_round b n).1.buffer_size ≡ b.buffer_size
unfolding read_round
size-read_round b n = refl

-- A round of the inner loop of `runTask` on a stream whose pointers and count agree, whose buffer is below
-- 2^31 bytes and not full, where the source gives no more than asked for and no step of the other thread
-- comes in between: the pointers and the count agree again, and the bytes stand behind those that were
-- buffered, of which none is lost.
pub fill_round_lem :
    {b : Buffered} (chunk : List ℕ)
    → IsValid b
    → b.read_available < b.buffer_size
    → length chunk ≤ fill_room b
    → IsValid (fill_round b chunk) × (buffered (fill_round b chunk) ≡ buffered b ++ chunk)
fill_round_lem {b} chunk v lt le =
    let room = fill_room-le v lt in
    let same = ring-fill_round chunk v (omega (arith, room.1)) (omega (arith, room.0)) in
    (
      record {
        ring_valid =
            subst RingInv.IsValid (sym same)
              (put_chunk-IsValid chunk v.ring_valid (omega (arith, room.0)));
        small = omega (arith, size-fill_round b chunk, v.small);
      },
      ap contents same ∙ contents-put v.ring_valid chunk (omega (arith, room.0)),
    )

get_chunk-size :
    (r : Ring)
    → RingInv.IsValid r
    → (n : ℕ) → n ≤ r.data_size
    → (get_chunk r n).1.data_size ≡ r.data_size - n
unfolding get_chunk
get_chunk-size r v n le = ground arith

-- A round of the reader copies out the oldest bytes, at least one where one is asked for.
module _ {b : Buffered} (total : ℕ) (v : IsValid b) (le : total ≤ b.read_available) where
  pub round_length-le :
      (round_length b total + b.read_ptr ≤ b.buffer_size)
      × (round_length b total ≤ total)
      × (0 < total → 0 < round_length b total)
  unfolding length_between
  round_length-le = let r = v.ring_valid in (ground arith, ground arith, λ h. ground arith)

  pub read_round_lem :
      IsValid (read_round b (round_length b total)).1
      × ((read_round b (round_length b total)).0 ≡ take (round_length b total) (buffered b))
      × (buffered (read_round b (round_length b total)).1
          ≡ drop (round_length b total) (buffered b))
      × ((read_round b (round_length b total)).1.read_available
          ≡ b.read_available - round_length b total)
  read_round_lem =
      let bounds = round_length-le in
      let n = round_length b total in
      let held : n ≤ b.read_available = omega (arith, bounds) in
      let same = ring-read_round n v bounds.0 held in
      let got = get_chunk-contents v.ring_valid n held in
      (
        record {
          ring_valid = subst RingInv.IsValid (sym same.1) (get_chunk-IsValid n v.ring_valid held);
          small = omega (arith, size-read_round b n, v.small);
        },
        same.0 ∙ got.0,
        ap contents same.1 ∙ got.1,
        omega (arith, ap (λ r. r.data_size) same.1, get_chunk-size (ring b) v.ring_valid n held),
      )

take-take-drop : (n m : ℕ) (xs : List ℕ) → n ≤ m → take n xs ++ take (m - n) (drop n xs) ≡ take m xs
take-take-drop zero m xs h = ap (λ k. take k xs) (omega arith)
take-take-drop (suc n) zero xs h = absurd (omega arith)
take-take-drop (suc n) (suc m) [] h = take-nil (suc m - suc n)
take-take-drop (suc n) (suc m) (x ∷ xs) h = ap (◌∷◌ x) (
    ap (λ k. take n xs ++ take k (drop n xs)) {y = m - n} (omega arith)
    ∙ take-take-drop n m xs (omega arith))

drop-drop : (n m : ℕ) (xs : List ℕ) → n ≤ m → drop (m - n) (drop n xs) ≡ drop m xs
drop-drop zero m xs h = ap (λ k. drop k xs) (omega arith)
drop-drop (suc n) zero xs h = absurd (omega arith)
drop-drop (suc n) (suc m) [] h = drop-all (suc m - suc n) [] (omega arith)
drop-drop (suc n) (suc m) (x ∷ xs) h =
    ap (λ k. drop k (drop n xs)) {y = m - n} (omega arith) ∙ drop-drop n m xs (omega arith)

-- The loop of `read` copies out the oldest bytes, as many as are left to read.
pub record Reads (b : Buffered) (total : ℕ) (r : Option (List ℕ × Buffered)) : Type 0 where
  pub after : Buffered
  pub answer : r ≡ some (take total (buffered b), after)
  pub valid : IsValid after
  pub rest : buffered after ≡ drop total (buffered b)

pub read_loop-Reads :
    (fuel : ℕ) {b : Buffered} (total : ℕ)
    → IsValid b
    → total ≤ b.read_available
    → total < fuel
    → Reads b total (read_loop fuel b total)
unfolding read_loop
read_loop-Reads zero total v le enough = absurd (omega arith)
read_loop-Reads (suc fuel) {b} total v le enough = elim (Bool-cases (total == 0)) [
  | inl none_left ↦
      let e : 0 ≡ total = ground arith in
      record {
        after = b;
        answer = rw none_left (ap (λ k. some (take k (buffered b), b)) e);
        valid = v;
        rest = ap (λ k. drop k (buffered b)) e;
      }
  | inr some_left ↦
      let bounds = round_length-le total v le in
      let n = round_length b total in
      let once = read_round_lem total v le in
      let more : Reads (read_round b n).1 (total - n)
          (read_loop fuel (read_round b n).1 (total - n)) =
        read_loop-Reads fuel (total - n) once.0 (omega (arith, once.3))
          (let p : 0 < n = bounds.2 (ground arith) in omega arith) in
      record {
        after = more.after;
        answer =
            rw (some_left, more.answer)
              (ap (λ l. some (l, more.after))
                (ap₂ (λ g h. g ++ take (total - n) h) once.1 once.2
                  ∙ take-take-drop n total (buffered b) (omega (arith, bounds))));
        valid = more.valid;
        rest =
            more.rest
            ∙ ap (drop (total - n)) once.2
            ∙ drop-drop n total (buffered b) (omega (arith, bounds));
      }
]

-- For a stream whose pointers and count agree and whose buffer is below 2^31 bytes, which is open or has
-- bytes left, and for which the start of `read` does not wait: `read` with fuel for each byte that is
-- buffered, and with no step of the other thread meanwhile, returns as many of the oldest bytes as asked for
-- and buffered, and leaves the others. The length is below 2^32.
pub read_lem :
    (fuel : ℕ) {b : Buffered} (len : ℕ)
    → IsValid b
    → waits b ≡ false
    → not (not b.running && b.read_available == 0) ≡ true
    → b.read_available < fuel
    → len < 2 ^ 32
    → Reads b (min b.read_available len) (read fuel b len)
unfolding read
read_lem fuel {b} len v ready alive enough short =
    let whole : len % 2 ^ 32 ≡ len = omega arith in
    let opened : (not b.running && b.read_available == 0) ≡ false = ground arith in
    rw (ready, opened, whole)
      (read_loop-Reads fuel (min b.read_available len) v (omega arith) (omega arith))
