-- ===== src/BufferedStream/Filling.antt =====
-- The inner loop of `runTask` of main/io/BufferedStream.cpp never writes over bytes that are still to be read.
use bell.Prelude.{
  ℕ, ◌+◌, ◌≤◌, ◌<◌, ◌≡◌, refl, sym, ap, ◌∙◌, true, inl, inr, List, [], ◌∷◌, ◌++◌, Option, some,
  arith, length, append_assoc, append-nil, Bool-cases,
}
use bell.BufferedStream.{Buffered, fill_room, fill_round, fills_on, fill_loop}
use bell.BufferedStream.Rounds.{IsValid, buffered, fill_room-le, fill_round_lem, size-fill_round}

-- In each round the source gives no more than it is asked for.
abbrev pub AreGiven : List (List ℕ) → Buffered → Type 0
AreGiven [] b = Unit {0}
AreGiven (chunk ∷ chunks) b = (length chunk ≤ fill_room b) × AreGiven chunks (fill_round b chunk)

abbrev pub join : List (List ℕ) → List ℕ
join [] = []
join (chunk ∷ chunks) = chunk ++ join chunks

-- Where the inner loop goes on, the buffer is not full.
fills_on-lt :
    {b : Buffered} (len : ℕ) → IsValid b → fills_on b len ≡ true → b.read_available < b.buffer_size
unfolding fills_on
fills_on-lt {b} len v on = let r = v.ring_valid in ground arith

-- How much is buffered after a round.
available-fill_round :
    {b : Buffered} (chunk : List ℕ)
    → IsValid b
    → b.read_available < b.buffer_size
    → length chunk ≤ fill_room b
    → (fill_round b chunk).read_available ≡ b.read_available + length chunk
unfolding fill_round
available-fill_round chunk v lt le = let room = fill_room-le v lt in omega (arith, room, v.small)

-- A round after which the loop goes on has given something.
fills_on-pos : (b : Buffered) (len : ℕ) → fills_on b len ≡ true → 0 < len
unfolding fills_on
fills_on-pos b len on = ground arith

-- The loop ends, and the chunks that it has taken stand behind what was buffered.
pub record Fills (chunks : List (List ℕ)) (b : Buffered) (r : Option (Buffered × List (List ℕ)))
    : Type 0 where
  pub after : Buffered
  pub taken : List (List ℕ)
  pub left : List (List ℕ)
  pub answer : r ≡ some (after, left)
  pub all : chunks ≡ taken ++ left
  pub valid : IsValid after
  pub put : buffered after ≡ buffered b ++ join taken

later-Fills :
    (chunk : List ℕ) (chunks : List (List ℕ)) (b b1 : Buffered)
    (r : Option (Buffered × List (List ℕ)))
    → buffered b1 ≡ buffered b ++ chunk
    → Fills chunks b1 r
    → Fills (chunk ∷ chunks) b r
later-Fills chunk chunks b b1 r put h = record {
  after = h.after;
  taken = chunk ∷ h.taken;
  left = h.left;
  answer = h.answer;
  all = ap (λ (t : List (List ℕ)). chunk ∷ t) h.all;
  valid = h.valid;
  put =
      h.put
      ∙ ap (λ (t : List ℕ). t ++ join h.taken) put
      ∙ append_assoc (buffered b) chunk (join h.taken);
}

-- From a stream whose pointers and count agree, and whose buffer is below 2^31 bytes and not full, with no
-- step of the other thread meanwhile: however much of what it is asked for the source gives in each round,
-- the inner loop of `runTask` ends within as many rounds as the buffer has bytes free, and one more. Then the
-- pointers and the count agree again, and what the source has given in these rounds stands behind what was
-- buffered; nothing of either is written over.
pub fill_loop-Fills :
    (chunks : List (List ℕ)) (b : Buffered)
    → IsValid b
    → b.read_available < b.buffer_size
    → b.buffer_size < length chunks + b.read_available
    → AreGiven chunks b
    → Fills chunks b (fill_loop chunks b)
unfolding fill_loop
fill_loop-Fills [] b v lt enough given = absurd (omega arith)
fill_loop-Fills (chunk ∷ chunks) b v lt enough (le, given) =
    let b1 = fill_round b chunk in
    let (valid, put) = fill_round_lem chunk v lt le in
    elim (Bool-cases (fills_on b1 (length chunk))) [
      | inl on ↦ rw on (
          later-Fills chunk chunks b b1 (fill_loop chunks b1) put (
            fill_loop-Fills chunks b1 valid (fills_on-lt (length chunk) valid on)
              (omega (
                arith,
                available-fill_round chunk v lt le,
                size-fill_round b chunk,
                fills_on-pos b1 (length chunk) on,
              ))
              given))
      | inr off ↦ rw off record {
        after = b1;
        taken = chunk ∷ [];
        left = chunks;
        answer = refl;
        all = refl;
        valid = valid;
        put = put ∙ ap (λ t. buffered b ++ t) (sym (append-nil chunk));
      }
    ]
