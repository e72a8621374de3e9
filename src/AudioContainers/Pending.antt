-- ===== src/AudioContainers/Pending.antt =====
-- The bytes that an audio container has still to deliver: the rest of its buffer, and of its stream.
use mathlib.Core.Path.{subst}
use bell.Prelude.{
  ℕ, zero, suc, ◌+◌, ◌-◌, ◌≤◌, ◌≡◌, refl, sym, ap, ap₂, ◌∙◌, true, not, ◌||◌, ◌&&◌, inl, inr, List,
  [], ◌∷◌, ◌++◌, arith, min, length, take, drop, copy_at, ltb, if◌then◌else◌, add_size, sub_size,
  Bool-cases, length-take, length-drop, length-copy_at, length-append, take-append-drop, drop-all,
  append_assoc, take-nil, drop-add, take-copy_at, drop-append, drop-take,
}
use bell.Stream.{Stream, good, read}
use bell.AudioContainers.Buffer.{Window, align, fill, buffer_size}

-- What a stream has still to give: nothing once it is not good.
abbrev pub coming : Stream → List ℕ
coming s = if good s then drop s.pos s.bytes else []

abbrev pub buffered : Window → List ℕ
buffered w = drop w.data_offset (take w.bytes_in_buffer w.buffer)

abbrev pub pending : Window → List ℕ
pending w = buffered w ++ coming w.istr

-- The buffer has its size, and what is consumed was in it.
pub record IsValid (w : Window) : Type 0 where
  pub storage : length w.buffer ≡ buffer_size
  pub within : w.bytes_in_buffer ≤ buffer_size
  pub consumed : w.data_offset ≤ w.bytes_in_buffer

-- A read takes from what is to come.
pub read-coming :
    (s : Stream) (n : ℕ)
    → ((read s n).0 ≡ take n (coming s)) × (coming (read s n).1 ≡ drop n (coming s))
unfolding read
read-coming s n = elim (Bool-cases (good s)) [
  | inl well ↦ rw well (refl, left)
  | inr bad ↦ rw bad (sym (take-nil n), ended ∙ sym (drop-all n [] (omega arith)))
]
  where
    rest : List ℕ
    rest = drop s.pos s.bytes

    got : List ℕ
    got = take n rest

    left :
        (if not (ltb (length (take n rest)) n || ltb (length (take n rest)) n)
          then drop (s.pos + length (take n rest)) s.bytes
          else [])
        ≡ drop n rest
    left = elim (Bool-cases (ltb (length (take n rest)) n)) [
      | inl short ↦ rw short (sym (drop-all n rest (ground (arith, length-take n rest))))
      | inr full ↦
          let all : length (take n rest) ≡ n = ground (arith, length-take n rest) in
          rw full (ap (λ k. drop (s.pos + k) s.bytes) all ∙ sym (drop-add s.pos n s.bytes))
    ]

    ended : (if not (s.eof || true) then drop s.pos s.bytes else []) ≡ []
    ended = ground arith

take-copy_at_start :
    (k : ℕ) (xs ys : List ℕ)
    → k ≤ length ys
    → length ys ≤ length xs
    → take k (copy_at xs 0 ys) ≡ take k ys
take-copy_at_start zero xs ys h le = refl
take-copy_at_start (suc k) xs [] h le = absurd (omega arith)
take-copy_at_start (suc k) [] (y ∷ ys) h le = absurd (omega arith)
take-copy_at_start (suc k) (x ∷ xs) (y ∷ ys) h le =
    ap (◌∷◌ y) (take-copy_at_start k xs ys (omega arith) (omega arith))

module _ {w : Window} (v : IsValid w) where
  moved : Window
  moved = record w {
    buffer = copy_at w.buffer 0 (drop w.data_offset w.buffer);
    data_offset = 0;
    bytes_in_buffer = w.bytes_in_buffer - w.data_offset;
  }

  align-moved : (ltb 0 w.data_offset && ltb 0 w.bytes_in_buffer) ≡ true → align w ≡ moved
  unfolding align moved
  align-moved h =
      let whole : min w.data_offset w.bytes_in_buffer ≡ w.data_offset = omega (arith, v.consumed) in
      let none_left : sub_size w.data_offset w.data_offset ≡ 0 =
        omega (arith, v.consumed, v.within) in
      let rest : sub_size w.bytes_in_buffer w.data_offset ≡ w.bytes_in_buffer - w.data_offset =
        omega (arith, v.consumed, v.within) in
      rw (h, whole, none_left, rest) refl

  moved-IsValid : IsValid moved
  unfolding moved
  moved-IsValid = record {
    storage = length-copy_at w.buffer 0 (drop w.data_offset w.buffer) ∙ v.storage;
    within = omega (arith, v.within);
    consumed = omega arith;
  }

  buffered-moved : buffered moved ≡ buffered w
  unfolding moved
  buffered-moved =
      take-copy_at_start (w.bytes_in_buffer - w.data_offset) w.buffer (drop w.data_offset w.buffer)
        (omega (arith, length-drop w.data_offset w.buffer, v.storage, v.within))
        (omega (arith, length-drop w.data_offset w.buffer))
      ∙ sym (drop-take w.data_offset w.bytes_in_buffer w.buffer)

  -- What was consumed leaves the buffer, and nothing that is pending.
  pub align_lem : IsValid (align w) × (pending (align w) ≡ pending w) × ((align w).data_offset ≡ 0)
  unfolding align moved
  align_lem = elim (Bool-cases (ltb 0 w.data_offset && ltb 0 w.bytes_in_buffer)) [
    | inl some_consumed ↦
        subst (λ u. IsValid u × (pending u ≡ pending w) × (u.data_offset ≡ 0))
          (sym (align-moved some_consumed))
          (moved-IsValid, ap (λ b. b ++ coming w.istr) buffered-moved, refl)
    | inr none_consumed ↦ rw none_consumed (v, refl, ground (arith, v.consumed))
  ]

  got : List ℕ
  got = (read w.istr (buffer_size - w.bytes_in_buffer)).0

  filled : Window
  unfolding got
  filled = record w {
    istr = (read w.istr (buffer_size - w.bytes_in_buffer)).1;
    buffer = copy_at w.buffer w.bytes_in_buffer got;
    bytes_in_buffer = w.bytes_in_buffer + length got;
  }

  length-got : length got ≡ min (buffer_size - w.bytes_in_buffer) (length (coming w.istr))
  unfolding got
  length-got =
      ap length (read-coming w.istr (buffer_size - w.bytes_in_buffer)).0
      ∙ length-take (buffer_size - w.bytes_in_buffer) (coming w.istr)

  fill-filled : ltb w.bytes_in_buffer 4200 ≡ true → fill w ≡ filled
  unfolding fill filled got
  fill-filled h =
      let room : sub_size (length w.buffer) w.bytes_in_buffer ≡ buffer_size - w.bytes_in_buffer =
        omega (arith, v.storage, v.within) in
      let sum : add_size w.bytes_in_buffer (length got) ≡ w.bytes_in_buffer + length got =
        omega (arith, length-got, v.within) in
      rw (h, room, sum) refl

  filled-IsValid : IsValid filled
  unfolding filled
  filled-IsValid = record {
    storage = length-copy_at w.buffer w.bytes_in_buffer got ∙ v.storage;
    within = omega (arith, length-got, v.within);
    consumed = omega (arith, v.consumed);
  }

  pending-filled : pending filled ≡ pending w
  unfolding filled got
  pending-filled =
      ap₂ (λ held rest. drop w.data_offset held ++ rest)
        (take-copy_at w.buffer w.bytes_in_buffer got
          (omega (arith, length-got, v.within, v.storage)))
        taken.1
      ∙ ap (λ held. held ++ drop room (coming w.istr))
          (drop-append w.data_offset (take w.bytes_in_buffer w.buffer) got (
            omega (arith, length-take w.bytes_in_buffer w.buffer, v.consumed, v.within, v.storage)))
      ∙ append_assoc (buffered w) got (drop room (coming w.istr))
      ∙ ap (◌++◌ (buffered w))
          (ap (λ g. g ++ drop room (coming w.istr)) taken.0 ∙ take-append-drop room (coming w.istr))
    where
      room : ℕ
      room = buffer_size - w.bytes_in_buffer

      taken :
          ((read w.istr (buffer_size - w.bytes_in_buffer)).0
            ≡ take (buffer_size - w.bytes_in_buffer) (coming w.istr))
          × (coming (read w.istr (buffer_size - w.bytes_in_buffer)).1
              ≡ drop (buffer_size - w.bytes_in_buffer) (coming w.istr))
      taken = read-coming w.istr (buffer_size - w.bytes_in_buffer)

  -- The buffer takes up what the stream gives; nothing pending is lost, and two frames or all that is
  -- pending are then in the buffer.
  pub fill_lem :
      IsValid (fill w)
      × (pending (fill w) ≡ pending w)
      × ((fill w).data_offset ≡ w.data_offset)
      × (min 4200 (w.data_offset + length (pending w)) ≤ (fill w).bytes_in_buffer)
  unfolding fill filled
  fill_lem = elim (Bool-cases (ltb w.bytes_in_buffer 4200)) [
    | inl low ↦
        subst
          (λ u.
            IsValid u
            × (pending u ≡ pending w)
            × (u.data_offset ≡ w.data_offset)
            × (min 4200 (w.data_offset + length (pending w)) ≤ u.bytes_in_buffer))
          (sym (fill-filled low))
          (filled-IsValid, pending-filled, refl, omega (arith, length-got, held, sum, v.consumed))
    | inr high ↦ rw high (v, refl, refl, ground arith)
  ]
    where
      held : length (buffered w) ≡ w.bytes_in_buffer - w.data_offset
      held = omega (
        arith,
        length-drop w.data_offset (take w.bytes_in_buffer w.buffer),
        length-take w.bytes_in_buffer w.buffer,
        v.within,
        v.storage,
      )

      sum : length (pending w) ≡ length (buffered w) + length (coming w.istr)
      sum = length-append (buffered w) (coming w.istr)

-- The buffer after the start of `readSample`.
module _ {w : Window} (v : IsValid w) where
  pub refilled :
      IsValid (fill (align w))
      × (pending (fill (align w)) ≡ pending w)
      × ((fill (align w)).data_offset ≡ 0)
      × (min 4200 (length (pending w)) ≤ (fill (align w)).bytes_in_buffer)
  refilled =
      let a = align_lem v in
      let f = fill_lem a.0 in (f.0, f.1 ∙ a.1, f.2 ∙ a.2, omega (arith, f.3, a.2, ap length a.1))

  pub refilled-le : (fill (align w)).bytes_in_buffer ≤ length (pending w)
  refilled-le =
      let r = refilled in
      omega (
        arith,
        ap length r.1,
        r.2,
        r.0.storage,
        r.0.within,
        length-append (buffered (fill (align w))) (coming (fill (align w)).istr),
        length-drop (fill (align w)).data_offset
            (take (fill (align w)).bytes_in_buffer (fill (align w)).buffer),
        length-take (fill (align w)).bytes_in_buffer (fill (align w)).buffer,
      )
