-- ===== src/AudioContainers/Frames.antt =====
-- What main/audio-containers/ADTSContainer.cpp delivers of a stream of ADTS frames.
use Prim.Native.Nat.{bit_and}
use mathlib.Core.Path.{subst}
use bell.Prelude.{
  ℕ, zero, suc, ◌+◌, ◌≤◌, ◌<◌, ◌≡◌, refl, sym, ap, ◌∙◌, true, false, List, [], ◌∷◌, ◌++◌, none,
  some, arith, length, get_elem?, take, drop, ltb, leb, ◌==◌, sub_size, length-take, length-append,
  take-length-append, drop-length-append, append_assoc, take-take, drop-append,
}
use bell.AudioContainers.Buffer.{Window, align, fill, consume_bytes, max_frame_size, buffer_size}
use bell.AudioContainers.Pending.{IsValid, pending, coming, refilled, refilled-le}
use bell.AudioContainers.Adts.{
  AdtsContainer, Run, done, ◌>>=◌, inside, byte_at, sync_verify, frame_size, deliver, take_sample,
  read_sample,
}

-- A frame: a header that carries the sync word and the frame's own length, which is at most the
-- largest frame.
pub record IsFrame (xs : List ℕ) : Type 0 where
  pub synced : sync_verify xs 0 ≡ done true
  pub sized : frame_size xs 0 ≡ done (length xs)
  pub header : 7 ≤ length xs
  pub bounded : length xs ≤ max_frame_size

take-append_left : (n : ℕ) (xs ys : List ℕ) → n ≤ length xs → take n (xs ++ ys) ≡ take n xs
take-append_left zero xs ys h = refl
take-append_left (suc n) [] ys h = absurd (omega arith)
take-append_left (suc n) (x ∷ xs) ys h = ap (◌∷◌ x) (take-append_left n xs ys (omega arith))

get_elem-take : (n : ℕ) (xs : List ℕ) (i : ℕ) → i < n → get_elem? (take n xs) i ≡ get_elem? xs i
get_elem-take zero xs i h = absurd (omega arith)
get_elem-take (suc n) [] i h = refl
get_elem-take (suc n) (x ∷ xs) zero h = refl
get_elem-take (suc n) (x ∷ xs) (suc i) h = get_elem-take n xs i (omega arith)

some_at : (xs : List ℕ) (i : ℕ) → i < length xs → (c : ℕ) × (get_elem? xs i ≡ some c)
some_at [] i h = absurd (omega arith)
some_at (x ∷ xs) zero h = (x, refl)
some_at (x ∷ xs) (suc i) h = some_at xs i (omega arith)

module _ (buffer xs : List ℕ) (starts : take (length xs) buffer ≡ xs) where
  same_byte : (i : ℕ) → i < length xs → get_elem? buffer i ≡ get_elem? xs i
  same_byte i h = sym (get_elem-take (length xs) buffer i h) ∙ ap (λ l. get_elem? l i) starts

  byte_at-start : (i : ℕ) → i < length xs → byte_at buffer i ≡ byte_at xs i
  unfolding byte_at
  byte_at-start i h = ap inside (same_byte i h)

  byte_at-some : (i : ℕ) → i < length xs → (c : ℕ) × (byte_at buffer i ≡ done c)
  unfolding byte_at
  byte_at-some i h = let c = some_at xs i h in (c.0, ap inside (same_byte i h ∙ c.1))

  header-start :
      7 ≤ length xs
      → (sync_verify buffer 0 ≡ sync_verify xs 0) × (frame_size buffer 0 ≡ frame_size xs 0)
  unfolding sync_verify frame_size
  header-start h = (
    rw (byte_at-start 0 (omega arith), byte_at-start 1 (omega arith)) refl,
    rw (byte_at-start 3 (omega arith), byte_at-start 4 (omega arith), byte_at-start 5 (omega arith))
        refl,
  )

-- The bytes at the start of what is pending, when they are in the buffer.
pending-start :
    {w : Window} (xs rest : List ℕ)
    → IsValid w
    → w.data_offset ≡ 0
    → pending w ≡ xs ++ rest
    → length xs ≤ w.bytes_in_buffer
    → take (length xs) w.buffer ≡ xs
pending-start {w} xs rest v start e le =
    sym (take-take (length xs) w.bytes_in_buffer w.buffer le)
    ∙ sym (
        take-append_left (length xs) held (coming w.istr)
          (omega (arith, length-take w.bytes_in_buffer w.buffer, v.storage, v.within)))
    ∙ ap (λ d. take (length xs) (drop d held ++ coming w.istr)) (sym start)
    ∙ ap (take (length xs)) e
    ∙ take-length-append xs rest
  where
    held : List ℕ
    held = take w.bytes_in_buffer w.buffer

-- A sample that stands at the start of the buffer.
module _ (fuel : ℕ) (c : AdtsContainer) (xs : List ℕ) (f : IsFrame xs)
    (start : c.window.data_offset ≡ 0) (fits : length xs ≤ c.window.bytes_in_buffer)
    (within : c.window.bytes_in_buffer ≤ buffer_size)
    (starts : take (length xs) c.window.buffer ≡ xs) where
  take_frame :
      (c' : AdtsContainer) × (take_sample fuel c
        ≡ done (some (c.window.data_offset, length xs), c'))
      × (c'.window ≡ c.window)
  unfolding take_sample deliver
  take_frame =
      let flags = byte_at-some c.window.buffer xs starts 1 (omega (arith, f.header)) in
      let same = header-start c.window.buffer xs starts f.header in
      let synced : sync_verify c.window.buffer c.window.data_offset ≡ done true =
        ap (sync_verify c.window.buffer) start ∙ same.0 ∙ f.synced in
      let sized : frame_size c.window.buffer c.window.data_offset ≡ done (length xs) =
        ap (frame_size c.window.buffer) start ∙ same.1 ∙ f.sized in
      let flagged : byte_at c.window.buffer (c.window.data_offset + 1) ≡ done flags.0 =
        ap (byte_at c.window.buffer) (omega (arith, start)) ∙ flags.1 in
      let whole : ltb (sub_size c.window.bytes_in_buffer c.window.data_offset) (length xs) ≡ false =
        ground arith in
      (
        record c { protection_absent = bit_and flags.0 1 == 1 },
        rw (synced, flagged, sized, whole) refl,
        refl,
      )

-- What is pending once the sample at the start has been consumed.
module _ {w : Window} (xs rest : List ℕ) (v : IsValid w) (start : w.data_offset ≡ 0)
    (e : pending w ≡ xs ++ rest) (le : length xs ≤ w.bytes_in_buffer) where
  consumed_offset : (consume_bytes w (length xs)).data_offset ≡ length xs
  unfolding consume_bytes
  consumed_offset = omega (arith, start, v.within)

  consume-IsValid : IsValid (consume_bytes w (length xs))
  unfolding consume_bytes
  consume-IsValid = record {
    storage = v.storage;
    within = v.within;
    consumed = omega (arith, start, v.within);
  }

  consume-pending : pending (consume_bytes w (length xs)) ≡ rest
  unfolding consume_bytes
  consume-pending =
      ap (λ d. drop d held ++ coming w.istr) consumed_offset
      ∙ sym (
          drop-append (length xs) held (coming w.istr)
            (omega (arith, length-take w.bytes_in_buffer w.buffer, v.storage, v.within)))
      ∙ ap (λ d. drop (length xs) (drop d held ++ coming w.istr)) (sym start)
      ∙ ap (drop (length xs)) e
      ∙ drop-length-append xs rest
    where
      held : List ℕ
      held = take w.bytes_in_buffer w.buffer

-- The container has delivered `xs`, and the rest is still pending.
record Delivers (fuel : ℕ) (c : AdtsContainer) (xs rest : List ℕ) : Type 0 where
  pub after : AdtsContainer
  pub answer : read_sample fuel c ≡ done (some (after.window.data_offset, length xs), after)
  pub sample : take (length xs) (drop after.window.data_offset after.window.buffer) ≡ xs
  pub valid : IsValid (consume_bytes after.window (length xs))
  pub left : pending (consume_bytes after.window (length xs)) ≡ rest

read_sample-Delivers :
    (fuel : ℕ) (c : AdtsContainer) (xs rest : List ℕ)
    → IsValid c.window
    → IsFrame xs
    → pending c.window ≡ xs ++ rest
    → max_frame_size ≤ length (xs ++ rest)
    → Delivers fuel c xs rest
unfolding read_sample
read_sample-Delivers fuel c xs rest v f e enough =
    let r = refilled v in
    let filled : AdtsContainer = record c { window = fill (align c.window) } in
    let long : leb max_frame_size filled.window.bytes_in_buffer ≡ true =
      ground (arith, r.3, ap length e) in
    let whole : length xs ≤ filled.window.bytes_in_buffer =
      omega (arith, r.3, ap length e, f.bounded) in
    let here : pending filled.window ≡ xs ++ rest = r.1 ∙ e in
    let starts = pending-start xs rest r.0 r.2 here whole in
    let t = take_frame fuel filled xs f r.2 whole r.0.within starts in
    let kept = t.2 in
    let at : t.0.window.data_offset ≡ 0 = ap (λ w. w.data_offset) kept ∙ r.2 in
    record {
      after = t.0;
      answer = rw long t.1 ∙ ap (λ w. done (some (w.data_offset, length xs), t.0)) (sym kept);
      sample =
          ap (λ w. take (length xs) (drop w.data_offset w.buffer)) kept
          ∙ ap (λ d. take (length xs) (drop d filled.window.buffer)) r.2
          ∙ starts;
      valid =
          subst (λ w. IsValid (consume_bytes w (length xs))) (sym kept)
            (consume-IsValid xs rest r.0 r.2 here whole);
      left =
          ap (λ w. pending (consume_bytes w (length xs))) kept
          ∙ consume-pending xs rest r.0 r.2 here whole;
    }

-- A client that reads so many samples, and consumes each.
unfoldable pub read_samples : ℕ → ℕ → AdtsContainer → Run (List (List ℕ))
read_samples fuel zero c = done []
read_samples fuel (suc n) c = read_sample fuel c >>= λ got. elim got.0 [
  | none ↦ done []
  | some s ↦
      let next = record got.1 { window = consume_bytes got.1.window s.1 } in
      read_samples fuel n next >>= λ more. done (take s.1 (drop s.0 got.1.window.buffer) ∷ more)
]

abbrev pub AllFrames : List (List ℕ) → Type 0
AllFrames [] = Unit {0}
AllFrames (xs ∷ frames) = IsFrame xs × AllFrames frames

abbrev pub join : List (List ℕ) → List ℕ
join [] = []
join (xs ∷ frames) = xs ++ join frames

-- From a container that has frames pending, and behind them at least as many bytes as the largest
-- frame has, a client reads exactly those frames, one by one; no fuel is used.
pub read_samples-join :
    (fuel : ℕ) (c : AdtsContainer) (frames : List (List ℕ)) (rest : List ℕ)
    → IsValid c.window
    → AllFrames frames
    → pending c.window ≡ join frames ++ rest
    → max_frame_size ≤ length rest
    → read_samples fuel (length frames) c ≡ done frames
unfolding read_samples
read_samples-join fuel c [] rest v all e enough = refl
read_samples-join fuel c (xs ∷ frames) rest v all e enough =
    let d =
      read_sample-Delivers fuel c xs (join frames ++ rest) v all.0
        (e ∙ append_assoc xs (join frames) rest)
        (omega (arith, length-append xs (join frames ++ rest), length-append (join frames) rest)) in
    let next : AdtsContainer = record d.after {
      window = consume_bytes d.after.window (length xs);
    } in
    rw (d.answer, read_samples-join fuel next frames rest d.valid all.1 d.left enough)
      (ap (λ s. done (s ∷ frames)) d.sample)

-- Fewer bytes pending than the largest frame has are never delivered: `readSample` gives no sample, and
-- they stay pending.
pub read_sample_short :
    (fuel : ℕ) (c : AdtsContainer)
    → IsValid c.window
    → length (pending c.window) < max_frame_size
    → (c' : AdtsContainer) × (read_sample fuel c ≡ done (none, c'))
      × IsValid c'.window
      × (pending c'.window ≡ pending c.window)
unfolding read_sample
read_sample_short fuel c v short =
    let r = refilled v in
    let low : leb max_frame_size (fill (align c.window)).bytes_in_buffer ≡ false =
      ground (arith, refilled-le v) in
    (record c { window = fill (align c.window) }, rw low refl, r.0, r.1)
