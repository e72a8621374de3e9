-- ===== src/CircularBuffer/Fifo.antt =====
-- A valid ring is a bounded first-in first-out queue of bytes.
use bell.Prelude.{
  ℕ, ◌+◌, ◌-◌, ◌∷◌, append-nil, take-nil, ◌≤◌, ◌<◌, ◌≡◌, refl, sym, ap, ap₂, ◌∙◌, inl, inr, min,
  List, [], ◌++◌, arith, length, take, drop, get_or, copy_at, ltb, if◌then◌else◌, sub_size,
  tabulate, tabulate_ext, tabulate-add, tabulate-get_or, take-tabulate, drop-tabulate,
  length-tabulate, length-take, length-drop, take-all, length-append, get_or-append_left,
  get_or-append_right, eq-tabulate, get_or-take, get_or-drop, get_or-copy_at_below,
  get_or-copy_at_above, get_or-copy_at_in, Bool-cases, ◌==◌, take-min, drop-min, length-copy_at,
}
use bell.CircularBuffer.{Ring, put_chunk, write, get_chunk, read, empty_except}
use bell.CircularBuffer.Inv.{IsValid}

-- The index that lies `i` behind `begIndex`, going round at the capacity.
abbrev pub index : Ring → ℕ → ℕ
index r i =
    if ltb (r.beg_index + i) r.data_capacity
    then r.beg_index + i
    else r.beg_index + i - r.data_capacity

abbrev pub byte_at : Ring → ℕ → ℕ
byte_at r i = get_or r.buffer (index r i) 0

-- The bytes that the ring holds, oldest first.
abbrev pub contents : Ring → List ℕ
contents r = tabulate r.data_size (byte_at r)

module _ {r : Ring} (chunk : List ℕ) (v : IsValid r)
    (fits : length chunk + r.data_size ≤ r.data_capacity) where
  room : ℕ
  room = sub_size r.data_capacity r.end_index

  size-put : (put_chunk r chunk).data_size ≡ r.data_size + length chunk
  unfolding put_chunk
  size-put = ground arith

  byte_at-put_old : (i : ℕ) → i < r.data_size → byte_at (put_chunk r chunk) i ≡ byte_at r i
  unfolding put_chunk room
  byte_at-put_old i h = ground (
    arith,
    get_or-copy_at_below r.buffer r.end_index chunk (index r i) 0,
    get_or-copy_at_above r.buffer r.end_index chunk (index r i) 0,
    get_or-copy_at_below r.buffer r.end_index (take room chunk) (index r i) 0,
    get_or-copy_at_above (copy_at r.buffer r.end_index (take room chunk)) 0 (drop room chunk)
        (index r i) 0,
    length-take room chunk,
    length-drop room chunk,
  )

  byte_at-put_new :
      (i : ℕ) → i < length chunk → byte_at (put_chunk r chunk) (r.data_size + i) ≡ get_or chunk i 0
  unfolding put_chunk room
  byte_at-put_new i h = ground (
    arith,
    get_or-copy_at_in r.buffer r.end_index chunk i (index r (r.data_size + i)) 0,
    get_or-copy_at_in r.buffer r.end_index (take room chunk) i (index r (r.data_size + i)) 0,
    get_or-take room chunk i 0,
    get_or-copy_at_above (copy_at r.buffer r.end_index (take room chunk)) 0 (drop room chunk)
        (index r (r.data_size + i)) 0,
    get_or-copy_at_in (copy_at r.buffer r.end_index (take room chunk)) 0 (drop room chunk)
        (i - room) (index r (r.data_size + i)) 0,
    length-copy_at r.buffer r.end_index (take room chunk),
    get_or-drop room chunk (i - room) 0,
    length-take room chunk,
    length-drop room chunk,
  )

module _ {r : Ring} (v : IsValid r) where
  pub contents-put :
      (chunk : List ℕ)
      → length chunk + r.data_size ≤ r.data_capacity
      → contents (put_chunk r chunk) ≡ contents r ++ chunk
  contents-put chunk fits =
      ap (λ n. tabulate n (byte_at (put_chunk r chunk))) grown
      ∙ tabulate-add r.data_size (length chunk) _
      ∙ ap₂ ◌++◌ (tabulate_ext r.data_size _ _ (byte_at-put_old chunk v fits)) (
          tabulate_ext (length chunk) _ _ (byte_at-put_new chunk v fits)
          ∙ tabulate-get_or (length chunk) chunk 0 (omega arith)
          ∙ take-all (length chunk) chunk (omega arith))
    where
      grown : (put_chunk r chunk).data_size ≡ r.data_size + length chunk
      grown = size-put chunk v fits

  ahead : ℕ
  ahead = sub_size r.data_capacity r.beg_index

  length-taken : (n : ℕ) → n ≤ r.data_size → length (get_chunk r n).0 ≡ n
  unfolding get_chunk ahead
  length-taken n le = ground (
    arith,
    length-take n (drop r.beg_index r.buffer),
    length-append (take ahead (drop r.beg_index r.buffer)) (take (sub_size n ahead) r.buffer),
    length-take ahead (drop r.beg_index r.buffer),
    length-take (sub_size n ahead) r.buffer,
    length-drop r.beg_index r.buffer,
  )

  size-left : (n : ℕ) → n ≤ r.data_size → (get_chunk r n).1.data_size ≡ r.data_size - n
  unfolding get_chunk
  size-left n le = ground arith

  -- A byte that a read of `n` copies out, and one that it leaves.
  taken : (n i : ℕ) → n ≤ r.data_size → i < n → get_or (get_chunk r n).0 i 0 ≡ byte_at r i
  unfolding get_chunk ahead
  taken n i le lt = ground (
    arith,
    get_or-take n (drop r.beg_index r.buffer) i 0,
    get_or-drop r.beg_index r.buffer i 0,
    get_or-append_left (take ahead (drop r.beg_index r.buffer)) (take (sub_size n ahead) r.buffer) i
        0,
    get_or-append_right (take ahead (drop r.beg_index r.buffer)) (take (sub_size n ahead) r.buffer)
        i 0,
    get_or-take ahead (drop r.beg_index r.buffer) i 0,
    get_or-take (sub_size n ahead) r.buffer (i - ahead) 0,
    length-take ahead (drop r.beg_index r.buffer),
    length-drop r.beg_index r.buffer,
  )

  left :
      (n i : ℕ)
      → n ≤ r.data_size
      → i < r.data_size - n
      → byte_at (get_chunk r n).1 i ≡ byte_at r (n + i)
  unfolding get_chunk
  left n i le lt = ground arith

  pub get_chunk-contents :
      (n : ℕ)
      → n ≤ r.data_size
      → ((get_chunk r n).0 ≡ take n (contents r))
        × (contents (get_chunk r n).1 ≡ drop n (contents r))
  get_chunk-contents n le = (
    eq-tabulate n _ (byte_at r) 0 (length-taken n le) (λ i lt. taken n i le lt)
        ∙ sym (take-tabulate n r.data_size (byte_at r) le),
    ap (λ k. tabulate k (byte_at (get_chunk r n).1)) (size-left n le)
        ∙ tabulate_ext (r.data_size - n) _ _ (λ i lt. left n i le lt)
        ∙ sym (drop-tabulate n (r.data_size - n) (byte_at r))
        ∙ ap (λ k. drop n (tabulate k (byte_at r))) (omega arith),
  )

  -- `write` stores as many bytes as there is room for, in order, behind those that the ring holds,
  -- and returns their number.
  pub write_refines :
      (bytes : List ℕ)
      → ((write r bytes).0 ≡ min (length bytes) (r.data_capacity - r.data_size))
        × (contents (write r bytes).1 ≡ contents r ++ take (r.data_capacity - r.data_size) bytes)
  unfolding write
  write_refines [] = (
    omega arith,
    sym (
        ap (◌++◌ (contents r)) (take-nil (r.data_capacity - r.data_size))
        ∙ append-nil (contents r)),
  )
  write_refines (x ∷ xs) = rw write-cons (
    omega arith,
    contents-put (take fit (x ∷ xs)) (omega (arith, length-take fit (x ∷ xs)))
        ∙ ap (λ l. contents r ++ l) (ap (λ k. take k (x ∷ xs)) fit_lem ∙ take-min-length),
  )
    where
      fit : ℕ
      fit = min (length (x ∷ xs)) (sub_size r.data_capacity r.data_size)

      write-cons : write r (x ∷ xs) ≡ (fit, put_chunk r (take fit (x ∷ xs)))
      write-cons = ground arith

      fit_lem : fit ≡ min (r.data_capacity - r.data_size) (length (x ∷ xs))
      fit_lem = omega arith

      take-min-length :
          take (min (r.data_capacity - r.data_size) (length (x ∷ xs))) (x ∷ xs)
          ≡ take (r.data_capacity - r.data_size) (x ∷ xs)
      take-min-length = take-min (r.data_capacity - r.data_size) (length (x ∷ xs)) (x ∷ xs) refl

  -- `read` copies out the oldest bytes, as many as asked for and held, leaves the others, and
  -- returns their number.
  pub read_refines :
      (bytes : ℕ)
      → ((read r bytes).0 ≡ min bytes r.data_size)
        × ((read r bytes).1 ≡ take bytes (contents r))
        × (contents (read r bytes).2 ≡ drop bytes (contents r))
  unfolding read
  read_refines bytes = elim (Bool-cases (bytes == 0)) [
    | inl none_asked ↦ let e : bytes ≡ 0 = ground arith in rw e (omega arith, refl, refl)
    | inr some_asked ↦ rw some_asked (
      refl,
      got.0 ∙ take-min bytes r.data_size (contents r) (length-tabulate r.data_size (byte_at r)),
      got.1 ∙ drop-min bytes r.data_size (contents r) (length-tabulate r.data_size (byte_at r)),
    )
  ]
    where
      got :
          ((get_chunk r (min bytes r.data_size)).0 ≡ take (min bytes r.data_size) (contents r))
          × (contents (get_chunk r (min bytes r.data_size)).1
              ≡ drop (min bytes r.data_size) (contents r))
      got = get_chunk-contents (min bytes r.data_size) (omega arith)

  -- `emptyExcept` keeps the oldest bytes.
  pub empty_except-contents : (n : ℕ) → contents (empty_except r n) ≡ take n (contents r)
  unfolding empty_except
  empty_except-contents n =
      ap (λ k. tabulate k (byte_at r)) (ground arith)
      ∙ sym (take-tabulate (min n r.data_size) r.data_size (byte_at r) (omega arith))
      ∙ take-min n r.data_size (contents r) (length-tabulate r.data_size (byte_at r))
