-- ===== src/CircularBuffer/Inv.antt =====
-- The representation invariant of the ring, which every method keeps.
use bell.Prelude.{
  ℕ, ◌+◌, ◌^◌, ◌≤◌, ◌<◌, ◌≡◌, ◌⊎◌, inl, min, List, arith, length, take, drop, length-take,
  length-copy_at, length-replicate, copy_at, sub_size,
}
use bell.CircularBuffer.{
  Ring, create, put_chunk, write, get_chunk, read, empty_buffer, empty_except,
}

-- The indices lie inside the storage, and the bytes held run from `begIndex` to `endIndex`, going
-- round at most once. `empty_except` may leave `endIndex` at the capacity itself, and then a read may
-- leave the ring empty with `begIndex` at 0. There is room for a byte, and no object has 2^63 bytes.
pub record IsValid (r : Ring) : Type 0 where
  pub storage : length r.buffer ≡ r.data_capacity
  pub small : r.data_capacity < 2 ^ 63
  pub beg_in : r.beg_index < r.data_capacity
  pub end_in : r.end_index ≤ r.data_capacity
  pub size_in : r.data_size ≤ r.data_capacity
  pub runs :
      (r.end_index ≡ r.beg_index + r.data_size)
      ⊎ (r.end_index + r.data_capacity ≡ r.beg_index + r.data_size)
      ⊎ (r.end_index ≡ r.beg_index + r.data_size + r.data_capacity)

pub create-IsValid : (cap : ℕ) → 0 < cap → cap < 2 ^ 63 → IsValid (create cap)
unfolding create
create-IsValid cap p h = record {
  storage = length-replicate cap 0;
  small = h;
  beg_in = omega arith;
  end_in = omega arith;
  size_in = omega arith;
  runs = inl (omega arith);
}

pub put_chunk-IsValid :
    {r : Ring} (chunk : List ℕ)
    → IsValid r
    → length chunk + r.data_size ≤ r.data_capacity
    → IsValid (put_chunk r chunk)
unfolding put_chunk
put_chunk-IsValid {r} chunk v h = ground (
  arith,
  length-copy_at r.buffer r.end_index chunk,
  length-copy_at r.buffer r.end_index (take (sub_size r.data_capacity r.end_index) chunk),
  length-copy_at (copy_at r.buffer r.end_index (take (sub_size r.data_capacity r.end_index) chunk))
      0 (drop (sub_size r.data_capacity r.end_index) chunk),
)

pub get_chunk-IsValid : {r : Ring} (n : ℕ) → IsValid r → n ≤ r.data_size → IsValid (get_chunk r n).1
unfolding get_chunk
get_chunk-IsValid {r} n v h = ground arith

-- `write` keeps the invariant.
pub write-IsValid : {r : Ring} (bytes : List ℕ) → IsValid r → IsValid (write r bytes).1
unfolding write
write-IsValid {r} bytes v = ground (
  arith,
  put_chunk-IsValid (take (min (length bytes) (sub_size r.data_capacity r.data_size)) bytes) v,
  length-take (min (length bytes) (sub_size r.data_capacity r.data_size)) bytes,
)

-- `read` keeps the invariant.
pub read-IsValid : {r : Ring} (bytes : ℕ) → IsValid r → IsValid (read r bytes).2
unfolding read
read-IsValid {r} bytes v = ground (arith, get_chunk-IsValid (min bytes r.data_size) v)

pub empty_buffer-IsValid : {r : Ring} → IsValid r → IsValid (empty_buffer r)
unfolding empty_buffer
empty_buffer-IsValid v = ground arith

pub empty_except-IsValid : {r : Ring} (n : ℕ) → IsValid r → IsValid (empty_except r n)
unfolding empty_except
empty_except-IsValid n v = ground arith
