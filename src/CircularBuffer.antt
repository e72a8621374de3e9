-- ===== src/CircularBuffer.antt =====
-- main/io/CircularBuffer.cpp and main/io/include/CircularBuffer.h: the byte ring behind the audio
-- path. Each method holds `bufferMutex` from its first access to its last, so a method is one step.
-- `dataSemaphore` is never given or taken. A read or write is handed its bytes as a list, whose
-- length is the argument `bytes`.
pub mod Inv
pub mod Fifo
pub mod Refine
mod Tests
use bell.Prelude.{
  ℕ, ◌-◌, ◌≡◌, ◌≤◌, min, List, [], ◌++◌, length, take, drop, replicate, copy_at, ltb, leb, ◌==◌,
  if◌then◌else◌, add_size, sub_size,
}

-- `class CircularBuffer`
pub record Ring : Type 0 where
  pub beg_index : ℕ
  pub end_index : ℕ
  pub data_size : ℕ
  pub data_capacity : ℕ
  pub buffer : List ℕ

-- The constructor: a vector of `dataCapacity` zero bytes.
unfoldable pub create : ℕ → Ring
create data_capacity = record {
  beg_index = 0;
  end_index = 0;
  data_size = 0;
  data_capacity = data_capacity;
  buffer = replicate data_capacity 0;
}

unfoldable pub size : Ring → ℕ
size r = r.data_size

unfoldable pub capacity : Ring → ℕ
capacity r = r.data_capacity

-- The end of a single-step write: `endIndex += n; if (endIndex == dataCapacity) endIndex = 0`.
abbrev pub advance : ℕ → ℕ → ℕ → ℕ
advance index n cap = let next = add_size index n in if next == cap then 0 else next

-- The two ways of `write` once `bytesToWrite` is known; `chunk` is `data[0..bytesToWrite)`.
unfoldable pub put_chunk : Ring → List ℕ → Ring
put_chunk r chunk =
    let n = length chunk in
    let room = sub_size r.data_capacity r.end_index in
    if leb n room
    then record r {
      buffer = copy_at r.buffer r.end_index chunk;
      end_index = advance r.end_index n r.data_capacity;
      data_size = add_size r.data_size n;
    }
    else record r {
      buffer = copy_at (copy_at r.buffer r.end_index (take room chunk)) 0 (drop room chunk);
      end_index = sub_size n room;
      data_size = add_size r.data_size n;
    }

-- `write`: the count that it returns, and the ring.
unfoldable pub write : Ring → List ℕ → ℕ × Ring
write r bytes =
    if length bytes == 0
    then (0, r)
    else let to_write = min (length bytes) (sub_size r.data_capacity r.data_size) in
      (to_write, put_chunk r (take to_write bytes))

-- The two ways of `read` once `bytesToRead` is known, with the bytes copied to `data`.
unfoldable pub get_chunk : Ring → ℕ → List ℕ × Ring
get_chunk r n =
    let room = sub_size r.data_capacity r.beg_index in
    if leb n room
    then (
      take n (drop r.beg_index r.buffer),
      record r {
        beg_index = advance r.beg_index n r.data_capacity;
        data_size = sub_size r.data_size n;
      },
    )
    else (
      take room (drop r.beg_index r.buffer) ++ take (sub_size n room) r.buffer,
      record r { beg_index = sub_size n room; data_size = sub_size r.data_size n },
    )

-- `read`: the count that it returns, the bytes that it copied, and the ring.
unfoldable pub read : Ring → ℕ → ℕ × List ℕ × Ring
read r bytes =
    if bytes == 0
    then (0, [], r)
    else let to_read = min bytes r.data_size in
      let (out, r') = get_chunk r to_read in (to_read, out, r')

unfoldable pub empty_buffer : Ring → Ring
empty_buffer r = record r { beg_index = 0; data_size = 0; end_index = 0 }

-- The test on `endIndex` is `>`, so that it may come to stand at the capacity.
unfoldable pub empty_except : Ring → ℕ → Ring
empty_except r size_to_set =
    let kept = if ltb r.data_size size_to_set then r.data_size else size_to_set in
    let next = add_size r.beg_index kept in
    record r {
      data_size = kept;
      end_index = if ltb r.data_capacity next then sub_size next r.data_capacity else next;
    }
