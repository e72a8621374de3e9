-- ===== src/BufferedStream.antt =====
-- main/io/BufferedStream.cpp and its header: a stream that a task reads ahead into a circular buffer. The
-- pointers into `buf` are offsets. The methods, and the inner loop of `runTask`, are modelled as they are
-- when the other thread does nothing meanwhile.
pub mod Rounds
pub mod Filling
mod Tests
use bell.Prelude.{
  ℕ, zero, suc, ◌+◌, ◌-◌, ◌%◌, ◌^◌, ◌≤◌, Bool, true, false, not, ◌&&◌, ◌||◌, List, [], ◌∷◌, ◌++◌,
  Option, none, some, ◌>>=?◌, min, length, take, drop, copy_at, ltb, leb, ◌==◌, if◌then◌else◌,
}

-- Sums and differences of `uint32_t`.
abbrev pub add_u32 : ℕ → ℕ → ℕ
add_u32 a b = (a + b) % 2 ^ 32

abbrev pub sub_u32 : ℕ → ℕ → ℕ
sub_u32 a b = (a + 2 ^ 32 - b) % 2 ^ 32

-- `class BufferedStream` but for the two threads' semaphores and mutexes; `has_source` and `has_reader`
-- tell whether `source` and `reader` are set.
pub record Buffered : Type 0 where
  pub buffer_size : ℕ
  pub read_at : ℕ
  pub read_size : ℕ
  pub ready_threshold : ℕ
  pub not_ready_threshold : ℕ
  pub wait_for_ready : Bool
  pub buf : List ℕ
  pub read_ptr : ℕ
  pub write_ptr : ℕ
  pub read_total : ℕ
  pub buffer_total : ℕ
  pub read_available : ℕ
  pub running : Bool
  pub terminate : Bool
  pub has_source : Bool
  pub has_reader : Bool

unfoldable pub reset : Buffered → Buffered
reset b = record b {
  read_ptr = 0;
  write_ptr = 0;
  read_total = 0;
  buffer_total = 0;
  read_available = 0;
  terminate = false;
}

-- The constructor; `unset` is what `malloc` returns.
unfoldable pub create : List ℕ → ℕ → ℕ → ℕ → ℕ → ℕ → Bool → Buffered
create unset buffer_size read_threshold read_size ready_threshold not_ready_threshold
      wait_for_ready =
    record {
      buffer_size = buffer_size;
      read_at = sub_u32 buffer_size read_threshold;
      read_size = read_size;
      ready_threshold = ready_threshold;
      not_ready_threshold = not_ready_threshold;
      wait_for_ready = wait_for_ready;
      buf = unset;
      read_ptr = 0;
      write_ptr = 0;
      read_total = 0;
      buffer_total = 0;
      read_available = 0;
      running = false;
      terminate = false;
      has_source = false;
      has_reader = false;
    }

-- `open` of a stream, and of a reader, up to `startTask`, where no task runs; the stream handed to it
-- may be null.
unfoldable pub open_stream : Buffered → Bool → Buffered
unfolding reset
open_stream b some_stream = record (reset b) { has_source = some_stream }

unfoldable pub open_reader : Buffered → ℕ → Buffered
unfolding reset
open_reader b initial_offset = record (reset b) { has_reader = true; buffer_total = initial_offset }

unfoldable pub is_ready : Buffered → Bool
is_ready b = leb b.ready_threshold b.read_available

unfoldable pub is_not_ready : Buffered → Bool
is_not_ready b = ltb b.read_available b.not_ready_threshold

-- `lengthBetween`
unfoldable pub length_between : Buffered → ℕ → ℕ → ℕ
length_between b me other = if leb other me then b.buffer_size - me else other - me

-- A pointer that has come to `bufEnd` goes back to `buf`.
abbrev pub wrap : Buffered → ℕ → ℕ
wrap b ptr = if leb b.buffer_size ptr then 0 else ptr

-- A round of the loop of `read`: the bytes that it copies out.
abbrev pub round_length : Buffered → ℕ → ℕ
round_length b to_read_total = min to_read_total (length_between b b.read_ptr b.write_ptr)

unfoldable pub read_round : Buffered → ℕ → List ℕ × Buffered
unfolding length_between
read_round b to_read = (
  take to_read (drop b.read_ptr b.buf),
  record b {
    read_available = sub_u32 b.read_available to_read;
    read_ptr = wrap b (b.read_ptr + to_read);
    read_total = add_u32 b.read_total to_read;
  },
)

-- That loop, on fuel.
unfoldable pub read_loop : ℕ → Buffered → ℕ → Option (List ℕ × Buffered)
unfolding length_between
read_loop zero b to_read_total = none
read_loop (suc fuel) b to_read_total =
    let (chunk, b') = read_round b (round_length b to_read_total) in
    let rest = read_loop fuel b' (to_read_total - round_length b to_read_total) in
    if to_read_total == 0 then some ([], b) else rest >>=? (λ more. some (chunk ++ more.0, more.1))

-- The spin at the start of `read` goes on.
unfoldable pub waits : Buffered → Bool
unfolding is_ready is_not_ready
waits b =
    b.wait_for_ready && (is_not_ready b && ((b.has_source || b.has_reader) && not (is_ready b)))

-- `read`; where it spins and the other thread does nothing, it does not return.
unfoldable pub read : ℕ → Buffered → ℕ → Option (List ℕ × Buffered)
unfolding reset waits
read fuel b len =
    if waits b
    then none
    else if not b.running && b.read_available == 0
    then some ([], reset b)
    else read_loop fuel b (min b.read_available (len % 2 ^ 32))

-- How much the task asks the source for.
unfoldable pub fill_room : Buffered → ℕ
unfolding length_between
fill_room b = min b.read_size (length_between b b.write_ptr b.read_ptr)

-- A round of the inner loop of `runTask`, in which the source gives these bytes.
unfoldable pub fill_round : Buffered → List ℕ → Buffered
fill_round b chunk = record b {
  buf = copy_at b.buf b.write_ptr chunk;
  read_available = add_u32 b.read_available (length chunk);
  buffer_total = add_u32 b.buffer_total (length chunk);
  write_ptr = wrap b (b.write_ptr + length chunk);
}

-- Whether the inner loop goes on after a round.
unfoldable pub fills_on : Buffered → ℕ → Bool
fills_on b len = not (len == 0) && ltb b.read_size (sub_u32 b.buffer_size b.read_available)

-- The inner loop of `runTask`, where `source` is set, with what the source gives round by round: the object,
-- and what the source has not been asked for. `none` where the loop asks for more.
unfoldable pub fill_loop : List (List ℕ) → Buffered → Option (Buffered × List (List ℕ))
fill_loop [] b = none
fill_loop (chunk ∷ chunks) b =
    let rest = fill_loop chunks (fill_round b chunk) in
    if fills_on (fill_round b chunk) (length chunk) then rest else some (fill_round b chunk, chunks)
