-- ===== src/CentralAudioBuffer.antt =====
-- main/audio-dsp/include/CentralAudioBuffer.h: PCM data in chunks, over the byte ring of
-- main/io/CircularBuffer.cpp. Each method holds `dataAccessMutex`, so it is one step. A chunk is stored as
-- its bytes lie in memory: packed, on a little-endian machine whose `size_t` has 64 bits.
pub mod Chunk
pub mod Queue
pub mod Pcm
pub mod Write
mod Tests
use bell.Prelude.{
  ℕ, ◌+◌, ◌-◌, ◌*◌, ◌%◌, ◌^◌, Bool, true, false, not, ◌&&◌, ◌||◌, List, [], ◌∷◌, ◌++◌, Option, none,
  some, length, take, drop, replicate, copy_at, ltb, leb, ◌==◌, if◌then◌else◌, add_size, sub_size,
}
use bell.CircularBuffer.{Ring, create, size, capacity, write, read, empty_buffer}
use bell.CentralAudioBuffer.Chunk.{
  AudioChunk, pcm_chunk_size, chunk_size, encode, decode, zero_chunk,
}

-- `class CentralAudioBuffer`; `last_read_chunk` is what `readChunk` points to.
pub record CentralBuffer : Type 0 where
  pub audio_buffer : Ring
  pub current_chunk : AudioChunk
  pub has_chunk : Bool
  pub last_read_chunk : AudioChunk
  pub current_sample_rate : ℕ
  pub is_locked : Bool

-- The constructor, for so many chunks.
unfoldable pub make : ℕ → CentralBuffer
make chunks = record {
  audio_buffer = create (chunks * chunk_size);
  current_chunk = zero_chunk;
  has_chunk = false;
  last_read_chunk = zero_chunk;
  current_sample_rate = 44100;
  is_locked = false;
}

unfoldable pub clear_buffer : CentralBuffer → CentralBuffer
clear_buffer c = record c { audio_buffer = empty_buffer c.audio_buffer; has_chunk = false }

unfoldable pub empty_completely : CentralBuffer → CentralBuffer
empty_completely c = record c { audio_buffer = empty_buffer c.audio_buffer }

unfoldable pub has_at_least : CentralBuffer → ℕ → Bool
unfolding size
has_at_least c chunks = leb (chunks * chunk_size % 2 ^ 64) (size c.audio_buffer)

-- `lockAccess` and `unlockAccess`; the mutex that they take and free is `is_locked`.
unfoldable pub lock_access : CentralBuffer → CentralBuffer
unfolding clear_buffer
lock_access c = if c.is_locked then c else record (clear_buffer c) { is_locked = true }

unfoldable pub unlock_access : CentralBuffer → CentralBuffer
unfolding clear_buffer
unlock_access c = if c.is_locked then record (clear_buffer c) { is_locked = false } else c

-- `readChunk`; `none` is `nullptr`.
unfoldable pub read_chunk : CentralBuffer → Option AudioChunk × CentralBuffer
unfolding size
read_chunk c =
    if ltb (size c.audio_buffer) chunk_size
    then (none, record c { last_read_chunk = record c.last_read_chunk { pcm_size = 0 } })
    else let (n, bytes, ring) = read c.audio_buffer chunk_size in
      let chunk = decode bytes in
      (
        some chunk,
        record c {
          audio_buffer = ring;
          last_read_chunk = chunk;
          current_sample_rate = chunk.sample_rate;
        },
      )

-- The arguments of `writePCM` that a new chunk records. `bitWidth` is not used.
pub record Format : Type 0 where
  pub hash : ℕ
  pub sample_rate : ℕ
  pub channels : ℕ
  pub sec : ℕ
  pub usec : ℕ

-- The current chunk is done: it is of another track, or full.
unfoldable pub is_done : CentralBuffer → Format → Bool
is_done c f =
    c.has_chunk
    && (not (c.current_chunk.track_hash == f.hash) || leb pcm_chunk_size c.current_chunk.pcm_size)

-- The chunk goes into the ring.
unfoldable pub flush : CentralBuffer → CentralBuffer
flush c = record c {
  has_chunk = false;
  audio_buffer = (write c.audio_buffer (encode c.current_chunk)).1;
}

-- "New chunk requested, initialize"
unfoldable pub begin_chunk : CentralBuffer → Format → CentralBuffer
begin_chunk c f = if c.has_chunk then c else record c {
  current_chunk = record c.current_chunk {
    track_hash = f.hash;
    sample_rate = f.sample_rate;
    channels = f.channels;
    bit_width = 16;
    sec = f.sec;
    usec = f.usec;
    pcm_size = 0;
  };
  has_chunk = true;
}

-- How much of the data fits the current chunk.
unfoldable pub to_write_size : CentralBuffer → ℕ → ℕ
to_write_size c data_size =
    if ltb pcm_chunk_size (add_size c.current_chunk.pcm_size data_size)
    then sub_size pcm_chunk_size c.current_chunk.pcm_size
    else data_size

-- The end of `writePCM`: the data goes into the current chunk.
unfoldable pub fill_chunk : CentralBuffer → List ℕ → ℕ × CentralBuffer
unfolding to_write_size
fill_chunk c bytes =
    let n = to_write_size c (length bytes) in
    let chunk = c.current_chunk in
    (
      n,
      record c {
        current_chunk = record chunk {
          pcm_data = copy_at chunk.pcm_data chunk.pcm_size (take n bytes);
          pcm_size = add_size chunk.pcm_size n;
        };
      },
    )

-- `writePCM`: the count that it returns, and the buffer.
unfoldable pub write_pcm : CentralBuffer → List ℕ → Format → ℕ × CentralBuffer
unfolding size capacity
write_pcm c bytes f =
    if is_done c f
    then if ltb (sub_size (size c.audio_buffer) (capacity c.audio_buffer)) chunk_size
      then (0, c)
      else fill_chunk (begin_chunk (flush c) f) bytes
    else fill_chunk (begin_chunk c f) bytes
