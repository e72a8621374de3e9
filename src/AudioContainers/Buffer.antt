-- ===== src/AudioContainers/Buffer.antt =====
-- The buffer of main/audio-containers/ADTSContainer.cpp and MP3Container.cpp: the fields and the steps
-- that the two classes have in common.
use bell.Prelude.{
  ℕ, ◌+◌, List, min, length, take, drop, copy_at, replicate, ltb, ◌&&◌, if◌then◌else◌, add_size,
  sub_size,
}
use bell.Stream.{Stream, read}

-- AAC_MAX_FRAME_SIZE and MP3_MAX_FRAME_SIZE, and BUFFER_SIZE
abbrev pub max_frame_size : ℕ
max_frame_size = 2100

abbrev pub buffer_size : ℕ
buffer_size = 10240

pub record Window : Type 0 where
  pub istr : Stream
  pub buffer : List ℕ
  pub bytes_in_buffer : ℕ
  pub data_offset : ℕ

-- The constructors: no heading bytes, and the first seven of them.
unfoldable pub no_heading : Stream → Window
no_heading istr = record {
  istr = istr;
  buffer = replicate buffer_size 0;
  bytes_in_buffer = 0;
  data_offset = 0;
}

unfoldable pub heading : Stream → List ℕ → Window
heading istr heading_bytes = record {
  istr = istr;
  buffer = copy_at (replicate buffer_size 0) 0 (take 7 heading_bytes);
  bytes_in_buffer = 7;
  data_offset = 0;
}

-- The start of `readSample`: what has been consumed is moved out of the buffer.
unfoldable pub align : Window → Window
align w =
    let to_consume = min w.data_offset w.bytes_in_buffer in
    if ltb 0 w.data_offset && ltb 0 w.bytes_in_buffer
    then record w {
      buffer = copy_at w.buffer 0 (drop to_consume w.buffer);
      data_offset = sub_size w.data_offset to_consume;
      bytes_in_buffer = sub_size w.bytes_in_buffer to_consume;
    }
    else w

-- `fillBuffer` but for its result, which the two classes compute differently.
unfoldable pub fill : Window → Window
fill w =
    let (got, istr') = read w.istr (sub_size (length w.buffer) w.bytes_in_buffer) in
    if ltb w.bytes_in_buffer (max_frame_size + max_frame_size)
    then record w {
      istr = istr';
      buffer = copy_at w.buffer w.bytes_in_buffer got;
      bytes_in_buffer = add_size w.bytes_in_buffer (length got);
    }
    else w

-- `consumeBytes`
unfoldable pub consume_bytes : Window → ℕ → Window
consume_bytes w len = record w { data_offset = add_size w.data_offset len }
