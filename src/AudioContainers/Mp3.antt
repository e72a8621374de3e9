-- ===== src/AudioContainers/Mp3.antt =====
-- main/audio-containers/MP3Container.cpp. `MP3FindSyncWord` of the MP3 decoder is the parameter
-- `find_sync_word`, with `none` for a negative offset.
use bell.Prelude.{
  ℕ, ◌*◌, ◌%◌, ◌^◌, List, Option, none, some, take, leb, if◌then◌else◌, add_size, sub_size,
}
use bell.AudioContainers.Buffer.{Window, align, fill, max_frame_size}

-- `readSample` once the sync word has been looked for: where the sample stands, or `none` for `nullptr`;
-- the new value of `len`, or `none` where it is not assigned; and the container.
unfoldable pub sample_at : Window → Option ℕ → Option ℕ × Option ℕ × Window
sample_at w none = (none, none, record w { data_offset = max_frame_size })
sample_at w (some start_offset) = (
  some (add_size w.data_offset start_offset),
  some (sub_size w.bytes_in_buffer (add_size w.data_offset start_offset) % 2 ^ 32),
  record w { data_offset = add_size w.data_offset start_offset },
)

module _ (find_sync_word : List ℕ → Option ℕ) where
  unfoldable pub read_sample : Window → Option ℕ × Option ℕ × Window
  unfolding sample_at
  read_sample w =
      let filled = fill (align w) in
      if leb (2 * max_frame_size) filled.bytes_in_buffer
      then sample_at filled (find_sync_word (take filled.bytes_in_buffer filled.buffer))
      else (none, some 0, filled)
