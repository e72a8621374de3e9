-- ===== src/CentralAudioBuffer/Chunk.antt =====
-- `AudioChunk` of main/audio-dsp/include/CentralAudioBuffer.h, and its bytes.
use bell.Prelude.{ℕ, ◌^◌, ◌≤◌, ◌<◌, ◌≡◌, List, ◌++◌, arith, length, take, drop, replicate, take-all}
use bell.BinaryStream.{le_bytes, le_value}
use bell.BinaryStream.Order.{le_value-le_bytes}

abbrev pub pcm_chunk_size : ℕ
pcm_chunk_size = 4096

-- `sizeof(AudioChunk)`
abbrev pub chunk_size : ℕ
chunk_size = 4126

pub record AudioChunk : Type 0 where
  pub sec : ℕ
  pub usec : ℕ
  pub track_hash : ℕ
  pub sample_rate : ℕ
  pub channels : ℕ
  pub bit_width : ℕ
  pub pcm_size : ℕ
  pub pcm_data : List ℕ

-- `{}`
unfoldable pub zero_chunk : AudioChunk
zero_chunk = record {
  sec = 0;
  usec = 0;
  track_hash = 0;
  sample_rate = 0;
  channels = 0;
  bit_width = 0;
  pcm_size = 0;
  pcm_data = replicate pcm_chunk_size 0;
}

-- The chunk as it lies in memory, and back.
unfoldable pub encode : AudioChunk → List ℕ
encode c =
    le_bytes 4 c.sec
    ++ (le_bytes 4 c.usec
        ++ (le_bytes 8 c.track_hash
            ++ (le_bytes 4 c.sample_rate
                ++ (le_bytes 1 c.channels
                    ++ (le_bytes 1 c.bit_width ++ (le_bytes 8 c.pcm_size ++ c.pcm_data))))))

abbrev pub value_at : ℕ → ℕ → List ℕ → ℕ
value_at offset w bytes = le_value (take w (drop offset bytes))

unfoldable pub decode : List ℕ → AudioChunk
decode bytes = record {
  sec = value_at 0 4 bytes;
  usec = value_at 4 4 bytes;
  track_hash = value_at 8 8 bytes;
  sample_rate = value_at 16 4 bytes;
  channels = value_at 20 1 bytes;
  bit_width = value_at 21 1 bytes;
  pcm_size = value_at 22 8 bytes;
  pcm_data = take pcm_chunk_size (drop 30 bytes);
}

-- The fields fit their types, and no more than a chunk's data counts.
pub record IsChunk (c : AudioChunk) : Type 0 where
  pub sec_fits : c.sec < 256 ^ 4
  pub usec_fits : c.usec < 256 ^ 4
  pub hash_fits : c.track_hash < 256 ^ 8
  pub rate_fits : c.sample_rate < 256 ^ 4
  pub channels_fit : c.channels < 256 ^ 1
  pub width_fits : c.bit_width < 256 ^ 1
  pub size_in : c.pcm_size ≤ pcm_chunk_size
  pub storage : length c.pcm_data ≡ pcm_chunk_size

pub length-encode : (c : AudioChunk) → IsChunk c → length (encode c) ≡ chunk_size
unfolding encode le_bytes
length-encode c v = omega (arith, v.storage)

pub decode-encode : (c : AudioChunk) → IsChunk c → decode (encode c) ≡ c
unfolding encode decode le_bytes
decode-encode c v i = record {
  sec = le_value-le_bytes 4 c.sec v.sec_fits i;
  usec = le_value-le_bytes 4 c.usec v.usec_fits i;
  track_hash = le_value-le_bytes 8 c.track_hash v.hash_fits i;
  sample_rate = le_value-le_bytes 4 c.sample_rate v.rate_fits i;
  channels = le_value-le_bytes 1 c.channels v.channels_fit i;
  bit_width = le_value-le_bytes 1 c.bit_width v.width_fits i;
  pcm_size = le_value-le_bytes 8 c.pcm_size (omega (arith, v.size_in)) i;
  pcm_data = take-all pcm_chunk_size c.pcm_data (omega (arith, v.storage)) i;
}
