-- ===== src/Spdif.antt =====
-- main/audio-sinks/esp/SPDIFAudioSink.cpp: PCM samples become S/PDIF words in a buffer whose other words
-- hold the preambles. What `feedPCMFramesInternal` hands to the I2S driver is the list of buffers sent.
pub mod Table
pub mod Biphase
pub mod Blocks
mod Tests
use Prim.Native.Nat.{bit_xor}
use bell.Prelude.{
  ℕ, zero, suc, ◌+◌, ◌-◌, ◌*◌, ◌/◌, ◌%◌, ◌^◌, List, [], ◌∷◌, ◌++◌, Option, none, some, ◌>>=?◌,
  replicate, copy_at, ltb, leb, if◌then◌else◌,
}
use bell.Spdif.Table.{bmc}

-- SPDIF_BUF_ARRAY_SIZE: 64 bits for each of two subframes, in each of 192 frames
abbrev pub spdif_buf_array_size : ℕ
spdif_buf_array_size = 768

abbrev pub bmc_b : ℕ
bmc_b = 0x33173333

abbrev pub bmc_m : ℕ
bmc_m = 0x331d3333

abbrev pub bmc_w : ℕ
bmc_w = 0x331b3333

-- `spdif_buf` and `spdif_ptr`
pub record Spdif : Type 0 where
  pub buf : List ℕ
  pub ptr : ℕ

-- The loop of `spdif_buf_init`, from an index on.
unfoldable pub init_from : ℕ → ℕ → ℕ → List ℕ → List ℕ
init_from zero i bmc_mw buf = buf
init_from (suc rounds) i bmc_mw buf =
    let next = bit_xor bmc_mw (bit_xor bmc_m bmc_w) in
    init_from rounds (i + 2) next (copy_at buf i (next ∷ []))

-- `spdif_buf_init` over the static buffer, and the pointer set to its start.
unfoldable pub spdif_buf_init : Spdif
unfolding init_from
spdif_buf_init = record {
  buf = init_from 383 2 bmc_m (copy_at (replicate spdif_buf_array_size 0) 0 (bmc_b ∷ []));
  ptr = 0;
}

-- `(uint32_t)(int16_t)v`
unfoldable pub sign_extend : ℕ → ℕ
sign_extend v = if ltb v (2 ^ 15) then v else (2 ^ 16 - 1) * 2 ^ 16 + v

-- The word of a sample, low byte first.
unfoldable pub sample_word : ℕ → ℕ → ℕ
unfolding sign_extend bmc
sample_word low high = bit_xor (bmc low * 2 ^ 16) (sign_extend (bmc high)) * 2 % 2 ^ 32 / 2

-- A round of the loop of `feedPCMFrames`: the buffer sent, if it is full, and the state.
unfoldable pub feed_sample : Spdif → ℕ → ℕ → List (List ℕ) × Spdif
unfolding sample_word
feed_sample s low high =
    let buf = copy_at s.buf (s.ptr + 1) (sample_word low high ∷ []) in
    if leb spdif_buf_array_size (s.ptr + 2)
    then (buf ∷ [], record { buf = buf; ptr = 0 })
    else ([], record { buf = buf; ptr = s.ptr + 2 })

-- `feedPCMFrames`; with an odd number of bytes it reads behind their end, and the result is `none`.
unfoldable pub feed_pcm_frames : Spdif → List ℕ → Option (List (List ℕ) × Spdif)
unfolding feed_sample
feed_pcm_frames s [] = some ([], s)
feed_pcm_frames s (low ∷ []) = none
feed_pcm_frames s (low ∷ (high ∷ bytes)) =
    feed_pcm_frames (feed_sample s low high).1 bytes
    >>=? (λ fed. some ((feed_sample s low high).0 ++ fed.0, fed.1))
