-- ===== src/Spdif/Tests.antt =====
-- Runs of main/audio-sinks/esp/SPDIFAudioSink.cpp and the theorems about it at concrete inputs.
use bell.Prelude.{ℕ, List, [], ◌∷◌, some, ◌%◌, ◌^◌, ◌≡◌, refl, ◌++◌, arith, get_or, true}
use bell.Spdif.{Spdif, feed_pcm_frames, init_from, spdif_buf_init, sample_word}
use bell.Spdif.Blocks.{IsFed, feed_pcm_frames-IsFed, spdif_buf_init-IsAt}
use bell.Spdif.Biphase.{bits, biphase, sample_word_lem}

-- The preamble of the second subframe.
init_run : get_or spdif_buf_init.buf 2 0 ≡ 0x331b3333
unfolding spdif_buf_init init_from
init_run = refl

sample_word_lem_example : sample_word 0x34 0x92 ≡ biphase (bits 8 0x92 ++ bits 8 0x34) true % 2 ^ 31
sample_word_lem_example = sample_word_lem 0x34 0x92 (omega arith) (omega arith)

-- The last subframe of a block is due.
abbrev late : Spdif
late = record { buf = spdif_buf_init.buf; ptr = 766 }

feed_pcm_frames-IsFed_example :
    (r : List (List ℕ) × Spdif) × (feed_pcm_frames late (0x34 ∷ (0x92 ∷ (0 ∷ (1 ∷ [])))) ≡ some r)
    × IsFed 383 2 r
feed_pcm_frames-IsFed_example =
    feed_pcm_frames-IsFed 383 2 late (0x34 ∷ (0x92 ∷ (0 ∷ (1 ∷ [])))) (omega arith)
      (spdif_buf_init-IsAt.0, refl) refl
