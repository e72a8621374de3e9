-- ===== src/CentralAudioBuffer/Tests.antt =====
-- A buffer for two chunks.
use bell.Prelude.{[], ◌∷◌, arith}
use bell.CentralAudioBuffer.{Format, make, flush, write_pcm}
use bell.CentralAudioBuffer.Chunk.{zero_chunk}
use bell.CentralAudioBuffer.Queue.{
  Holds, make-Holds, flush-Holds, GivesOldest, read_chunk-GivesOldest,
}
use bell.CentralAudioBuffer.Pcm.{IsFormat}
use bell.CentralAudioBuffer.Write.{Written, write_pcm-Written}

abbrev stereo : Format
stereo = record { hash = 7; sample_rate = 44100; channels = 2; sec = 0; usec = 0 }

stereo-IsFormat : IsFormat stereo
stereo-IsFormat = record {
  hash_fits = omega arith;
  rate_fits = omega arith;
  channels_fit = omega arith;
  sec_fits = omega arith;
  usec_fits = omega arith;
}

made-Holds : Holds 2 (make 2) []
made-Holds = make-Holds 2 (omega arith) (omega arith)

write_pcm-Written_example :
    Written 2 (make 2) stereo [] (1 ∷ 2 ∷ 3 ∷ []) (write_pcm (make 2) (1 ∷ 2 ∷ 3 ∷ []) stereo)
write_pcm-Written_example =
    write_pcm-Written stereo stereo-IsFormat made-Holds (1 ∷ 2 ∷ 3 ∷ []) (omega arith)

flushed-Holds : Holds 2 (flush (make 2)) (zero_chunk ∷ [])
unfolding make
flushed-Holds = flush-Holds made-Holds (omega arith)

read_chunk-GivesOldest_example : GivesOldest 2 (flush (make 2)) (zero_chunk ∷ [])
read_chunk-GivesOldest_example =
    read_chunk-GivesOldest 2 (flush (make 2)) (zero_chunk ∷ []) flushed-Holds
