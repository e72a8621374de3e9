-- ===== src/Spdif/Blocks.antt =====
-- The blocks that main/audio-sinks/esp/SPDIFAudioSink.cpp hands to the I2S driver keep their preambles.
use bell.Prelude.{
  ℕ, zero, suc, ◌+◌, ◌*◌, ◌<◌, ◌≡◌, refl, ap, ◌∙◌, List, [], ◌∷◌, ◌++◌, some, ◌>>=?◌, arith, length,
  get_or, copy_at, leb, ltb, length-append, Bool-cases, inl, inr, get_or-copy_at_below,
  get_or-copy_at_above, length-copy_at,
}
use bell.Spdif.{Spdif, spdif_buf_init, sample_word, feed_sample, feed_pcm_frames}

-- A whole block, every second word of it the preamble that `spdif_buf_init` stored there.
abbrev pub IsBlock : List ℕ → Type 0
IsBlock buf =
    (length buf ≡ 768) × ((k : ℕ) → get_or buf (2 * k) 0 ≡ get_or spdif_buf_init.buf (2 * k) 0)

pub data AllBlocks : List (List ℕ) → Type 0 where
  nothing_sent : AllBlocks []
  one_sent : (b : List ℕ) (bs : List (List ℕ)) → IsBlock b → AllBlocks bs → AllBlocks (b ∷ bs)

join-AllBlocks : (xs ys : List (List ℕ)) → AllBlocks xs → AllBlocks ys → AllBlocks (xs ++ ys)
join-AllBlocks xs ys nothing_sent h = h
join-AllBlocks xs ys (one_sent b bs ib rest) h =
    one_sent b (bs ++ ys) ib (join-AllBlocks bs ys rest h)

-- A state whose pointer is at the `k`th subframe of a block.
abbrev pub IsAt : ℕ → Spdif → Type 0
IsAt k s = IsBlock s.buf × (s.ptr ≡ 2 * k)

store-IsBlock :
    (buf : List ℕ) (i word : ℕ) → IsBlock buf → IsBlock (copy_at buf (2 * i + 1) (word ∷ []))
store-IsBlock buf i word (len, words) = (
  length-copy_at buf (2 * i + 1) (word ∷ []) ∙ len,
  λ k. elim (Bool-cases (ltb i k)) [
    | inl above ↦
        get_or-copy_at_above buf (2 * i + 1) (word ∷ []) (2 * k) 0 (ground arith) ∙ words k
    | inr below ↦
        get_or-copy_at_below buf (2 * i + 1) (word ∷ []) (2 * k) 0 (ground arith) ∙ words k
  ],
)

-- After `n` samples from the `k`th subframe on: whole blocks sent, and the state at the subframe that
-- is due, so that no sample is lost or doubled.
abbrev pub IsFed : ℕ → ℕ → List (List ℕ) × Spdif → Type 0
IsFed k n (sent, s) =
    AllBlocks sent × ((j : ℕ) × IsAt j s × (j < 384) × (j + 384 * length sent ≡ k + n))

feed_sample-IsFed :
    (k : ℕ) (s : Spdif) (low high : ℕ) → k < 384 → IsAt k s → IsFed k 1 (feed_sample s low high)
unfolding feed_sample
feed_sample-IsFed k s low high hk (block, at) =
    let full : leb 768 (s.ptr + 2) ≡ leb 383 k = ground arith in
    let stored = store-IsBlock s.buf k (sample_word low high) block in
    rw (full, at)
      (elim (Bool-cases (leb 383 k)) [
        | inl last ↦
            rw last
              (one_sent _ [] stored nothing_sent, (0, (stored, refl), omega arith, ground arith))
        | inr more ↦
            rw more (nothing_sent, (k + 1, (stored, omega arith), ground arith, omega arith))
      ])

-- From the `k`th subframe of a block on, `feedPCMFrames` of `2 n` bytes returns. It hands whole blocks
-- to the driver, each with the preambles that `spdif_buf_init` stored, and stays between subframes: with
-- the subframes of the blocks sent, those filled count `n` more than before.
pub feed_pcm_frames-IsFed :
    (k n : ℕ) (s : Spdif) (bytes : List ℕ)
    → k < 384
    → IsAt k s
    → length bytes ≡ 2 * n
    → (r : List (List ℕ) × Spdif) × (feed_pcm_frames s bytes ≡ some r) × IsFed k n r
unfolding feed_pcm_frames
feed_pcm_frames-IsFed k n s [] hk at e = (([], s), refl, (nothing_sent, (k, at, hk, omega arith)))
feed_pcm_frames-IsFed k n s (low ∷ []) hk at e = absurd (omega arith)
feed_pcm_frames-IsFed k zero s (low ∷ (high ∷ bytes)) hk at e = absurd (omega arith)
feed_pcm_frames-IsFed k (suc n) s (low ∷ (high ∷ bytes)) hk at e =
    let one = feed_sample s low high in
    let (first, (i, at_i, hi, sum)) = feed_sample-IsFed k s low high hk at in
    let (r, fed, (rest, (j, at_j, hj, total))) =
      feed_pcm_frames-IsFed i n one.1 bytes hi at_i (omega arith) in
    (
      (one.0 ++ r.0, r.1),
      ap (λ o. o >>=? (λ t. some (one.0 ++ t.0, t.1))) fed,
      (join-AllBlocks one.0 r.0 first rest, (j, at_j, hj, omega (arith, length-append one.0 r.0))),
    )

pub spdif_buf_init-IsAt : IsAt 0 spdif_buf_init
unfolding spdif_buf_init
spdif_buf_init-IsAt = ((refl, λ k. refl), refl)
