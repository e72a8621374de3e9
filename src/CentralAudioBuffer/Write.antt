-- ===== src/CentralAudioBuffer/Write.antt =====
-- `writePCM` of main/audio-dsp/include/CentralAudioBuffer.h: what goes into the ring, and what is taken.
use mathlib.Core.Path.{subst}
use native.Mathlib.Decide.{dec_lt}
use bell.Prelude.{
  ℕ, ◌-◌, ◌^◌, ◌≤◌, ◌<◌, ◌≡◌, refl, sym, ap, ◌∙◌, true, false, ◌&&◌, inl, inr, List, [], ◌∷◌, ◌++◌,
  arith, min, length, take, ltb, leb, if◌then◌else◌, sub_size, Bool-cases, append-nil,
}
use bell.CentralAudioBuffer.{
  CentralBuffer, Format, is_done, flush, begin_chunk, fill_chunk, write_pcm,
}
use bell.CentralAudioBuffer.Chunk.{AudioChunk, chunk_size, pcm_chunk_size}
use bell.CentralAudioBuffer.Queue.{Holds, size-Holds, flush-Holds}
use bell.CentralAudioBuffer.Pcm.{
  pcm_of, pcm_of_all, taken, IsFormat, pcm_of_all-snoc, begin_chunk-HoldsOpen, fill_chunk-HoldsOpen,
}

-- The chunks in the ring after `writePCM`: the current one goes in if it is done and there is room.
abbrev pub queue_after : ℕ → CentralBuffer → Format → List AudioChunk → List AudioChunk
queue_after n c f q =
    if is_done c f then if leb n (length q) then q else q ++ c.current_chunk ∷ [] else q

-- How much data the chunk has that is to take more.
abbrev pub used : CentralBuffer → Format → ℕ
used c f = if is_done c f then 0 else if c.has_chunk then c.current_chunk.pcm_size else 0

-- How much of so many bytes `writePCM` takes: none where the current chunk is done and the ring is full,
-- and otherwise what fits the chunk.
abbrev pub accepted : ℕ → CentralBuffer → Format → List AudioChunk → ℕ → ℕ
accepted n c f q len =
    if is_done c f && leb n (length q) then 0 else min len (pcm_chunk_size - used c f)

pub record Written (n : ℕ) (c : CentralBuffer) (f : Format) (q : List AudioChunk) (bytes : List ℕ)
    (r : ℕ × CentralBuffer) : Type 0 where
  pub holds : Holds n r.1 (queue_after n c f q)
  pub data_taken : taken r.1 (queue_after n c f q) ≡ taken c q ++ take r.0 bytes
  pub count : r.0 ≡ accepted n c f q (length bytes)

begun_size :
    (c : CentralBuffer) (f : Format)
    → (begin_chunk c f).current_chunk.pcm_size
      ≡ (if c.has_chunk then c.current_chunk.pcm_size else 0)
unfolding begin_chunk
begun_size c f = ground arith

is_done-open : (c : CentralBuffer) (f : Format) → is_done c f ≡ true → c.has_chunk ≡ true
unfolding is_done
is_done-open c f e = ground arith

flush-taken :
    (c : CentralBuffer) (q : List AudioChunk)
    → c.has_chunk ≡ true
    → taken (flush c) (q ++ c.current_chunk ∷ []) ≡ taken c q
unfolding flush
flush-taken c q begun =
    append-nil (pcm_of_all (q ++ c.current_chunk ∷ []))
    ∙ pcm_of_all-snoc q c.current_chunk
    ∙ ap (λ b. pcm_of_all q ++ (if b then pcm_of c.current_chunk else [])) (sym begun)

flush-shut : (c : CentralBuffer) → (flush c).has_chunk ≡ false
unfolding flush
flush-shut c = refl

module _ {n : ℕ} {c : CentralBuffer} {q : List AudioChunk} (f : Format) (v : IsFormat f)
    (h : Holds n c q) (bytes : List ℕ) (small : length bytes < 2 ^ 63) where
  assembled :
      (r : ℕ × CentralBuffer) (q' : List AudioChunk)
      → Holds n r.1 q'
      → taken r.1 q' ≡ taken c q ++ take r.0 bytes
      → q' ≡ queue_after n c f q
      → r.0 ≡ accepted n c f q (length bytes)
      → Written n c f q bytes r
  assembled r q' held data_taken queue count = record {
    holds = subst (Holds n r.1) queue held;
    data_taken = ap (taken r.1) (sym queue) ∙ data_taken;
    count = count;
  }

  write_on : is_done c f ≡ false → write_pcm c bytes f ≡ fill_chunk (begin_chunk c f) bytes
  unfolding write_pcm
  write_on going = rw going refl

  write_full : is_done c f ≡ true → n ≤ length q → write_pcm c bytes f ≡ (0, c)
  unfolding write_pcm
  write_full over full =
      let none_free : ltb (sub_size c.audio_buffer.data_size c.audio_buffer.data_capacity)
            chunk_size
          ≡ true =
        ground (arith, size-Holds h, h.sized, h.ring_valid) in
      rw (over, none_free) refl

  write_next :
      is_done c f ≡ true
      → length q < n
      → write_pcm c bytes f ≡ fill_chunk (begin_chunk (flush c) f) bytes
  unfolding write_pcm
  write_next over room =
      let some_free : ltb (sub_size c.audio_buffer.data_size c.audio_buffer.data_capacity)
            chunk_size
          ≡ false =
        ground (arith, size-Holds h, h.sized, h.ring_valid) in
      rw (over, some_free) refl

  -- `writePCM`, on a buffer made for `n` chunks whose ring holds whole chunks, with a format whose values
  -- fit their types and data of fewer than 2^63 bytes: the current chunk, where it is of another track or full, goes into the ring whole, behind the others, if fewer than `n` are in
  -- it. As much of the data is taken as fits the chunk that is then current, or none where the ring
  -- is full; its number is returned, and it stands behind the data taken before, of which none is lost.
  pub write_pcm-Written : Written n c f q bytes (write_pcm c bytes f)
  write_pcm-Written = elim (Bool-cases (is_done c f)) [
    | inl over ↦ elim (dec_lt (length q) n) [
      | yes room ↦ next over room
      | no full ↦ refused over (omega arith)
    ]
    | inr going ↦ on going
  ]
    where
      on : is_done c f ≡ false → Written n c f q bytes (write_pcm c bytes f)
      on going =
          let b = fill_chunk-HoldsOpen (begin_chunk-HoldsOpen f v h) bytes small in
          subst (Written n c f q bytes) (sym (write_on going)) (
            assembled (fill_chunk (begin_chunk c f) bytes) q b.0.holds b.0.data_taken
              (ap (λ d. if d then if leb n (length q) then q else q ++ c.current_chunk ∷ [] else q)
                (sym going))
              (b.1
                ∙ ap (λ k. min (length bytes) (pcm_chunk_size - k)) (begun_size c f)
                ∙ ap
                    (λ d.
                      if d && leb n (length q)
                      then 0
                      else min (length bytes) (
                          pcm_chunk_size
                          - (if d then 0 else if c.has_chunk then c.current_chunk.pcm_size else 0)))
                    (sym going)))

      refused : is_done c f ≡ true → n ≤ length q → Written n c f q bytes (write_pcm c bytes f)
      refused over full =
          let no_room : leb n (length q) ≡ true = ground arith in
          subst (Written n c f q bytes) (sym (write_full over full)) (
            assembled (0, c) q h (sym (append-nil (taken c q))) (rw (over, no_room) refl)
              (rw (over, no_room) refl))

      next : is_done c f ≡ true → length q < n → Written n c f q bytes (write_pcm c bytes f)
      next over room =
          let some_room : leb n (length q) ≡ false = ground arith in
          let put = flush-Holds h room in
          let b = fill_chunk-HoldsOpen (begin_chunk-HoldsOpen f v put) bytes small in
          let kept = flush-taken c q (is_done-open c f over) in
          subst (Written n c f q bytes) (sym (write_next over room)) (
            assembled (fill_chunk (begin_chunk (flush c) f) bytes) (q ++ c.current_chunk ∷ [])
              b.0.holds
              (b.0.data_taken
                ∙ ap (λ l. l ++ take (fill_chunk (begin_chunk (flush c) f) bytes).0 bytes) kept)
              (rw (over, some_room) refl)
              (b.1
                ∙ ap (λ k. min (length bytes) (pcm_chunk_size - k))
                    (begun_size (flush c) f
                      ∙ ap (λ d. if d then (flush c).current_chunk.pcm_size else 0) (flush-shut c))
                ∙ (rw (over, some_room) refl)))
