-- ===== src/AudioContainers/Resync.antt =====
-- The search of `resyncADTS` in main/audio-containers/ADTSContainer.cpp: what it finds, and where it
-- does not end.
use Prim.Native.Nat.{bit_and}
use bell.Prelude.{
  ℕ, zero, suc, ◌+◌, ◌≤◌, ◌<◌, ◌≡◌, refl, sym, ap, ◌∙◌, true, false, List, some, arith, ltb, ◌==◌,
  add_size, sub_size,
}
use native.Mathlib.Decide.{dec_lt}
use bell.AudioContainers.Adts.{
  AdtsContainer, done, unfinished, byte_at, sync_verify, frame_size, advance, resynced, again,
  check_next, round, resync_from, settle, resync_adts,
}

module _ (buffer : List ℕ) (data_offset valid_bytes : ℕ) where
  -- No frame begins at the offset.
  abbrev pub Unsynced : ℕ → Type 0
  Unsynced m = sync_verify buffer (data_offset + m) ≡ done false

  -- A frame begins at the offset, and ends within the valid bytes.
  pub record Begins (m : ℕ) : Type 0 where
    pub size : ℕ
    pub synced : sync_verify buffer (data_offset + m) ≡ done true
    pub sized : frame_size buffer (data_offset + m) ≡ done size
    pub fits : size + m ≤ valid_bytes
    pub here : m < valid_bytes

  -- Two more follow it; `flags` is the second byte of the last.
  pub record Follow {m : ℕ} (b : Begins m) (flags : ℕ) : Type 0 where
    pub size : ℕ
    pub synced : sync_verify buffer (data_offset + m + b.size) ≡ done true
    pub sized : frame_size buffer (data_offset + m + b.size) ≡ done size
    pub third : sync_verify buffer (data_offset + m + b.size + size) ≡ done true
    pub flagged : byte_at buffer (data_offset + m + b.size + size + 1) ≡ done flags

  round-Unsynced : (m : ℕ) → Unsynced m → round buffer data_offset valid_bytes m ≡ done advance
  unfolding round
  round-Unsynced m h = rw h refl

  round-resynced :
      (m flags : ℕ) (b : Begins m)
      → Follow b flags
      → round buffer data_offset valid_bytes m ≡ done (resynced flags)
  unfolding round check_next
  round-resynced m flags b f =
      let inside : ltb valid_bytes (b.size + m) ≡ false = ground (arith, b.fits) in
      rw (b.synced, b.sized, inside, f.synced, f.sized, f.third, f.flagged) refl

  round-again :
      (m : ℕ) (b : Begins m)
      → sync_verify buffer (data_offset + m + b.size) ≡ done false
      → round buffer data_offset valid_bytes m ≡ done again
  unfolding round check_next
  round-again m b other =
      let inside : ltb valid_bytes (b.size + m) ≡ false = ground (arith, b.fits) in
      rw (b.synced, b.sized, inside, other) refl

  module _ (fuel o : ℕ) (inside : o < valid_bytes) where
    step_advance :
        round buffer data_offset valid_bytes o ≡ done advance
        → resync_from (suc fuel) buffer data_offset valid_bytes o
          ≡ resync_from fuel buffer data_offset valid_bytes (suc o)
    unfolding resync_from
    step_advance e = ground arith

    step_again :
        round buffer data_offset valid_bytes o ≡ done again
        → resync_from (suc fuel) buffer data_offset valid_bytes o
          ≡ resync_from fuel buffer data_offset valid_bytes o
    unfolding resync_from
    step_again e = ground arith

    step_found :
        (flags : ℕ)
        → round buffer data_offset valid_bytes o ≡ done (resynced flags)
        → resync_from (suc fuel) buffer data_offset valid_bytes o ≡ done (some flags, o)
    unfolding resync_from
    step_found flags e = ground arith

  found_from :
      (fuel o m flags : ℕ)
      → o ≤ m
      → m < o + fuel
      → ((i : ℕ) → i < m → Unsynced i)
      → (b : Begins m) → Follow b flags
      → resync_from fuel buffer data_offset valid_bytes o ≡ done (some flags, m)
  found_from zero o m flags le lt before b f = absurd (omega arith)
  found_from (suc fuel) o m flags le lt before b f = elim (dec_lt o m) [
    | yes earlier ↦
        step_advance fuel o (omega (arith, b.here)) (round-Unsynced o (before o earlier))
        ∙ found_from fuel (suc o) m flags earlier (omega arith) before b f
    | no reached ↦
        let e : m ≡ o = omega arith in
        ap (λ k. resync_from (suc fuel) buffer data_offset valid_bytes k) (sym e)
        ∙ step_found fuel m b.here flags (round-resynced m flags b f)
  ]

  again_forever :
      (fuel m : ℕ)
      → m < valid_bytes
      → round buffer data_offset valid_bytes m ≡ done again
      → resync_from fuel buffer data_offset valid_bytes m ≡ unfinished
  unfolding resync_from
  again_forever zero m lt e = refl
  again_forever (suc fuel) m lt e = step_again fuel m lt e ∙ again_forever fuel m lt e

  stuck_from :
      (fuel o m : ℕ)
      → o ≤ m
      → ((i : ℕ) → i < m → Unsynced i)
      → (b : Begins m) → sync_verify buffer (data_offset + m + b.size) ≡ done false
      → resync_from fuel buffer data_offset valid_bytes o ≡ unfinished
  unfolding resync_from
  stuck_from zero o m le before b other = refl
  stuck_from (suc fuel) o m le before b other = elim (dec_lt o m) [
    | yes earlier ↦
        step_advance fuel o (omega (arith, b.here)) (round-Unsynced o (before o earlier))
        ∙ stuck_from fuel (suc o) m earlier before b other
    | no reached ↦
        let e : m ≡ o = omega arith in
        ap (λ k. resync_from (suc fuel) buffer data_offset valid_bytes k) (sym e)
        ∙ again_forever (suc fuel) m b.here (round-again m b other)
  ]

module _ (fuel : ℕ) (c : AdtsContainer) (m : ℕ)
    (before : (i : ℕ)
      → i < m
      → Unsynced c.window.buffer c.window.data_offset
          (sub_size c.window.bytes_in_buffer c.window.data_offset)
          i)
    (b : Begins c.window.buffer c.window.data_offset
      (sub_size c.window.bytes_in_buffer c.window.data_offset)
      m) where
  -- Where a frame begins `m` bytes behind the data offset and ends within the valid bytes, two more
  -- frames follow it, and no frame begins at an earlier offset, `m + 1` rounds are enough: the data
  -- offset is moved to that frame, and the protection bit is that of the third.
  pub resync_adts_found :
      (flags : ℕ)
      → m < fuel
      → Follow c.window.buffer c.window.data_offset
          (sub_size c.window.bytes_in_buffer c.window.data_offset)
          b
          flags
      → resync_adts fuel c
        ≡ done (
          true,
          record {
            window = record c.window { data_offset = add_size c.window.data_offset m };
            protection_absent = bit_and flags 1 == 1;
          },
        )
  unfolding resync_adts settle
  resync_adts_found flags enough f =
      rw
        (found_from c.window.buffer c.window.data_offset
          (sub_size c.window.bytes_in_buffer c.window.data_offset) fuel 0 m flags (omega arith)
          (omega arith) before b f)
        refl

  -- Where the frame that begins there is followed by something that is no frame, the loop never ends.
  pub resync_adts_stuck :
      sync_verify c.window.buffer (c.window.data_offset + m + b.size) ≡ done false
      → resync_adts fuel c ≡ unfinished
  unfolding resync_adts
  resync_adts_stuck other =
      rw
        (stuck_from c.window.buffer c.window.data_offset
          (sub_size c.window.bytes_in_buffer c.window.data_offset) fuel 0 m (omega arith) before b
          other)
        refl
