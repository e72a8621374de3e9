-- ===== src/AudioContainers/Adts.antt =====
-- main/audio-containers/ADTSContainer.cpp. A read outside the buffer, and a loop that does not end
-- within the fuel, are results of their own.
use Prim.Native.Nat.{bit_and, bit_or}
use bell.Prelude.{
  ℕ, zero, suc, ◌+◌, ◌*◌, ◌/◌, ◌^◌, Bool, true, false, List, Option, none, some, get_elem?, ltb,
  leb, ◌==◌, if◌then◌else◌, add_size, sub_size,
}
use bell.AudioContainers.Buffer.{Window, align, fill, max_frame_size}

pub record AdtsContainer : Type 0 where
  pub window : Window
  pub protection_absent : Bool

pub data Run {ℓ} (A : Type ℓ) : Type ℓ where
  done : A → Run A
  overread : Run A
  unfinished : Run A

infixl 5 ◌>>=◌
abbrev pub ◌>>=◌ {ℓ κ} : {A : Type ℓ} {B : Type κ} → Run A → (A → Run B) → Run B
done a >>= f = f a
overread >>= f = overread
unfinished >>= f = unfinished

abbrev pub inside : Option ℕ → Run ℕ
inside none = overread
inside (some c) = done c

unfoldable pub byte_at : List ℕ → ℕ → Run ℕ
byte_at buffer at = inside (get_elem? buffer at)

-- AAC_ADTS_SYNC_VERIFY; the second byte is read only if the first fits.
unfoldable pub sync_verify : List ℕ → ℕ → Run Bool
unfolding byte_at
sync_verify buffer at = byte_at buffer at >>= λ c.
    if c == 0xff
    then (byte_at buffer (suc at) >>= λ d. done (bit_and d 0xf6 == 0xf0))
    else done false

-- AAC_ADTS_FRAME_GETSIZE
unfoldable pub frame_size : List ℕ → ℕ → Run ℕ
unfolding byte_at
frame_size buffer at = byte_at buffer (at + 3) >>= λ b3. byte_at buffer (at + 4) >>= λ b4.
    byte_at buffer (at + 5) >>= λ b5.
    done (bit_or (bit_or (bit_and b3 3 * 2 ^ 11) (b4 * 2 ^ 3)) (b5 / 2 ^ 5))

-- What one round of the loop of `resyncADTS` does, with `buf` at the offset: on to the next offset,
-- three frames found and the byte that tells of their protection, or nothing.
pub data Round : Type 0 where
  advance : Round
  resynced : ℕ → Round
  again : Round

-- The check of the second and of the third frame.
unfoldable pub check_next : List ℕ → ℕ → Run Round
unfolding sync_verify frame_size byte_at
check_next buffer second = sync_verify buffer second >>= λ next_ok.
    if next_ok
    then (frame_size buffer second >>= λ size. sync_verify buffer (second + size) >>= λ third_ok.
        if third_ok
        then (byte_at buffer (second + size + 1) >>= λ flags. done (resynced flags))
        else done again)
    else done again

unfoldable pub round : List ℕ → ℕ → ℕ → ℕ → Run Round
unfolding sync_verify frame_size
round buffer data_offset valid_bytes resync_offset =
    sync_verify buffer (data_offset + resync_offset) >>= λ ok.
    if ok
    then (frame_size buffer (data_offset + resync_offset) >>= λ size.
        if ltb valid_bytes (size + resync_offset)
        then done advance
        else check_next buffer (data_offset + resync_offset + size))
    else done advance

-- The loop of `resyncADTS`, on fuel: whether it found frames, and the offset where it stopped.
unfoldable pub resync_from : ℕ → List ℕ → ℕ → ℕ → ℕ → Run (Option ℕ × ℕ)
resync_from zero buffer data_offset valid_bytes resync_offset = unfinished
resync_from (suc fuel) buffer data_offset valid_bytes resync_offset =
    elim (ltb resync_offset valid_bytes) [
      | false ↦ done (none, resync_offset)
      | true ↦ elim (round buffer data_offset valid_bytes resync_offset) [
        | overread ↦ overread
        | unfinished ↦ unfinished
        | done (resynced flags) ↦ done (some flags, resync_offset)
        | done advance ↦ resync_from fuel buffer data_offset valid_bytes (suc resync_offset)
        | done again ↦ resync_from fuel buffer data_offset valid_bytes resync_offset
      ]
    ]

-- The end of `resyncADTS`.
unfoldable pub settle : AdtsContainer → Option ℕ × ℕ → Bool × AdtsContainer
settle c (none, offset) = (
  false,
  record c { window = record c.window { data_offset = add_size c.window.data_offset offset } },
)
settle c (some flags, offset) = (
  true,
  record {
    window = record c.window { data_offset = add_size c.window.data_offset offset };
    protection_absent = bit_and flags 1 == 1;
  },
)

unfoldable pub resync_adts : ℕ → AdtsContainer → Run (Bool × AdtsContainer)
unfolding settle
resync_adts fuel c =
    resync_from fuel c.window.buffer c.window.data_offset
      (sub_size c.window.bytes_in_buffer c.window.data_offset) 0
    >>= λ stopped. done (settle c stopped)

-- A sample: where in the buffer it stands, and `len`; `none` is `nullptr`, with `len` set to 0.
abbrev pub Sample : Type 0
Sample = Option (ℕ × ℕ)

-- `readSample` from the computation of `len` on; `at` is where `buf` points, which a resynchronisation
-- does not move.
unfoldable pub deliver : ℕ → ℕ → AdtsContainer → Run (Sample × AdtsContainer)
deliver fuel at c = frame_size c.window.buffer at >>= λ len.
    if ltb (sub_size c.window.bytes_in_buffer c.window.data_offset) len
    then (resync_adts fuel c >>= λ found.
        done (if found.0 then some (found.1.window.data_offset, len) else none, found.1))
    else done (some (c.window.data_offset, len), c)

-- `readSample` once the buffer is filled.
unfoldable pub take_sample : ℕ → AdtsContainer → Run (Sample × AdtsContainer)
unfolding deliver
take_sample fuel c = sync_verify c.window.buffer c.window.data_offset >>= λ ok.
    if ok
    then (byte_at c.window.buffer (c.window.data_offset + 1) >>= λ flags.
        deliver fuel c.window.data_offset (record c { protection_absent = bit_and flags 1 == 1 }))
    else (resync_adts fuel c >>= λ found.
        if found.0 then deliver fuel c.window.data_offset found.1 else done (none, found.1))

unfoldable pub read_sample : ℕ → AdtsContainer → Run (Sample × AdtsContainer)
read_sample fuel c =
    let filled = record c { window = fill (align c.window) } in
    if leb max_frame_size filled.window.bytes_in_buffer
    then take_sample fuel filled
    else done (none, filled)
