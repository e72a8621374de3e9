-- ===== src/AudioContainers/Tests.antt =====
-- Streams of short frames.
use bell.Prelude.{
  ℕ, zero, suc, ◌<◌, ◌≡◌, refl, ap, true, false, List, [], ◌∷◌, ◌++◌, some, arith, length, take,
  drop, replicate, length-replicate,
}
use bell.Stream.{Stream}
use bell.AudioContainers.{guess_audio_container}
use bell.AudioContainers.Buffer.{Window, no_heading, buffer_size}
use bell.AudioContainers.Pending.{IsValid, pending, coming}
use bell.AudioContainers.Adts.{
  AdtsContainer, done, unfinished, byte_at, sync_verify, frame_size, resync_adts, resync_from,
  round, check_next, settle,
}
use bell.AudioContainers.Frames.{IsFrame, read_samples, read_samples-join}
use bell.AudioContainers.Resync.{Unsynced, Begins, Follow, resync_adts_found, resync_adts_stuck}
use bell.AudioContainers.Guess.{Opened, guess_audio_container-Opened, read_sample-pending}
use bell.AudioContainers.Mp3

-- A frame of seven bytes
abbrev frame : List ℕ
frame = 0xff ∷ 0xf1 ∷ 0x50 ∷ 0 ∷ 0 ∷ 0xe0 ∷ 0xfc ∷ []

frame-IsFrame : IsFrame frame
unfolding sync_verify frame_size
frame-IsFrame = record { synced = refl; sized = refl; header = omega arith; bounded = omega arith }

abbrev file : List ℕ → Stream
file bytes = record { bytes = bytes; pos = 0; eof = false; failed = false }

abbrev opened : List ℕ → AdtsContainer
opened bytes = record { window = no_heading (file bytes); protection_absent = false }

opened-IsValid : (bytes : List ℕ) → IsValid (no_heading (file bytes))
unfolding no_heading
opened-IsValid bytes = record {
  storage = length-replicate {A = ℕ} buffer_size 0;
  within = omega arith;
  consumed = omega arith;
}

pending-opened : (bytes : List ℕ) → pending (no_heading (file bytes)) ≡ bytes
unfolding no_heading
pending-opened bytes = refl

zeros : ℕ → List ℕ
zeros n = replicate n 0

length-zeros : (n : ℕ) → length (zeros n) ≡ n
unfolding zeros
length-zeros n = length-replicate n 0

read_samples-join_example :
    read_samples 0 2 (opened ((frame ++ (frame ++ [])) ++ zeros 2100)) ≡ done (frame ∷ frame ∷ [])
read_samples-join_example =
    read_samples-join 0 (opened ((frame ++ (frame ++ [])) ++ zeros 2100)) (frame ∷ frame ∷ [])
      (zeros 2100) (opened-IsValid ((frame ++ (frame ++ [])) ++ zeros 2100))
      (frame-IsFrame, (frame-IsFrame, tt)) (pending-opened ((frame ++ (frame ++ [])) ++ zeros 2100))
      (omega (arith, length-zeros 2100))

-- A byte that is no frame, then three frames; or one frame and six bytes that are none.
abbrev in_buffer : List ℕ → AdtsContainer
in_buffer buffer = record {
  window = record {
    istr = file [];
    buffer = buffer;
    bytes_in_buffer = length buffer;
    data_offset = 0;
  };
  protection_absent = false;
}

abbrev three : List ℕ
three = 0 ∷ (frame ++ (frame ++ frame))

three-Unsynced : (i : ℕ) → i < 1 → Unsynced three 0 22 i
unfolding sync_verify byte_at
three-Unsynced zero h = refl
three-Unsynced (suc i) h = absurd (omega arith)

three-Begins : Begins three 0 22 1
unfolding sync_verify frame_size
three-Begins = record {
  size = 7;
  synced = refl;
  sized = refl;
  fits = omega arith;
  here = omega arith;
}

three-Follow : Follow three 0 22 three-Begins 0xf1
unfolding sync_verify frame_size three-Begins byte_at
three-Follow = record { size = 7; synced = refl; sized = refl; third = refl; flagged = refl }

resync_adts_found_example :
    resync_adts 2 (in_buffer three)
    ≡ done (
      true,
      record {
        window = record (in_buffer three).window { data_offset = 1 };
        protection_absent = true;
      },
    )
resync_adts_found_example =
    resync_adts_found 2 (in_buffer three) 1 three-Unsynced three-Begins 0xf1 (omega arith)
      three-Follow

abbrev broken : List ℕ
broken = frame ++ (0 ∷ 0 ∷ 0 ∷ 0 ∷ 0 ∷ 0 ∷ [])

broken-Begins : Begins broken 0 13 0
unfolding sync_verify frame_size
broken-Begins = record {
  size = 7;
  synced = refl;
  sized = refl;
  fits = omega arith;
  here = omega arith;
}

broken_other : sync_verify broken 7 ≡ done false
unfolding sync_verify
broken_other = refl

resync_adts_stuck_example : resync_adts 1000 (in_buffer broken) ≡ unfinished
unfolding broken-Begins
resync_adts_stuck_example =
    resync_adts_stuck 1000 (in_buffer broken) 0 (λ i h. absurd (omega arith)) broken-Begins
      broken_other

resync_three :
    resync_adts 2 (in_buffer three)
    ≡ done (
      true,
      record {
        window = record (in_buffer three).window { data_offset = 1 };
        protection_absent = true;
      },
    )
unfolding resync_adts resync_from round check_next settle sync_verify frame_size byte_at
resync_three = refl

three_lost : sync_verify three 0 ≡ done false
unfolding sync_verify
three_lost = refl

-- At the old offset stand the bytes 0, 0xff, 0xf1, 0x50, 0 and 0.
three_sized : frame_size three 0 ≡ done 0
unfolding frame_size
three_sized = refl

abbrev sixteen : List ℕ
sixteen = 0xff ∷ 0xf1 ∷ 2 ∷ 3 ∷ 4 ∷ 5 ∷ 6 ∷ 7 ∷ 8 ∷ 9 ∷ 10 ∷ 11 ∷ 12 ∷ 13 ∷ 14 ∷ 15 ∷ []

guess_audio_container-Opened_example :
    Opened sixteen (guess_audio_container (replicate 14 0) (file sixteen))
guess_audio_container-Opened_example =
    guess_audio_container-Opened (replicate 14 0) (file sixteen) refl (omega arith)

read_sample-pending_example :
    (len : ℕ) × (w' : Window) × (Mp3.read_sample (λ xs. some 0) (no_heading (file (zeros 4200)))
      ≡ (some 0, some len, w'))
    × (w'.data_offset ≡ 0)
    × (take len (drop 0 w'.buffer) ++ coming w'.istr ≡ pending (no_heading (file (zeros 4200))))
read_sample-pending_example =
    read_sample-pending (λ xs. some 0) (no_heading (file (zeros 4200))) 0
      (opened-IsValid (zeros 4200)) refl (omega arith)
      (omega (arith, ap length (pending-opened (zeros 4200)), length-zeros 4200))
