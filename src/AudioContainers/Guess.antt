-- ===== src/AudioContainers/Guess.antt =====
-- What `guessAudioContainer` hands to the container that it makes, and what the container of
-- main/audio-containers/MP3Container.cpp delivers.
use bell.Prelude.{
  ℕ, zero, suc, ◌+◌, ◌-◌, ◌*◌, ◌%◌, ◌^◌, ◌≤◌, ◌≡◌, refl, sym, ap, ap₂, ◌∙◌, Bool, true, false, inl,
  inr, ◌⊎◌, List, [], ◌∷◌, ◌++◌, Option, some, arith, length, take, drop, copy_at, copy_whole, leb,
  ◌||◌, ◌&&◌, ◌==◌, replicate, if◌then◌else◌, add_size, sub_size, Bool-cases, length-take,
  length-copy_at, length-replicate, take-copy_at, drop-take, drop-append, take-take,
}
use bell.Stream.{Stream, read}
use bell.AudioContainers.{
  Container, adts_container, mp3_container, no_container, begins, guess_audio_container,
}
use bell.AudioContainers.Buffer.{Window, align, fill, heading, max_frame_size, buffer_size}
use bell.AudioContainers.Pending.{IsValid, pending, coming, read-coming, refilled}
use bell.AudioContainers.Mp3

module _ (istr : Stream) (tmp : List ℕ) (seven : 7 ≤ length tmp) where
  heading-pending : pending (heading istr tmp) ≡ take 7 tmp ++ coming istr
  unfolding heading
  heading-pending =
      let size : ◌≡◌ {A = ℕ} 7 (0 + length (take 7 tmp)) = omega (arith, length-take 7 tmp) in
      ap (λ b. b ++ coming istr)
        (ap (λ n. take n (copy_at (replicate buffer_size 0) 0 (take 7 tmp))) size
          ∙ take-copy_at (replicate buffer_size 0) 0 (take 7 tmp)
              (omega (arith, length-take 7 tmp, length-replicate {A = ℕ} buffer_size 0)))

  heading-IsValid : IsValid (heading istr tmp)
  unfolding heading
  heading-IsValid = record {
    storage =
        length-copy_at (replicate buffer_size 0) 0 (take 7 tmp)
        ∙ length-replicate {A = ℕ} buffer_size 0;
    within = omega arith;
    consumed = omega arith;
  }

-- The container is valid, and has the bytes of the stream but for the eighth to the fourteenth.
abbrev pub Opened : List ℕ → Container → Type 0
Opened xs (adts_container c) =
    ((begins xs (0xff ∷ 0xf1 ∷ []) ≡ true) ⊎ (begins xs (0xff ∷ 0xf9 ∷ []) ≡ true))
    × IsValid c.window
    × (pending c.window ≡ take 7 xs ++ drop 14 xs)
Opened xs (mp3_container w) =
    ((begins xs (0xff ∷ 0xfb ∷ []) ≡ true) ⊎ (begins xs (0x49 ∷ 0x44 ∷ 0x33 ∷ []) ≡ true))
    × IsValid w
    × (pending w ≡ take 7 xs ++ drop 14 xs)
Opened xs no_container =
    (begins xs (0xff ∷ 0xf1 ∷ []) ≡ false)
    × (begins xs (0xff ∷ 0xf9 ∷ []) ≡ false)
    × (begins xs (0xff ∷ 0xfb ∷ []) ≡ false)
    × (begins xs (0x49 ∷ 0x44 ∷ 0x33 ∷ []) ≡ false)

begins-take : (n : ℕ) (xs ps : List ℕ) → length ps ≤ n → begins (take n xs) ps ≡ begins xs ps
unfolding begins
begins-take n xs [] h = refl
begins-take zero xs (p ∷ ps) h = absurd (omega arith)
begins-take (suc n) [] (p ∷ ps) h = refl
begins-take (suc n) (x ∷ xs) (p ∷ ps) h = ap (λ b. x == p && b) (begins-take n xs ps (omega arith))

or_false : (a b : Bool) → (a || b) ≡ false → (a ≡ false) × (b ≡ false)
or_false true b h = absurd (cc)
or_false false b h = (refl, h)

or_cases : (a b : Bool) → (a || b) ≡ true → (a ≡ true) ⊎ (b ≡ true)
or_cases true b h = inl refl
or_cases false b h = inr h

chosen :
    (xs : List ℕ) (w : Window)
    → IsValid w
    → pending w ≡ take 7 xs ++ drop 14 xs
    → Opened xs (
        if begins xs (0xff ∷ 0xf1 ∷ []) || begins xs (0xff ∷ 0xf9 ∷ [])
        then adts_container (record { window = w; protection_absent = false })
        else if begins xs (0xff ∷ 0xfb ∷ []) || begins xs (0x49 ∷ 0x44 ∷ 0x33 ∷ [])
        then mp3_container w
        else no_container)
chosen xs w v e = elim (Bool-cases (begins xs (0xff ∷ 0xf1 ∷ []) || begins xs (0xff ∷ 0xf9 ∷ []))) [
  | inl aac ↦ rw (aac, Opened) (or_cases _ _ aac, v, e)
  | inr other ↦
      elim (Bool-cases (begins xs (0xff ∷ 0xfb ∷ []) || begins xs (0x49 ∷ 0x44 ∷ 0x33 ∷ []))) [
        | inl mp3 ↦ rw (other, mp3, Opened) (or_cases _ _ mp3, v, e)
        | inr unknown ↦
            rw (other, unknown, Opened)
              (
                (or_false _ _ other).0,
                (or_false _ _ other).1,
                (or_false _ _ unknown).0,
                (or_false _ _ unknown).1,
              )
      ]
]

-- Of a stream that has 14 bytes or more to give, the first two or three bytes decide on the container.
-- It is valid, and what it will deliver is the stream without its eighth to fourteenth byte.
pub guess_audio_container-Opened :
    (unset : List ℕ) (istr : Stream)
    → length unset ≡ 14
    → 14 ≤ length (coming istr)
    → Opened (coming istr) (guess_audio_container unset istr)
unfolding guess_audio_container
guess_audio_container-Opened unset istr size enough =
    let r = read-coming istr 14 in
    let xs : List ℕ = coming istr in
    let full : length (read istr 14).0 ≡ 14 = ap length r.0 ∙ length-take 14 xs ∙ omega arith in
    let filled : copy_at unset 0 (read istr 14).0 ≡ take 14 xs =
      copy_whole unset (read istr 14).0 (size ∙ sym full) ∙ r.0 in
    let long : 7 ≤ length (take 14 xs) = omega (arith, length-take 14 xs) in
    rw
      (
        filled,
        begins-take 14 xs (0xff ∷ 0xf1 ∷ []) (omega arith),
        begins-take 14 xs (0xff ∷ 0xf9 ∷ []) (omega arith),
        begins-take 14 xs (0xff ∷ 0xfb ∷ []) (omega arith),
        begins-take 14 xs (0x49 ∷ 0x44 ∷ 0x33 ∷ []) (omega arith),
      )
      (chosen xs (heading (read istr 14).1 (take 14 xs))
        (heading-IsValid (read istr 14).1 (take 14 xs) long)
        (heading-pending (read istr 14).1 (take 14 xs) long
          ∙ ap₂ ◌++◌ (take-take 7 14 xs (omega arith)) r.1))

module _ (find_sync_word : List ℕ → Option ℕ) where
  -- Where the decoder finds a sync word in a buffer that holds two frames, the sample begins there and
  -- has all that is buffered behind it; with what the stream has still to give it is what was pending,
  -- less the bytes before the sync word.
  pub read_sample-pending :
      (w : Window) (k : ℕ)
      → IsValid w
      → find_sync_word (take (fill (align w)).bytes_in_buffer (fill (align w)).buffer) ≡ some k
      → k ≤ (fill (align w)).bytes_in_buffer
      → 2 * max_frame_size ≤ length (pending w)
      → (len : ℕ) × (w' : Window) × (Mp3.read_sample find_sync_word w ≡ (some k, some len, w'))
        × (w'.data_offset ≡ k)
        × (take len (drop k w'.buffer) ++ coming w'.istr ≡ drop k (pending w))
  unfolding Mp3.read_sample Mp3.sample_at
  read_sample-pending w k v found inside enough =
      let r = refilled v in
      let u : Window = fill (align w) in
      let long : leb (2 * max_frame_size) u.bytes_in_buffer ≡ true = ground (arith, r.3) in
      let at : add_size u.data_offset k ≡ k = omega (arith, r.2, r.0.within) in
      let rest : sub_size u.bytes_in_buffer k % 2 ^ 32 ≡ u.bytes_in_buffer - k =
        omega (arith, r.0.within) in
      (
        u.bytes_in_buffer - k,
        record u { data_offset = k },
        rw (long, found, at, rest) refl,
        refl,
        ap (λ b. b ++ coming u.istr) (sym (drop-take k u.bytes_in_buffer u.buffer))
            ∙ sym (
                drop-append k (take u.bytes_in_buffer u.buffer) (coming u.istr)
                  (omega (arith, length-take u.bytes_in_buffer u.buffer, r.0.storage, r.0.within)))
            ∙ ap (λ d. drop k (drop d (take u.bytes_in_buffer u.buffer) ++ coming u.istr)) (sym r.2)
            ∙ ap (drop k) r.1,
      )
