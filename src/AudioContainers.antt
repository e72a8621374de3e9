-- ===== src/AudioContainers.antt =====
-- main/audio-containers/AudioContainers.cpp, and what ADTSContainer.cpp and MP3Container.cpp share: a
-- buffer of 10 KB that is kept filled from an `istream` and read from `dataOffset` on.
pub mod Buffer
pub mod Pending
pub mod Adts
pub mod Mp3
pub mod Resync
pub mod Frames
pub mod Guess
mod Tests
use bell.Prelude.{
  ℕ, ◌+◌, Bool, true, false, ◌||◌, List, [], ◌∷◌, length, take, copy_at, ◌==◌, get_or, ◌&&◌,
  if◌then◌else◌, replicate,
}
use bell.Stream.{Stream, read}
use bell.AudioContainers.Buffer.{Window, heading}
use bell.AudioContainers.Adts.{AdtsContainer}

-- What `guessAudioContainer` returns; `no_container` is `nullptr`.
pub data Container : Type 0 where
  adts_container : AdtsContainer → Container
  mp3_container : Window → Container
  no_container : Container

-- `memcmp(tmp, p, n) == 0`
unfoldable pub begins : List ℕ → List ℕ → Bool
begins tmp [] = true
begins [] (p ∷ ps) = false
begins (c ∷ tmp) (p ∷ ps) = c == p && begins tmp ps

-- `guessAudioContainer`; `unset` is what `tmp` holds before it is read.
unfoldable pub guess_audio_container : List ℕ → Stream → Container
unfolding begins
guess_audio_container unset istr =
    let (got, istr') = read istr 14 in
    let tmp = copy_at unset 0 got in
    if begins tmp (0xff ∷ 0xf1 ∷ []) || begins tmp (0xff ∷ 0xf9 ∷ [])
    then adts_container (record { window = heading istr' tmp; protection_absent = false })
    else if begins tmp (0xff ∷ 0xfb ∷ []) || begins tmp (0x49 ∷ 0x44 ∷ 0x33 ∷ [])
    then mp3_container (heading istr' tmp)
    else no_container
