-- ===== src/CentralAudioBuffer/Queue.antt =====
-- The ring of main/audio-dsp/include/CentralAudioBuffer.h holds whole chunks, and is a queue of them.
use bell.Prelude.{
  ℕ, ◌-◌, ◌*◌, ◌^◌, ◌≤◌, ◌<◌, ◌≡◌, refl, sym, ap, ◌∙◌, true, false, List, [], ◌∷◌, ◌++◌, none, some,
  arith, length, take, drop, ltb, length-append, take-length-append, drop-length-append, take-all,
  append_assoc, append-nil, length-tabulate, length-replicate,
}
use bell.CircularBuffer.{Ring, create, size, write, read, put_chunk, get_chunk}
use bell.CircularBuffer.Inv as RingInv
use bell.CircularBuffer.Inv.{write-IsValid, read-IsValid, create-IsValid, empty_buffer-IsValid}
use bell.CircularBuffer.Fifo.{contents, byte_at, write_refines, read_refines}
use bell.CentralAudioBuffer.{CentralBuffer, make, read_chunk, flush}
use bell.CentralAudioBuffer.Chunk.{
  AudioChunk, chunk_size, encode, decode, IsChunk, length-encode, decode-encode, zero_chunk,
}

abbrev pub bytes_of : List AudioChunk → List ℕ
bytes_of [] = []
bytes_of (d ∷ q) = encode d ++ bytes_of q

abbrev pub AllChunks : List AudioChunk → Type 0
AllChunks [] = Unit {0}
AllChunks (d ∷ q) = IsChunk d × AllChunks q

-- The buffer was made for `n` chunks, and the ring holds these.
pub record Holds (n : ℕ) (c : CentralBuffer) (q : List AudioChunk) : Type 0 where
  pub ring_valid : RingInv.IsValid c.audio_buffer
  pub sized : c.audio_buffer.data_capacity ≡ n * chunk_size
  pub stored : contents c.audio_buffer ≡ bytes_of q
  pub chunks : AllChunks q
  pub current : IsChunk c.current_chunk

length-bytes_of : (q : List AudioChunk) → AllChunks q → length (bytes_of q) ≡ length q * chunk_size
length-bytes_of [] v = refl
length-bytes_of (d ∷ q) v =
    omega (arith, length-append (encode d) (bytes_of q), length-encode d v.0, length-bytes_of q v.1)

bytes_of-snoc :
    (q : List AudioChunk) (d : AudioChunk) → bytes_of (q ++ d ∷ []) ≡ bytes_of q ++ encode d
bytes_of-snoc [] d = append-nil (encode d)
bytes_of-snoc (e ∷ q) d =
    ap (◌++◌ (encode e)) (bytes_of-snoc q d) ∙ sym (append_assoc (encode e) (bytes_of q) (encode d))

AllChunks-snoc :
    (q : List AudioChunk) (d : AudioChunk) → AllChunks q → IsChunk d → AllChunks (q ++ d ∷ [])
AllChunks-snoc [] d v h = (h, tt)
AllChunks-snoc (e ∷ q) d v h = (v.0, AllChunks-snoc q d v.1 h)

capacity-read : (r : Ring) (n : ℕ) → (read r n).2.data_capacity ≡ r.data_capacity
unfolding read get_chunk
capacity-read r n = ground arith

capacity-write : (r : Ring) (bytes : List ℕ) → (write r bytes).1.data_capacity ≡ r.data_capacity
unfolding write put_chunk
capacity-write r bytes = ground arith

-- The ring holds as many bytes as its chunks have.
pub size-Holds :
    {n : ℕ} {c : CentralBuffer} {q : List AudioChunk}
    → Holds n c q
    → c.audio_buffer.data_size ≡ length q * chunk_size
size-Holds {n} {c} {q} h =
    sym (length-tabulate c.audio_buffer.data_size (byte_at c.audio_buffer))
    ∙ ap length h.stored
    ∙ length-bytes_of q h.chunks

-- What `readChunk` is to do with the queue.
abbrev pub GivesOldest : ℕ → CentralBuffer → List AudioChunk → Type 0
GivesOldest n c [] = ((read_chunk c).0 ≡ none) × Holds n (read_chunk c).1 []
GivesOldest n c (d ∷ q) =
    ((read_chunk c).0 ≡ some d)
    × Holds n (read_chunk c).1 q
    × ((read_chunk c).1.current_sample_rate ≡ d.sample_rate)

-- `readChunk` takes the oldest chunk out of the ring, as it was put in, and its sample rate becomes the
-- current one; from an empty ring it takes none.
pub read_chunk-GivesOldest :
    (n : ℕ) (c : CentralBuffer) (q : List AudioChunk) → Holds n c q → GivesOldest n c q
unfolding read_chunk size
read_chunk-GivesOldest n c [] h =
    let short : ltb c.audio_buffer.data_size chunk_size ≡ true = ground (arith, size-Holds h) in
    rw (short, GivesOldest)
      (
        refl,
        record {
          ring_valid = h.ring_valid;
          sized = h.sized;
          stored = h.stored;
          chunks = h.chunks;
          current = h.current;
        },
      )
read_chunk-GivesOldest n c (d ∷ q) h =
    let long : ltb c.audio_buffer.data_size chunk_size ≡ false = ground (arith, size-Holds h) in
    let r = read_refines h.ring_valid chunk_size in
    let whole = length-encode d h.chunks.0 in
    let got : (read c.audio_buffer chunk_size).1 ≡ encode d =
      r.1
      ∙ ap (take chunk_size) h.stored
      ∙ ap (λ k. take k (encode d ++ bytes_of q)) (sym whole)
      ∙ take-length-append (encode d) (bytes_of q) in
    let rest : contents (read c.audio_buffer chunk_size).2 ≡ bytes_of q =
      r.2
      ∙ ap (drop chunk_size) h.stored
      ∙ ap (λ k. drop k (encode d ++ bytes_of q)) (sym whole)
      ∙ drop-length-append (encode d) (bytes_of q) in
    let back : decode (read c.audio_buffer chunk_size).1 ≡ d =
      ap decode got ∙ decode-encode d h.chunks.0 in
    rw (long, GivesOldest)
      (
        ap some back,
        record {
          ring_valid = read-IsValid chunk_size h.ring_valid;
          sized = capacity-read c.audio_buffer chunk_size ∙ h.sized;
          stored = rest;
          chunks = h.chunks.1;
          current = h.current;
        },
        ap (λ e. e.sample_rate) back,
      )

-- Where there is room for a chunk, the current one goes behind those in the ring, whole.
pub flush-Holds :
    {n : ℕ} {c : CentralBuffer} {q : List AudioChunk}
    → Holds n c q
    → length q < n
    → Holds n (flush c) (q ++ c.current_chunk ∷ [])
unfolding flush
flush-Holds {n} {c} {q} h room =
    let w = write_refines h.ring_valid (encode c.current_chunk) in
    let free : chunk_size ≤ c.audio_buffer.data_capacity - c.audio_buffer.data_size =
      omega (arith, h.sized, size-Holds h) in
    record {
      ring_valid = write-IsValid (encode c.current_chunk) h.ring_valid;
      sized = capacity-write c.audio_buffer (encode c.current_chunk) ∙ h.sized;
      stored =
          w.1
          ∙ ap (λ l. contents c.audio_buffer ++ l)
              (take-all _ (encode c.current_chunk)
                (omega (arith, length-encode c.current_chunk h.current)))
          ∙ ap (λ l. l ++ encode c.current_chunk) h.stored
          ∙ sym (bytes_of-snoc q c.current_chunk);
      chunks = AllChunks-snoc q c.current_chunk h.chunks h.current;
      current = h.current;
    }

zero_chunk-IsChunk : IsChunk zero_chunk
unfolding zero_chunk
zero_chunk-IsChunk = record {
  sec_fits = omega arith;
  usec_fits = omega arith;
  hash_fits = omega arith;
  rate_fits = omega arith;
  channels_fit = omega arith;
  width_fits = omega arith;
  size_in = omega arith;
  storage = length-replicate {A = ℕ} 4096 0;
}

-- A buffer that was just made is empty.
pub make-Holds : (n : ℕ) → 0 < n → n * chunk_size < 2 ^ 63 → Holds n (make n) []
unfolding make create
make-Holds n some_chunks small = record {
  ring_valid = create-IsValid (n * chunk_size) (omega arith) small;
  sized = refl;
  stored = refl;
  chunks = tt;
  current = zero_chunk-IsChunk;
}
