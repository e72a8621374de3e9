-- ===== src/CentralAudioBuffer/Pcm.antt =====
-- The PCM data that main/audio-dsp/include/CentralAudioBuffer.h has taken and not yet handed on.
use mathlib.Core.Path.{subst}
use bell.Prelude.{
  ℕ, ◌+◌, ◌-◌, ◌^◌, ◌≤◌, ◌<◌, ◌≡◌, refl, sym, ap, ◌∙◌, true, false, inl, inr, List, [], ◌∷◌, ◌++◌,
  arith, min, length, take, copy_at, if◌then◌else◌, add_size, Bool-cases, append_assoc, append-nil,
  length-copy_at, length-take, take-copy_at,
}
use bell.CentralAudioBuffer.{CentralBuffer, Format, begin_chunk, to_write_size, fill_chunk}
use bell.CentralAudioBuffer.Chunk.{AudioChunk, IsChunk, pcm_chunk_size}
use bell.CentralAudioBuffer.Queue.{Holds}

abbrev pub pcm_of : AudioChunk → List ℕ
pcm_of d = take d.pcm_size d.pcm_data

abbrev pub pcm_of_all : List AudioChunk → List ℕ
pcm_of_all [] = []
pcm_of_all (d ∷ q) = pcm_of d ++ pcm_of_all q

-- The data in the chunks of the ring, and behind it that of the current chunk.
abbrev pub taken : CentralBuffer → List AudioChunk → List ℕ
taken c q = pcm_of_all q ++ (if c.has_chunk then pcm_of c.current_chunk else [])

-- The values of a format fit the fields of a chunk.
pub record IsFormat (f : Format) : Type 0 where
  pub hash_fits : f.hash < 256 ^ 8
  pub rate_fits : f.sample_rate < 256 ^ 4
  pub channels_fit : f.channels < 256 ^ 1
  pub sec_fits : f.sec < 256 ^ 4
  pub usec_fits : f.usec < 256 ^ 4

pub pcm_of_all-snoc :
    (q : List AudioChunk) (d : AudioChunk) → pcm_of_all (q ++ d ∷ []) ≡ pcm_of_all q ++ pcm_of d
pcm_of_all-snoc [] d = append-nil (pcm_of d)
pcm_of_all-snoc (e ∷ q) d =
    ap (◌++◌ (pcm_of e)) (pcm_of_all-snoc q d)
    ∙ sym (append_assoc (pcm_of e) (pcm_of_all q) (pcm_of d))

-- The state with a chunk that has begun, of a track, and the data taken so far.
pub record HoldsOpen (n : ℕ) (c : CentralBuffer) (q : List AudioChunk) (xs : List ℕ) : Type 0 where
  pub holds : Holds n c q
  pub opened : c.has_chunk ≡ true
  pub data_taken : taken c q ≡ xs

fresh : CentralBuffer → Format → CentralBuffer
fresh c f = record c {
  current_chunk = record c.current_chunk {
    track_hash = f.hash;
    sample_rate = f.sample_rate;
    channels = f.channels;
    bit_width = 16;
    sec = f.sec;
    usec = f.usec;
    pcm_size = 0;
  };
  has_chunk = true;
}

begin_chunk-open : (c : CentralBuffer) (f : Format) → c.has_chunk ≡ true → begin_chunk c f ≡ c
unfolding begin_chunk fresh
begin_chunk-open c f e = ap (λ b. if b then c else fresh c f) e

begin_chunk-shut :
    (c : CentralBuffer) (f : Format) → c.has_chunk ≡ false → begin_chunk c f ≡ fresh c f
unfolding begin_chunk fresh
begin_chunk-shut c f e = ap (λ b. if b then c else fresh c f) e

module _ {n : ℕ} {c : CentralBuffer} {q : List AudioChunk} (f : Format) (v : IsFormat f)
    (h : Holds n c q) where
  fresh-HoldsOpen : c.has_chunk ≡ false → HoldsOpen n (fresh c f) q (taken c q)
  unfolding fresh
  fresh-HoldsOpen shut = record {
    holds = record {
      ring_valid = h.ring_valid;
      sized = h.sized;
      stored = h.stored;
      chunks = h.chunks;
      current = record {
        sec_fits = v.sec_fits;
        usec_fits = v.usec_fits;
        hash_fits = v.hash_fits;
        rate_fits = v.rate_fits;
        channels_fit = v.channels_fit;
        width_fits = omega arith;
        size_in = omega arith;
        storage = h.current.storage;
      };
    };
    opened = refl;
    data_taken = ap (λ b. pcm_of_all q ++ (if b then pcm_of c.current_chunk else [])) (sym shut);
  }

  pub begin_chunk-HoldsOpen : HoldsOpen n (begin_chunk c f) q (taken c q)
  begin_chunk-HoldsOpen = elim (Bool-cases c.has_chunk) [
    | inl begun ↦
        subst (λ d. HoldsOpen n d q (taken c q)) (sym (begin_chunk-open c f begun))
          (record { holds = h; opened = begun; data_taken = refl })
    | inr shut ↦
        subst (λ d. HoldsOpen n d q (taken c q)) (sym (begin_chunk-shut c f shut))
          (fresh-HoldsOpen shut)
  ]

-- Data into a chunk that has begun: as much as fits it.
module _ {n : ℕ} {c : CentralBuffer} {q : List AudioChunk} {xs : List ℕ} (o : HoldsOpen n c q xs)
    (bytes : List ℕ) (small : length bytes < 2 ^ 63) where
  fitting : ℕ
  fitting = min (length bytes) (pcm_chunk_size - c.current_chunk.pcm_size)

  to_write_size_lem :
      to_write_size c (length bytes)
      ≡ min (length bytes) (pcm_chunk_size - c.current_chunk.pcm_size)
  unfolding to_write_size
  to_write_size_lem = let d = o.holds.current in ground arith

  grown : AudioChunk
  unfolding fitting
  grown = record c.current_chunk {
    pcm_data = copy_at c.current_chunk.pcm_data c.current_chunk.pcm_size (take fitting bytes);
    pcm_size = c.current_chunk.pcm_size + fitting;
  }

  fill_chunk_lem : fill_chunk c bytes ≡ (fitting, record c { current_chunk = grown })
  unfolding fill_chunk grown fitting
  fill_chunk_lem =
      let sum : add_size c.current_chunk.pcm_size fitting ≡ c.current_chunk.pcm_size + fitting =
        omega (arith, o.holds.current.size_in) in
      rw (to_write_size_lem, sum) refl

  grown-IsChunk : IsChunk grown
  unfolding grown fitting
  grown-IsChunk =
      let d = o.holds.current in
      record {
        sec_fits = d.sec_fits;
        usec_fits = d.usec_fits;
        hash_fits = d.hash_fits;
        rate_fits = d.rate_fits;
        channels_fit = d.channels_fit;
        width_fits = d.width_fits;
        size_in = omega (arith, d.size_in);
        storage =
            length-copy_at c.current_chunk.pcm_data c.current_chunk.pcm_size (take fitting bytes)
            ∙ d.storage;
      }

  length-fitting : length (take fitting bytes) ≡ fitting
  unfolding fitting
  length-fitting = omega (arith, length-take fitting bytes)

  fitting-fits :
      c.current_chunk.pcm_size + length (take fitting bytes) ≤ length c.current_chunk.pcm_data
  unfolding fitting
  fitting-fits = omega (arith, length-fitting, o.holds.current.size_in, o.holds.current.storage)

  pcm_of-grown : pcm_of grown ≡ pcm_of c.current_chunk ++ take fitting bytes
  unfolding grown
  pcm_of-grown =
      ap (λ k. take (c.current_chunk.pcm_size + k) grown.pcm_data) (sym length-fitting)
      ∙ take-copy_at c.current_chunk.pcm_data c.current_chunk.pcm_size (take fitting bytes)
          fitting-fits

  grown-HoldsOpen : HoldsOpen n (record c { current_chunk = grown }) q (xs ++ take fitting bytes)
  grown-HoldsOpen = record {
    holds = record {
      ring_valid = o.holds.ring_valid;
      sized = o.holds.sized;
      stored = o.holds.stored;
      chunks = o.holds.chunks;
      current = grown-IsChunk;
    };
    opened = o.opened;
    data_taken =
        ap (λ b. pcm_of_all q ++ (if b then pcm_of grown else [])) o.opened
        ∙ ap (λ l. pcm_of_all q ++ l) pcm_of-grown
        ∙ sym (append_assoc (pcm_of_all q) (pcm_of c.current_chunk) (take fitting bytes))
        ∙ ap
            (λ b.
              (pcm_of_all q ++ (if b then pcm_of c.current_chunk else [])) ++ take fitting bytes)
            (sym o.opened)
        ∙ ap (λ l. l ++ take fitting bytes) o.data_taken;
  }

  pub fill_chunk-HoldsOpen :
      HoldsOpen n (fill_chunk c bytes).1 q (xs ++ take (fill_chunk c bytes).0 bytes)
      × ((fill_chunk c bytes).0 ≡ min (length bytes) (pcm_chunk_size - c.current_chunk.pcm_size))
  unfolding fitting
  fill_chunk-HoldsOpen = (
    subst (λ (r : ℕ × CentralBuffer). HoldsOpen n r.1 q (xs ++ take r.0 bytes)) (sym fill_chunk_lem)
        grown-HoldsOpen,
    ap (λ (r : ℕ × CentralBuffer). r.0) fill_chunk_lem,
  )
