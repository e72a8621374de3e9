-- ===== src/SocketStream/Writes.antt =====
-- The loops of `sync` and `xsputn` of main/io/SocketStream.cpp over a documented socket.
use bell.Prelude.{
  ℕ, zero, suc, ◌≤◌, ◌<◌, ◌≡◌, ◌⊎◌, inl, inr, refl, ap, ◌∙◌, Bool, true, false, List, [], ◌∷◌, ◌++◌,
  append_assoc, none, some, length, take, drop, ltb, arith, Option-cases, Bool-cases, length-drop,
  take-append-drop,
}
use bell.SocketStream.Documented.{IsDocumented, Broken, Broken-same}
use bell.SocketStream.{Socket, buf_len, write_out, put_direct}

module _ {k : Socket} (d : IsDocumented k) where
  open k use {State, write}
  open d use {sent, incoming, write_le, write_pos, write_sent, write_failed, write_incoming}

  -- All is written, or a write has failed.
  abbrev pub Ends : List ℕ → Bool → List ℕ → State → Type 0
  Ends whole ok rest s' = ((ok ≡ true) × (rest ≡ [])) ⊎ ((ok ≡ false) × Broken d whole (some s'))

  -- One write, and what it leaves to be written.
  one_write :
      (s : State) (bytes : List ℕ) (n : ℕ)
      → (write s bytes).0 ≡ some n
      → sent (write s bytes).1 ++ drop n bytes ≡ sent s ++ bytes
  one_write s bytes n e =
      ap (λ (t : List ℕ). t ++ drop n bytes) (write_sent s bytes n e)
      ∙ append_assoc (sent s) (take n bytes) (drop n bytes)
      ∙ ap (λ (t : List ℕ). sent s ++ t) (take-append-drop n bytes)

  -- What the loop of `sync` does: an end with what is left, where nothing is lost.
  pub record Written (s : State) (bytes rest : List ℕ) (s' : State) : Type 0 where
    pub kept : sent s' ++ rest ≡ sent s ++ bytes
    pub unread : incoming s' ≡ incoming s
    pub shorter : length rest ≤ length bytes

  after_write :
      (s : State) (bytes : List ℕ) (n : ℕ) (rest : List ℕ) (s' : State)
      → (write s bytes).0 ≡ some n
      → Written (write s bytes).1 (drop n bytes) rest s'
      → Written s bytes rest s'
  after_write s bytes n rest s' e w = record {
    kept = w.kept ∙ one_write s bytes n e;
    unread = w.unread ∙ write_incoming s bytes;
    shorter = omega (arith, w.shorter, length-drop n bytes);
  }

  refused :
      (s : State) (bytes : List ℕ)
      → (write s bytes).0 ≡ none
      → Written s bytes bytes (write s bytes).1
  refused s bytes e = record {
    kept = ap (λ (t : List ℕ). t ++ bytes) (write_failed s bytes e);
    unread = write_incoming s bytes;
    shorter = omega arith;
  }

  broken :
      (s : State) (bytes : List ℕ)
      → (write s bytes).0 ≡ none
      → Broken d (sent s ++ bytes) (some (write s bytes).1)
  broken s bytes e = record { before = s; rest = bytes; failed = e; left = refl; unsent = refl }

  nothing : (s : State) (bytes : List ℕ) → Written s bytes bytes s
  nothing s bytes = record { kept = refl; unread = refl; shorter = omega arith }

  pub write_out-Written :
      (fuel : ℕ) (s : State) (bytes : List ℕ)
      → length bytes ≤ fuel
      → (ok : Bool) × (rest : List ℕ) × (s' : State) × (write_out k fuel s bytes
          ≡ some (ok, rest, s'))
        × Written s bytes rest s'
        × Ends (sent s ++ bytes) ok rest s'
  unfolding write_out
  write_out-Written fuel s [] h = (true, [], s, refl, nothing s [], inl (refl, refl))
  write_out-Written zero s (c ∷ cs) h = absurd (omega arith)
  write_out-Written (suc fuel) s (c ∷ cs) h = elim (Option-cases (write s (c ∷ cs)).0) [
    | inl failed ↦ (
      false,
      c ∷ cs,
      (write s (c ∷ cs)).1,
      rw (failed, write_out),
      refused s (c ∷ cs) failed,
      inr (refl, broken s (c ∷ cs) failed),
    )
    | inr (n, e) ↦
        let (ok, rest, s', run, w, ends) =
          write_out-Written fuel (write s (c ∷ cs)).1 (drop n (c ∷ cs))
            (omega (arith, length-drop n (c ∷ cs), write_pos s (c ∷ cs) n e (omega arith))) in
        (
          ok,
          rest,
          s',
          rw (e, write_out) run,
          after_write s (c ∷ cs) n rest s' e w,
          elim ends [
            | inl all ↦ inl all
            | inr (failed, b) ↦ inr (failed, Broken-same d (one_write s (c ∷ cs) n e) b)
          ],
        )
  ]

  -- The loop of `xsputn` leaves what fits the buffer, or a write has failed.
  pub put_direct-Written :
      (fuel : ℕ) (s : State) (bytes : List ℕ)
      → length bytes ≤ fuel
      → (ok : Bool) × (rest : List ℕ) × (s' : State) × (put_direct k fuel s bytes
          ≡ some (ok, rest, s'))
        × Written s bytes rest s'
        × (((ok ≡ true) × (length rest ≤ buf_len))
            ⊎ ((ok ≡ false) × Broken d (sent s ++ bytes) (some s')))
  unfolding put_direct
  put_direct-Written zero s bytes h =
      let short : ltb buf_len (length bytes) ≡ false = ground arith in
      (true, bytes, s, rw (short, put_direct), nothing s bytes, inl (refl, omega arith))
  put_direct-Written (suc fuel) s bytes h = elim (Bool-cases (ltb buf_len (length bytes))) [
    | inr short ↦
        (true, bytes, s, rw (short, put_direct), nothing s bytes, inl (refl, ground arith))
    | inl long ↦ elim (Option-cases (write s bytes).0) [
      | inl failed ↦ (
        false,
        bytes,
        (write s bytes).1,
        rw (long, failed, put_direct),
        refused s bytes failed,
        inr (refl, broken s bytes failed),
      )
      | inr (n, e) ↦
          let some_bytes : 0 < length bytes = ground arith in
          let (ok, rest, s', run, w, ends) =
            put_direct-Written fuel (write s bytes).1 (drop n bytes)
              (omega (arith, length-drop n bytes, write_pos s bytes n e some_bytes)) in
          (
            ok,
            rest,
            s',
            rw (long, e, put_direct) run,
            after_write s bytes n rest s' e w,
            elim ends [
              | inl fits ↦ inl fits
              | inr (failed, b) ↦ inr (failed, Broken-same d (one_write s bytes n e) b)
            ],
          )
    ]
  ]
