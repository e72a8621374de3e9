-- ===== src/SocketStream/Input.antt =====
-- What `underflow` and `xsgetn` of main/io/SocketStream.cpp read: the bytes of the socket in their order.
use bell.Prelude.{
  ℕ, zero, suc, ◌-◌, ◌≤◌, ◌<◌, ◌≡◌, ◌⊎◌, inl, inr, refl, sym, ap, ap₂, ◌∙◌, Bool, true, false, List,
  [], ◌∷◌, ◌++◌, append_assoc, none, some, length, take, drop, leb, ◌>>=?◌, arith, Option-cases,
  Bool-cases, length-append, length-take, take-append-drop,
}
use bell.SocketStream.{Socket, SocketBuffer, buf_len, get_direct, xsgetn, underflow}
use bell.SocketStream.Documented.{IsDocumented, taken, readable, sent_of, incoming_of}
use bell.SocketStream.Output.{IsValid}

module _ {k : Socket} (d : IsDocumented k) where
  open k use {State, read}
  open d use {sent, incoming, read_le, read_some, read_failed, read_sent}

  -- The last read that led to a state has found the end, or has failed.
  abbrev pub Ended : State → Type 0
  Ended s' =
      (s : State) × (n : ℕ) × (0 < n)
      × (s' ≡ (read s n).1)
      × (((read s n).0 ≡ none) ⊎ ((read s n).0 ≡ some []))

  -- A buffer with nothing left, whose last read has found the end or has failed.
  abbrev pub AtEnd : SocketBuffer State → Type 0
  AtEnd b = (s : State) × (b.internal_socket ≡ some s) × (b.ahead ≡ []) × Ended s

  get_direct-Reads :
      (fuel : ℕ) (s : State) (n : ℕ)
      → n ≤ fuel
      → (got : List ℕ) × (s' : State) × (get_direct k fuel s n ≡ some (got, s'))
        × (got ++ incoming s' ≡ incoming s)
        × (sent s' ≡ sent s)
        × ((length got ≡ n) ⊎ ((length got ≤ n) × Ended s'))
  unfolding get_direct
  get_direct-Reads fuel s zero h = ([], s, refl, refl, refl, inl refl)
  get_direct-Reads zero s (suc n) h = absurd (omega arith)
  get_direct-Reads (suc fuel) s (suc n) h = elim (Option-cases (read s (suc n)).0) [
    | inl failed ↦ (
      [],
      (read s (suc n)).1,
      rw (failed, get_direct),
      read_failed s (suc n) failed,
      read_sent s (suc n),
      inr (omega arith, (s, suc n, omega arith, refl, inl failed)),
    )
    | inr ([], e) ↦ (
      [],
      (read s (suc n)).1,
      rw (e, get_direct),
      read_some s (suc n) [] e,
      read_sent s (suc n),
      inr (omega arith, (s, suc n, omega arith, refl, inr e)),
    )
    | inr (c ∷ cs, e) ↦
        let fits = read_le s (suc n) (c ∷ cs) e in
        let (got, s', run, view, same, ends) =
          get_direct-Reads fuel (read s (suc n)).1 (suc n - length (c ∷ cs)) (omega arith) in
        (
          (c ∷ cs) ++ got,
          s',
          rw (e, get_direct) (ap (λ o. o >>=? (λ r. some ((c ∷ cs) ++ r.0, r.1))) run),
          append_assoc (c ∷ cs) got (incoming s')
              ∙ ap (λ (t : List ℕ). (c ∷ cs) ++ t) view
              ∙ read_some s (suc n) (c ∷ cs) e,
          same ∙ read_sent s (suc n),
          elim ends [
            | inl whole ↦ inl (omega (arith, length-append (c ∷ cs) got))
            | inr (le, ended) ↦ inr (omega (arith, length-append (c ∷ cs) got), ended)
          ],
        )
  ]

  -- From a buffer to the next one, with the characters that were given in between.
  pub record Gives (b : SocketBuffer State) (out : List ℕ) (b' : SocketBuffer State) : Type 0 where
    pub valid : IsValid d b'
    pub connected : (s : State) × (b'.internal_socket ≡ some s)
    pub given : out ++ readable d b' ≡ readable d b
    pub unwritten : taken d b' ≡ taken d b

  -- Over a documented socket, `xsgetn` of `n` characters returns. It gives the next `n` that the buffer
  -- and the socket have, or fewer after a read that found the end or failed, and leaves the others; what
  -- is to be written is left as it is.
  pub xsgetn-Gives :
      (fuel : ℕ) (b : SocketBuffer State) (s : State) (n : ℕ)
      → IsValid d b
      → b.internal_socket ≡ some s
      → n ≤ fuel
      → (out : List ℕ) × (b' : SocketBuffer State) × (xsgetn k fuel b n ≡ some (out, b'))
        × Gives b out b'
        × ((length out ≡ n) ⊎ ((length out ≤ n) × AtEnd b'))
  unfolding xsgetn
  xsgetn-Gives fuel b s n v e h = elim (Bool-cases (leb n (length b.ahead))) [
    | inl there ↦ (
      take n b.ahead,
      record b { ahead = drop n b.ahead },
      rw (there, xsgetn),
      record {
        valid = record { placed = v.placed; whole = v.whole };
        connected = (s, e);
        given =
            sym (append_assoc (take n b.ahead) (drop n b.ahead) (incoming_of d b.internal_socket))
            ∙ ap (λ (t : List ℕ). t ++ incoming_of d b.internal_socket)
                (take-append-drop n b.ahead);
        unwritten = refl;
      },
      inl (ground (arith, length-take n b.ahead)),
    )
    | inr more ↦
        let (got, s', run, view, same, ends) =
          get_direct-Reads fuel s (n - length b.ahead) (omega arith) in
        let le : length b.ahead ≤ n = ground arith in
        (
          b.ahead ++ got,
          record b { internal_socket = some s'; ahead = [] },
          rw (more, xsgetn, e, run),
          record {
            valid = record { placed = v.placed; whole = v.whole };
            connected = (s', refl);
            given =
                append_assoc b.ahead got (incoming s')
                ∙ ap (λ (t : List ℕ). b.ahead ++ t) view
                ∙ ap (λ o. b.ahead ++ incoming_of d o) (sym e);
            unwritten =
                ap (λ (t : List ℕ). t ++ b.pending) same
                ∙ ap (λ o. sent_of d o ++ b.pending) (sym e);
          },
          elim ends [
            | inl whole ↦ inl (omega (arith, length-append b.ahead got))
            | inr (short, ended) ↦
                inr (omega (arith, length-append b.ahead got), (s', refl, refl, ended))
          ],
        )
  ]

  pub refilled :
      (b : SocketBuffer State) (s : State) (got : List ℕ)
      → IsValid d b
      → b.internal_socket ≡ some s
      → b.ahead ≡ []
      → got ++ incoming (read s buf_len).1 ≡ incoming s
      → Gives b [] (record b { internal_socket = some (read s buf_len).1; ahead = got })
  refilled b s got v e empty view = record {
    valid = record { placed = v.placed; whole = v.whole };
    connected = ((read s buf_len).1, refl);
    given = view ∙ ap₂ (λ (t : List ℕ) o. t ++ incoming_of d o) (sym empty) (sym e);
    unwritten =
        ap (λ (t : List ℕ). t ++ b.pending) (read_sent s buf_len)
        ∙ ap (λ o. sent_of d o ++ b.pending) (sym e);
  }

  -- Over a documented socket, `underflow` with nothing in the get area loses nothing: it says that a
  -- character is there when the get area has one, and else a read has found the end or has failed.
  pub underflow-Gives :
      (b : SocketBuffer State) (s : State)
      → IsValid d b
      → b.internal_socket ≡ some s
      → b.ahead ≡ []
      → (there : Bool) × (b' : SocketBuffer State) × (underflow k b ≡ some (there, b'))
        × Gives b [] b'
        × (((there ≡ true) × (0 < length b'.ahead)) ⊎ ((there ≡ false) × AtEnd b'))
  unfolding underflow
  underflow-Gives b s v e empty = elim (Option-cases (read s buf_len).0) [
    | inl failed ↦ (
      false,
      record b { internal_socket = some (read s buf_len).1; ahead = [] },
      rw (e, failed, underflow),
      refilled b s [] v e empty (read_failed s buf_len failed),
      inr (refl, ((read s buf_len).1, refl, refl, (s, buf_len, omega arith, refl, inl failed))),
    )
    | inr ([], end) ↦ (
      false,
      record b { internal_socket = some (read s buf_len).1; ahead = [] },
      rw (e, end, underflow),
      refilled b s [] v e empty (read_some s buf_len [] end),
      inr (refl, ((read s buf_len).1, refl, refl, (s, buf_len, omega arith, refl, inr end))),
    )
    | inr (c ∷ cs, more) ↦ (
      true,
      record b { internal_socket = some (read s buf_len).1; ahead = c ∷ cs },
      rw (e, more, underflow),
      refilled b s (c ∷ cs) v e empty (read_some s buf_len (c ∷ cs) more),
      inl (refl, omega arith),
    )
  ]
