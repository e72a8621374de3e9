-- ===== src/SocketStream/Output.antt =====
-- `sync` and `xsputn` of main/io/SocketStream.cpp lose, double and move no character that they accept.
use bell.Prelude.{
  ℕ, ◌+◌, ◌-◌, ◌≤◌, ◌≡◌, ◌⊎◌, inl, inr, refl, sym, ap, ap₂, ◌∙◌, Bool, true, false, List, [], ◌∷◌,
  ◌++◌, append-nil, append_assoc, some, length, take, leb, ◌>>=?◌, arith, Bool-cases, length-append,
  take-all, take-length-append, take-append,
}
use bell.SocketStream.Documented.{
  IsDocumented, Broken, Broken-same, taken, readable, sent_of, incoming_of,
}
use bell.SocketStream.Writes.{Written, Ends, write_out-Written, put_direct-Written}
use bell.SocketStream.{
  Socket, SocketBuffer, buf_len, synced, sync, put_rest, xsputn, sync_with, put_through,
}

prefix_lem :
    (xs' r xs ys : List ℕ)
    → xs' ++ r ≡ xs ++ ys
    → length r ≤ length ys
    → xs' ≡ xs ++ take (length ys - length r) ys
prefix_lem xs' r xs ys e h =
    let n : length xs' ≡ length xs + (length ys - length r) =
      omega (arith, ap length e, length-append xs' r, length-append xs ys) in
    sym (take-length-append xs' r) ∙ ap₂ take n e ∙ take-append (length ys - length r) xs ys

module _ {k : Socket} (d : IsDocumented k) where
  open k use {State, write}
  open d use {sent, incoming}

  -- The put area lies in `obuf`.
  pub record IsValid (b : SocketBuffer State) : Type 0 where
    pub placed : b.pbase + length b.pending ≤ b.epptr
    pub whole : b.epptr ≤ buf_len

  -- From a buffer to the next one, with the characters that were taken in between.
  pub record Accepts (b : SocketBuffer State) (bytes : List ℕ) (b' : SocketBuffer State)
      : Type 0 where
    pub valid : IsValid b'
    pub connected : (s : State) × (b'.internal_socket ≡ some s)
    pub written : taken d b' ≡ taken d b ++ bytes
    pub unread : readable d b' ≡ readable d b

  -- The put area is empty and has all of `obuf`.
  pub record IsEmptied (b : SocketBuffer State) : Type 0 where
    pub none_left : b.pending ≡ []
    pub at_start : b.pbase ≡ 0
    pub room : b.epptr ≡ buf_len

  synced-Accepts :
      (b : SocketBuffer State) (s : State) (ok : Bool) (rest : List ℕ) (s' : State)
      → IsValid b
      → b.internal_socket ≡ some s
      → Written d s b.pending rest s'
      → Ends d (sent s ++ b.pending) ok rest s'
      → Accepts b [] (synced k b (ok, rest, s'))
        × (((ok ≡ true) × IsEmptied (synced k b (ok, rest, s')))
            ⊎ ((ok ≡ false) × Broken d (taken d b) (synced k b (ok, rest, s')).internal_socket))
  synced-Accepts b s true rest s' v e w (inl (_, none_left)) = (
    record {
      valid = record { placed = omega arith; whole = omega arith };
      connected = (s', refl);
      written =
          ap (λ (t : List ℕ). sent s' ++ t) (sym none_left)
          ∙ w.kept
          ∙ ap (λ o. sent_of d o ++ b.pending) (sym e)
          ∙ sym (append-nil (taken d b));
      unread =
          ap (λ (t : List ℕ). b.ahead ++ t) w.unread ∙ ap (λ o. b.ahead ++ incoming_of d o) (sym e);
    },
    inl (refl, record { none_left = refl; at_start = refl; room = refl }),
  )
  synced-Accepts b s false rest s' v e w (inr (_, r)) = (
    record {
      valid = record { placed = omega (arith, v.placed, v.whole, w.shorter); whole = omega arith };
      connected = (s', refl);
      written = w.kept ∙ ap (λ o. sent_of d o ++ b.pending) (sym e) ∙ sym (append-nil (taken d b));
      unread =
          ap (λ (t : List ℕ). b.ahead ++ t) w.unread ∙ ap (λ o. b.ahead ++ incoming_of d o) (sym e);
    },
    inr (refl, Broken-same d (ap (λ o. sent_of d o ++ b.pending) (sym e)) r),
  )
  synced-Accepts b s true rest s' v e w (inr (f, _)) = cc
  synced-Accepts b s false rest s' v e w (inl (t, _)) = cc

  sync_with-Accepts :
      (fuel : ℕ) (b : SocketBuffer State) (s : State) (pending : List ℕ)
      → b.pending ≡ pending
      → IsValid b
      → b.internal_socket ≡ some s
      → length pending ≤ fuel
      → (ok : Bool) × (b' : SocketBuffer State) × (sync_with k fuel (some s) b pending
          ≡ some (ok, b'))
        × Accepts b [] b'
        × (((ok ≡ true) × IsEmptied b') ⊎ ((ok ≡ false) × Broken d (taken d b) b'.internal_socket))
  unfolding sync_with
  sync_with-Accepts fuel b s [] p v e h = (
    true,
    record b { pbase = 0; epptr = buf_len },
    refl,
    record {
      valid = record { placed = omega (arith, ap length p); whole = omega arith };
      connected = (s, e);
      written = sym (append-nil (taken d b));
      unread = refl;
    },
    inl (refl, record { none_left = p; at_start = refl; room = refl }),
  )
  sync_with-Accepts fuel b s (c ∷ cs) p v e h =
      let (ok, rest, s', run, w, ends) = write_out-Written d fuel s (c ∷ cs) h in
      let w' : Written d s b.pending rest s' = rw p w in
      let ends' : Ends d (sent s ++ b.pending) ok rest s' = rw p ends in
      let (accepts, result) = synced-Accepts b s ok rest s' v e w' ends' in
      (
        ok,
        (synced k b (ok, rest, s')),
        ap (λ o. o >>=? (λ r. some (r.0, synced k b r))) run,
        accepts,
        result,
      )

  -- From a valid buffer over a documented socket, `sync` returns. With 0 the put area is empty and all
  -- that was taken is sent; with -1 a write has failed, and what is not sent is still pending. The
  -- characters taken and those to be read stay the same.
  pub sync-Accepts :
      (fuel : ℕ) (b : SocketBuffer State) (s : State)
      → IsValid b
      → b.internal_socket ≡ some s
      → length b.pending ≤ fuel
      → (ok : Bool) × (b' : SocketBuffer State) × (sync k fuel b ≡ some (ok, b'))
        × Accepts b [] b'
        × (((ok ≡ true) × IsEmptied b') ⊎ ((ok ≡ false) × Broken d (taken d b) b'.internal_socket))
  unfolding sync
  sync-Accepts fuel b s v e h =
      let (ok, b', run, accepts, ends) = sync_with-Accepts fuel b s b.pending refl v e h in
      (ok, b', ap (λ o. sync_with k fuel o b b.pending) e ∙ run, accepts, ends)

  -- One part of a write is sent, the rest is in hand.
  sent_part :
      (s s' : State) (bytes remain : List ℕ)
      → Written d s bytes remain s'
      → sent s' ≡ sent s ++ take (length bytes - length remain) bytes
  sent_part s s' bytes remain w = prefix_lem (sent s') remain (sent s) bytes w.kept w.shorter

  put_rest-Accepts :
      (b : SocketBuffer State) (s : State) (bytes : List ℕ) (ok : Bool) (remain : List ℕ)
      (s' : State)
      → IsEmptied b
      → b.internal_socket ≡ some s
      → Written d s bytes remain s'
      → ((ok ≡ true) × (length remain ≤ buf_len))
        ⊎ ((ok ≡ false) × Broken d (sent s ++ bytes) (some s'))
      → let (n, b') = put_rest k (length bytes) b (ok, remain, s') in
        (n ≤ length bytes)
        × Accepts b (take n bytes) b'
        × ((n ≡ length bytes) ⊎ Broken d (taken d b ++ bytes) b'.internal_socket)
  put_rest-Accepts b s bytes true remain s' i e w (inl (_, fits)) = (
    omega arith,
    record {
      valid = record {
        placed =
            omega
              (arith, length-append b.pending remain, ap length i.none_left, i.at_start, i.room);
        whole = omega (arith, i.room);
      };
      connected = (s', refl);
      written =
          ap (λ (t : List ℕ). sent s' ++ (t ++ remain)) i.none_left
          ∙ w.kept
          ∙ ap₂ (λ (t u : List ℕ). t ++ u)
              (sym (append-nil (sent s))
                ∙ ap₂ (λ o (t : List ℕ). sent_of d o ++ t) (sym e) (sym i.none_left))
              (sym (take-all (length bytes) bytes (omega arith)));
      unread =
          ap (λ (t : List ℕ). b.ahead ++ t) w.unread ∙ ap (λ o. b.ahead ++ incoming_of d o) (sym e);
    },
    inl refl,
  )
  put_rest-Accepts b s bytes false remain s' i e w (inr (_, r)) = (
    omega arith,
    record {
      valid = record {
        placed = omega (arith, ap length i.none_left, i.at_start, i.room);
        whole = omega (arith, i.room);
      };
      connected = (s', refl);
      written =
          ap (λ (t : List ℕ). sent s' ++ t) i.none_left
          ∙ append-nil (sent s')
          ∙ sent_part s s' bytes remain w
          ∙ ap (λ (t : List ℕ). t ++ take (length bytes - length remain) bytes)
              (sym (append-nil (sent s))
                ∙ ap₂ (λ o (t : List ℕ). sent_of d o ++ t) (sym e) (sym i.none_left));
      unread =
          ap (λ (t : List ℕ). b.ahead ++ t) w.unread ∙ ap (λ o. b.ahead ++ incoming_of d o) (sym e);
    },
    inr (
        Broken-same d
          (ap (λ (t : List ℕ). t ++ bytes)
            (sym (append-nil (sent s))
              ∙ ap₂ (λ o (t : List ℕ). sent_of d o ++ t) (sym e) (sym i.none_left)))
          r),
  )
  put_rest-Accepts b s bytes true remain s' i e w (inr (f, _)) = cc
  put_rest-Accepts b s bytes false remain s' i e w (inl (t, _)) = cc

  Accepts-Accepts :
      {b b' b'' : SocketBuffer State} (bytes : List ℕ)
      → Accepts b [] b'
      → Accepts b' bytes b''
      → Accepts b bytes b''
  Accepts-Accepts {b} bytes p q = record {
    valid = q.valid;
    connected = q.connected;
    written = q.written ∙ ap (λ (t : List ℕ). t ++ bytes) (p.written ∙ append-nil (taken d b));
    unread = q.unread ∙ p.unread;
  }

  -- All characters are taken; or a write of what was taken before has failed, and none are taken; or a
  -- write has failed that had to come to the end of these characters.
  abbrev pub Taken : SocketBuffer State → List ℕ → ℕ → SocketBuffer State → Type 0
  Taken b bytes n b' =
      (n ≡ length bytes)
      ⊎ (((n ≡ 0) × Broken d (taken d b) b'.internal_socket)
          ⊎ Broken d (taken d b ++ bytes) b'.internal_socket)

  -- What `xsputn` is to do, as a statement about its result.
  abbrev pub Puts : ℕ → SocketBuffer State → List ℕ → Type 0
  Puts fuel b bytes =
      (n : ℕ) × (b' : SocketBuffer State) × (xsputn k fuel b bytes ≡ some (n, b'))
      × (n ≤ length bytes)
      × Accepts b (take n bytes) b'
      × Taken b bytes n b'

  after_sync :
      (fuel : ℕ) (b : SocketBuffer State) (bytes : List ℕ) (ok : Bool) (b' : SocketBuffer State)
      → leb (b.pbase + length b.pending + length bytes) b.epptr ≡ false
      → length bytes ≤ fuel
      → sync k fuel b ≡ some (ok, b')
      → Accepts b [] b'
      → ((ok ≡ true) × IsEmptied b') ⊎ ((ok ≡ false) × Broken d (taken d b) b'.internal_socket)
      → Puts fuel b bytes
  unfolding xsputn put_through
  after_sync fuel b bytes ok b' full h run a (inr (failed, r)) =
      (0, b', rw (full, xsputn, run, failed), omega arith, a, inr (inl (refl, r)))
  after_sync fuel b bytes ok b' full h run a (inl (done, i)) =
      let (s, e) = a.connected in
      let (ok', remain, s', direct, w, ends) = put_direct-Written d fuel s bytes h in
      let (le, accepts, result) = put_rest-Accepts b' s bytes ok' remain s' i e w ends in
      let (n, b'') = put_rest k (length bytes) b' (ok', remain, s') in
      (
        n,
        b'',
        rw (full, xsputn, run, done, e, direct),
        le,
        Accepts-Accepts (take n bytes) a accepts,
        elim result [
          | inl all ↦ inl all
          | inr r ↦ inr (
              inr (
                Broken-same d (ap (λ (t : List ℕ). t ++ bytes) (a.written ∙ append-nil (taken d b)))
                  r))
        ],
      )

  -- Over a documented socket, `xsputn` returns from a valid buffer, and the count that it returns is
  -- that of the characters taken: these are sent or pending, in their order, behind all that was taken
  -- before. Fewer than all are taken only where the last call on the socket is a write that failed: either a
  -- write of what had been taken before, and then none are taken, or one of the rest of these characters.
  -- What is to be read is left as it is.
  pub xsputn-Accepts :
      (fuel : ℕ) (b : SocketBuffer State) (s : State) (bytes : List ℕ)
      → IsValid b
      → b.internal_socket ≡ some s
      → length b.pending + length bytes ≤ fuel
      → (n : ℕ) × (b' : SocketBuffer State) × (xsputn k fuel b bytes ≡ some (n, b'))
        × (n ≤ length bytes)
        × Accepts b (take n bytes) b'
        × Taken b bytes n b'
  unfolding xsputn
  xsputn-Accepts fuel b s bytes v e h =
      elim (Bool-cases (leb (b.pbase + length b.pending + length bytes) b.epptr)) [
        | inl fits ↦ (
          length bytes,
          record b { pending = b.pending ++ bytes },
          rw (fits, xsputn),
          omega arith,
          record {
            valid = record {
              placed = ground (arith, length-append b.pending bytes);
              whole = v.whole;
            };
            connected = (s, e);
            written =
                sym (append_assoc (sent_of d b.internal_socket) b.pending bytes)
                ∙ ap (λ (t : List ℕ). taken d b ++ t)
                    (sym (take-all (length bytes) bytes (omega arith)));
            unread = refl;
          },
          inl refl,
        )
        | inr full ↦
            let (ok, b', run, a, ends) = sync-Accepts fuel b s v e (omega arith) in
            after_sync fuel b bytes ok b' full (omega arith) run a ends
      ]
