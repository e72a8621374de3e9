-- ===== src/SocketStream/Reopen.antt =====
-- What `close` and `open` of main/io/SocketStream.cpp do to the two areas of the buffer and to the socket.
use mathlib.Core.Path.{subst}
use bell.Prelude.{
  ℕ, ◌≤◌, ◌≡◌, ◌⊎◌, inl, inr, refl, sym, ap, ◌∙◌, Bool, true, false, List, [], ◌∷◌, ◌++◌,
  append-nil, Option, none, some, length, ◌>>=?◌, arith, Option-cases,
}
use bell.SocketStream.{
  Socket, SocketBuffer, write_out, synced, sync, sync_with, is_open, shut, close, open_socket,
  open_over, closed, socket_open,
}
use bell.SocketStream.Documented.{IsDocumented, Broken, taken, readable, sent_of}
use bell.SocketStream.Output.{IsValid, sync-Accepts}

module _ (k : Socket) where
  open k use {State}

  ahead-synced :
      (b : SocketBuffer State) (r : Bool × List ℕ × State) → (synced k b r).ahead ≡ b.ahead
  ahead-synced b (true, rest, s) = refl
  ahead-synced b (false, rest, s) = refl

  ahead-sync_with :
      (fuel : ℕ) (o : Option State) (b : SocketBuffer State) (bytes : List ℕ) (ok : Bool)
      (b' : SocketBuffer State)
      → sync_with k fuel o b bytes ≡ some (ok, b')
      → b'.ahead ≡ b.ahead
  unfolding sync_with
  ahead-sync_with fuel o b [] ok b' e = ground arith
  ahead-sync_with fuel none b (c ∷ cs) ok b' e = cc
  ahead-sync_with fuel (some s) b (c ∷ cs) ok b' e =
      elim (Option-cases (write_out k fuel s (c ∷ cs))) [
        | inl stuck ↦ cc (sym (ap (λ o. o >>=? (λ r. some (r.0, synced k b r))) stuck) ∙ e)
        | inr (r, done) ↦
            let same : some (r.0, synced k b r) ≡ some (ok, b') =
              sym (ap (λ o. o >>=? (λ r. some (r.0, synced k b r))) done) ∙ e in
            let same_b : synced k b r ≡ b' = ground (arith, same) in
            sym (ap (λ (t : SocketBuffer State). t.ahead) same_b) ∙ ahead-synced b r
      ]

  ahead-sync :
      (fuel : ℕ) (b : SocketBuffer State) (ok : Bool) (b' : SocketBuffer State)
      → sync k fuel b ≡ some (ok, b')
      → b'.ahead ≡ b.ahead
  unfolding sync
  ahead-sync fuel b ok b' e = ahead-sync_with fuel b.internal_socket b b.pending ok b' e

  close-sync :
      (fuel : ℕ) (b b' : SocketBuffer State) (ok : Bool)
      → is_open k b ≡ true
      → sync k fuel b ≡ some (ok, b')
      → close k fuel b ≡ some (shut k b', closed k b'.internal_socket)
  unfolding close
  close-sync fuel b b' ok opened run = rw (opened, run)

module _ {k : Socket} (d : IsDocumented k) where
  open k use {State}
  open d use {sent, incoming}

  -- `open` while a connection is open closes it, after all that was pending has been sent to the old peer,
  -- and returns 0; where a write of it has failed, what was not sent is still pending, and so goes to the
  -- new peer. Nothing drops the characters in the get area: those of the old connection that have not been
  -- read come before the bytes of the new one.
  pub open_socket-keeps :
      (fuel : ℕ) (b : SocketBuffer State) (s fresh : State)
      → IsValid d b
      → b.internal_socket ≡ some s
      → k.is_open s ≡ true
      → length b.pending ≤ fuel
      → (left : SocketBuffer State) × (last : State) × (close k fuel b
          ≡ some (left, some (k.close last)))
        × (open_socket k fuel fresh b ≡ some (0, record left { internal_socket = some fresh }))
        × (readable d (record left { internal_socket = some fresh }) ≡ b.ahead ++ incoming fresh)
        × (sent last ++ left.pending ≡ taken d b)
        × ((left.pending ≡ []) ⊎ Broken d (taken d b) (some last))
  unfolding open_socket is_open open_over
  open_socket-keeps fuel b s fresh v e opened h =
      let (ok, b', run, a, ends) = sync-Accepts d fuel b s v e h in
      let (last, there) = a.connected in
      let closes =
        close-sync k fuel b b' ok (ap (socket_open k) e ∙ opened) run
        ∙ ap (λ o. some (shut k b', closed k o)) there in
      (
        shut k b',
        last,
        closes,
        ap (λ o. open_over k fuel fresh o b) e
            ∙ ap (λ o. o >>=? (λ r. some (0, record r.0 { internal_socket = some fresh }))) closes,
        ap (λ (t : List ℕ). t ++ incoming fresh) (ahead-sync k fuel b ok b' run),
        ap (λ o. sent_of d o ++ b'.pending) (sym there) ∙ a.written ∙ append-nil (taken d b),
        elim ends [
          | inl (_, i) ↦ inl i.none_left
          | inr (_, r) ↦ inr (subst (Broken d (taken d b)) there r)
        ],
      )
