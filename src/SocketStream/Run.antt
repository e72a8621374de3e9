-- ===== src/SocketStream/Run.antt =====
-- Any sequence of reads and writes on one connection of main/io/SocketStream.cpp, as two sequences of
-- characters: what the peer is given, and what the peer gives.
use bell.Prelude.{
  ℕ, suc, ◌+◌, ◌≤◌, ◌≡◌, refl, sym, ap, ◌∙◌, List, [], ◌∷◌, ◌++◌, append-nil, append_assoc, Option,
  some, length, take, ◌>>=?◌, arith,
}
use bell.SocketStream.{Socket, SocketBuffer, buf_len, sync, xsputn, xsgetn}
use bell.SocketStream.Documented.{IsDocumented, taken, readable}
use bell.SocketStream.Output.{IsValid, sync-Accepts, xsputn-Accepts}
use bell.SocketStream.Input.{xsgetn-Gives}

-- A call of the stream on its buffer.
pub data Op : Type 0 where
  put : List ℕ → Op
  flush : Op
  get : ℕ → Op

-- The characters that a call has taken, and those that it has given.
abbrev pub Reply : Type 0
Reply = List ℕ × List ℕ

module _ (k : Socket) where
  open k use {State}

  unfoldable pub step : ℕ → Op → SocketBuffer State → Option (Reply × SocketBuffer State)
  step fuel (put bytes) b = xsputn k fuel b bytes >>=? (λ r. some ((take r.0 bytes, []), r.1))
  step fuel flush b = sync k fuel b >>=? (λ r. some (([], []), r.1))
  step fuel (get n) b = xsgetn k fuel b n >>=? (λ r. some (([], r.0), r.1))

  unfoldable pub run : ℕ → List Op → SocketBuffer State → Option (List Reply × SocketBuffer State)
  run fuel [] b = some ([], b)
  run fuel (op ∷ ops) b =
      step fuel op b >>=? (λ r. run fuel ops r.1 >>=? (λ t. some (r.0 ∷ t.0, t.1)))

abbrev pub all_taken : List Reply → List ℕ
all_taken [] = []
all_taken ((bytes, out) ∷ replies) = bytes ++ all_taken replies

abbrev pub all_given : List Reply → List ℕ
all_given [] = []
all_given ((bytes, out) ∷ replies) = out ++ all_given replies

-- How many rounds a call may need.
abbrev pub rounds : Op → ℕ
rounds (put bytes) = buf_len + length bytes
rounds flush = buf_len
rounds (get n) = n

abbrev pub AllWithin : ℕ → List Op → Type 0
AllWithin fuel [] = 0 ≤ fuel
AllWithin fuel (op ∷ ops) = (rounds op ≤ fuel) × AllWithin fuel ops

module _ {k : Socket} (d : IsDocumented k) where
  open k use {State}

  -- What holds between two calls.
  pub record Between (b : SocketBuffer State) (reply : Reply) (b' : SocketBuffer State)
      : Type 0 where
    pub valid : IsValid d b'
    pub connected : (s : State) × (b'.internal_socket ≡ some s)
    pub written : taken d b' ≡ taken d b ++ reply.0
    pub unread : reply.1 ++ readable d b' ≡ readable d b

  step-Between :
      (fuel : ℕ) (op : Op) (b : SocketBuffer State) (s : State)
      → IsValid d b
      → b.internal_socket ≡ some s
      → rounds op ≤ fuel
      → (reply : Reply) × (b' : SocketBuffer State) × (step k fuel op b ≡ some (reply, b'))
        × Between b reply b'
  unfolding step
  step-Between fuel (put bytes) b s v e h =
      let (n, b', done, le, a, _) =
        xsputn-Accepts d fuel b s bytes v e (omega (arith, v.placed, v.whole)) in
      (
        (take n bytes, []),
        b',
        ap (λ o. o >>=? (λ r. some ((take r.0 bytes, []), r.1))) done,
        record { valid = a.valid; connected = a.connected; written = a.written; unread = a.unread },
      )
  step-Between fuel flush b s v e h =
      let (ok, b', done, a, _) = sync-Accepts d fuel b s v e (omega (arith, v.placed, v.whole)) in
      (
        ([], []),
        b',
        ap (λ o. o >>=? (λ r. some (([], []), r.1))) done,
        record { valid = a.valid; connected = a.connected; written = a.written; unread = a.unread },
      )
  step-Between fuel (get n) b s v e h =
      let (out, b', done, g, _) = xsgetn-Gives d fuel b s n v e h in
      (
        ([], out),
        b',
        ap (λ o. o >>=? (λ r. some (([], r.0), r.1))) done,
        record {
          valid = g.valid;
          connected = g.connected;
          written = g.unwritten ∙ sym (append-nil (taken d b));
          unread = g.given;
        },
      )

  -- On a connection over a documented socket, any sequence of `xsputn`, `sync` and `xsgetn` from a valid
  -- buffer returns, with fuel for the longest call. The characters sent or pending are then those before
  -- with all that the writes have taken behind them, in order; and what the reads have given, in order,
  -- with what is still readable behind it, is what was readable before.
  pub run_conserves :
      (fuel : ℕ) (ops : List Op) (b : SocketBuffer State) (s : State)
      → IsValid d b
      → b.internal_socket ≡ some s
      → AllWithin fuel ops
      → (replies : List Reply) × (b' : SocketBuffer State) × (run k fuel ops b ≡ some (replies, b'))
        × (length replies ≡ length ops)
        × (taken d b' ≡ taken d b ++ all_taken replies)
        × (all_given replies ++ readable d b' ≡ readable d b)
  unfolding run
  run_conserves fuel [] b s v e h = ([], b, refl, refl, sym (append-nil (taken d b)), refl)
  run_conserves fuel (op ∷ ops) b s v e (h, hs) =
      let (reply, b', done, between) = step-Between fuel op b s v e h in
      let (s', e') = between.connected in
      let (replies, b'', rest, len, put_all, got_all) =
        run_conserves fuel ops b' s' between.valid e' hs in
      (
        reply ∷ replies,
        b'',
        rw (done, rest),
        ap suc len,
        put_all
            ∙ ap (λ (t : List ℕ). t ++ all_taken replies) between.written
            ∙ append_assoc (taken d b) reply.0 (all_taken replies),
        append_assoc reply.1 (all_given replies) (readable d b'')
            ∙ ap (λ (t : List ℕ). reply.1 ++ t) got_all
            ∙ between.unread,
      )
