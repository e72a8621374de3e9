-- ===== src/HttpClient/Lines.antt =====
-- `getline` and `read` over a connection that does not break, as main/io/HTTPClient.cpp relies on them.
use bell.Prelude.{
  ℕ, zero, suc, ◌-◌, ◌≤◌, ◌<◌, ◌≡◌, inl, inr, refl, sym, ap, ap₂, ◌∙◌, Bool, true, false, List, [],
  ◌∷◌, ◌++◌, some, length, drop, ◌==◌, ◌>>=?◌, arith, length-append,
}
use bell.SocketStream.{Socket, SocketBuffer, buf_len, underflow}
use bell.SocketStream.Documented.{IsDocumented, IsReliable, taken, readable, incoming_of}
use bell.SocketStream.Output.{IsValid}
use bell.SocketStream.Input.{refilled, xsgetn-Gives, Ended}
use bell.HttpClient.Iostream.{
  IoStream, sgetc, sgetc_from, refill, bump, take_line, at_line_end, getline, read_chars,
}

-- No character of the line is its delimiter.
abbrev pub NoEnd : List ℕ → Type 0
NoEnd [] = 0 ≤ 0
NoEnd (c ∷ cs) = (c == 10 ≡ false) × NoEnd cs

empty_unless : (xs : List ℕ) → (0 < length xs → ⊥) → xs ≡ []
empty_unless [] h = refl
empty_unless (x ∷ xs) h = absurd (h (omega arith))

module _ {k : Socket} (d : IsDocumented k) where
  open k use {State, read}
  open d use {sent, incoming}

  -- A connected buffer that has taken some characters and has others to give.
  pub record Has (written unread : List ℕ) (b : SocketBuffer State) : Type 0 where
    pub valid : IsValid d b
    pub connected : (s : State) × (b.internal_socket ≡ some s)
    pub has_taken : taken d b ≡ written
    pub has_left : readable d b ≡ unread

  same_head : (c e : ℕ) (xs ys : List ℕ) → (c ∷ xs) ≡ (e ∷ ys) → c ≡ e
  same_head c e xs ys p = cc p

  same_tail : (c e : ℕ) (xs ys : List ℕ) → (c ∷ xs) ≡ (e ∷ ys) → xs ≡ ys
  same_tail c e xs ys p = cc p

  -- The next character is in the get area.
  Ready : List ℕ → ℕ → List ℕ → SocketBuffer State → Type 0
  Ready w c rest b = Has w (c ∷ rest) b × ((cs : List ℕ) × (b.ahead ≡ c ∷ cs))

  underflow_more :
      (b : SocketBuffer State) (s : State) (a : ℕ) (cs : List ℕ)
      → b.internal_socket ≡ some s
      → (read s buf_len).0 ≡ some (a ∷ cs)
      → underflow k b
        ≡ some (true, record b { internal_socket = some (read s buf_len).1; ahead = a ∷ cs })
  unfolding underflow
  underflow_more b s a cs at got = rw (at, got, underflow)

  sgetc-Ready :
      (w : List ℕ) (c : ℕ) (rest : List ℕ) (b : SocketBuffer State) (ahead : List ℕ)
      → b.ahead ≡ ahead
      → IsReliable d
      → Has w (c ∷ rest) b
      → (b' : SocketBuffer State) × (sgetc_from k ahead b ≡ some (some c, b')) × Ready w c rest b'
  unfolding sgetc_from refill Ready
  sgetc-Ready w c rest b (a ∷ cs) e reliable h =
      let same : a ≡ c =
        same_head a c (cs ++ incoming_of d b.internal_socket) rest
          (ap (λ (t : List ℕ). t ++ incoming_of d b.internal_socket) (sym e) ∙ h.has_left) in
      (b, ap (λ (t : ℕ). some (some t, b)) same, (h, (cs, e ∙ ap (λ (t : ℕ). t ∷ cs) same)))
  sgetc-Ready w c rest b [] e reliable h =
      let (s, at) = h.connected in
      let all : incoming s ≡ c ∷ rest =
        ap₂ (λ (t : List ℕ) o. t ++ incoming_of d o) (sym e) (sym at) ∙ h.has_left in
      let (a, cs, got) = reliable.reads s buf_len (omega arith) (omega (arith, ap length all)) in
      let view = d.read_some s buf_len (a ∷ cs) got in
      let g = refilled d b s (a ∷ cs) h.valid at e view in
      let same : a ≡ c = same_head a c (cs ++ incoming (read s buf_len).1) rest (view ∙ all) in
      let b' : SocketBuffer State = record b {
        internal_socket = some (read s buf_len).1;
        ahead = a ∷ cs;
      } in
      (
        b',
        ap (λ o. o >>=? (λ r. refill k r.1.ahead r.1)) (underflow_more b s a cs at got)
            ∙ ap (λ (t : ℕ). some (some t, b')) same,
        (
          record {
            valid = g.valid;
            connected = g.connected;
            has_taken = g.unwritten ∙ h.has_taken;
            has_left = g.given ∙ h.has_left;
          },
          (cs, ap (λ (t : ℕ). t ∷ cs) same),
        ),
      )

  bump-Has :
      (w : List ℕ) (c : ℕ) (rest : List ℕ) (b : SocketBuffer State)
      → Ready w c rest b
      → Has w rest (bump k b)
  unfolding Ready
  bump-Has w c rest b (h, (cs, e)) = record {
    valid = record { placed = h.valid.placed; whole = h.valid.whole };
    connected = h.connected;
    has_taken = h.has_taken;
    has_left =
        ap (λ (t : List ℕ). drop 1 t ++ incoming_of d b.internal_socket) e
        ∙ same_tail c c (cs ++ incoming_of d b.internal_socket) rest
            (ap (λ (t : List ℕ). t ++ incoming_of d b.internal_socket) (sym e) ∙ h.has_left);
  }

  -- A line that fits is stored whole, and its delimiter is passed over.
  pub take_line-Has :
      (w line rest : List ℕ) (room : ℕ) (b : SocketBuffer State)
      → IsReliable d
      → NoEnd line
      → length line ≤ room
      → Has w (line ++ (10 ∷ rest)) b
      → (b' : SocketBuffer State) × (take_line k room b ≡ some (line, at_line_end, b'))
        × Has w rest b'
  unfolding take_line sgetc
  take_line-Has w [] rest zero b reliable ok fits h =
      let (b', run, ready) = sgetc-Ready w 10 rest b b.ahead refl reliable h in
      (bump k b', rw run, bump-Has w 10 rest b' ready)
  take_line-Has w [] rest (suc room) b reliable ok fits h =
      let (b', run, ready) = sgetc-Ready w 10 rest b b.ahead refl reliable h in
      (bump k b', rw run, bump-Has w 10 rest b' ready)
  take_line-Has w (c ∷ line) rest zero b reliable ok fits h = absurd (omega arith)
  take_line-Has w (c ∷ line) rest (suc room) b reliable (other, ok) fits h =
      let (b', run, ready) = sgetc-Ready w c (line ++ (10 ∷ rest)) b b.ahead refl reliable h in
      let (b'', runs, left) =
        take_line-Has w line rest room (bump k b') reliable ok (omega arith)
          (bump-Has w c (line ++ (10 ∷ rest)) b' ready) in
      (b'', rw (run, ◌>>=?◌, other, runs), left)

  -- `getline` of a line that fits `n` with its end: all of it is stored, and counted with its end.
  pub getline-Has :
      (w line rest : List ℕ) (n : ℕ) (io : IoStream State)
      → IsReliable d
      → NoEnd line
      → length line < n
      → io.good ≡ true
      → Has w (line ++ (10 ∷ rest)) io.buf
      → (io' : IoStream State) × (getline k n io ≡ some (line, suc (length line), io'))
        × (io'.good ≡ true)
        × Has w rest io'.buf
  unfolding getline
  getline-Has w line rest n io reliable ok fits good h =
      let (b', run, left) = take_line-Has w line rest (n - 1) io.buf reliable ok (omega arith) h in
      (record { buf = b'; good = true }, rw (good, run), refl, left)

  -- On a connection that does not break, a read that gives nothing has come to the end.
  Ended-empty : (s' : State) → IsReliable d → Ended d s' → incoming s' ≡ []
  Ended-empty s' reliable (s, n, pos, e, why) = ap incoming e ∙ elim why [
    | inl failed ↦
        d.read_failed s n failed
        ∙ empty_unless (incoming s) (λ (more : 0 < length (incoming s)).
          let (c, cs, got) = reliable.reads s n pos more in cc (sym failed ∙ got))
    | inr nothing ↦
        d.read_some s n [] nothing
        ∙ empty_unless (incoming s) (λ (more : 0 < length (incoming s)).
          let (c, cs, got) = reliable.reads s n pos more in cc (sym nothing ∙ got))
  ]

  same_start :
      (xs ys us vs : List ℕ) → xs ++ us ≡ ys ++ vs → length xs ≡ length ys → (xs ≡ ys) × (us ≡ vs)
  same_start [] [] us vs e l = (refl, e)
  same_start [] (y ∷ ys) us vs e l = absurd (omega arith)
  same_start (x ∷ xs) [] us vs e l = absurd (omega arith)
  same_start (x ∷ xs) (y ∷ ys) us vs e l =
      let (p, q) = same_start xs ys us vs (same_tail x y (xs ++ us) (ys ++ vs) e) (omega arith) in
      (ap₂ ◌∷◌ (same_head x y (xs ++ us) (ys ++ vs) e) p, q)

  -- `read` of as many characters as are to come gives them all.
  pub read_chars-Has :
      (fuel : ℕ) (w content rest : List ℕ) (io : IoStream State)
      → IsReliable d
      → io.good ≡ true
      → Has w (content ++ rest) io.buf
      → length content ≤ fuel
      → (io' : IoStream State) × (read_chars k fuel (length content) io ≡ some (content, io'))
        × (io'.good ≡ true)
        × Has w rest io'.buf
  unfolding read_chars
  read_chars-Has fuel w content rest io reliable good h enough =
      let (s, e) = h.connected in
      let (out, b', run, g, ends) =
        xsgetn-Gives d fuel io.buf s (length content) h.valid e enough in
      let view : out ++ readable d b' ≡ content ++ rest = g.given ∙ h.has_left in
      let whole : length out ≡ length content = elim ends [
        | inl all ↦ all
        | inr (short, (s', at, none_ahead, ended)) ↦
            let empty : readable d b' ≡ [] =
              ap₂ (λ (t : List ℕ) o. t ++ incoming_of d o) none_ahead at
              ∙ Ended-empty s' reliable ended in
            omega (
              arith,
              ap length view,
              ap length empty,
              length-append out (readable d b'),
              length-append content rest,
            )
      ] in
      let all : length out == length content ≡ true = ground (arith, whole) in
      let (same, left) = same_start out content (readable d b') rest view whole in
      (
        record { buf = b'; good = true },
        rw (good, run)
            (ap₂ (λ (t : List ℕ) (g : Bool). some (t, record { buf = b'; good = g })) same all),
        refl,
        record {
          valid = g.valid;
          connected = g.connected;
          has_taken = g.unwritten ∙ h.has_taken;
          has_left = left;
        },
      )
