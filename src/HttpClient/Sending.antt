-- ===== src/HttpClient/Sending.antt =====
-- What `rawRequest` of main/io/HTTPClient.cpp sends.
use mathlib.Core.Path.{subst}
use bell.Prelude.{
  ℕ, ◌+◌, ◌≤◌, ◌≡◌, inl, inr, refl, sym, ap, ◌∙◌, true, List, [], ◌∷◌, ◌++◌, append-nil,
  append_assoc, Option, some, length, take, ◌==◌, arith, take-all, length-append,
}
use bell.SocketStream.{Socket, SocketBuffer, buf_len}
use bell.SocketStream.Documented.{IsDocumented, IsReliable, Broken, taken}
use bell.SocketStream.Output.{IsValid, Accepts, xsputn-Accepts, sync-Accepts}
use bell.HttpClient.Iostream.{IoStream, put_text, put_texts, flush}

-- The texts one behind the other.
abbrev pub join : List (List ℕ) → List ℕ
join [] = []
join (text ∷ texts) = text ++ join texts

pub join-append : (xs ys : List (List ℕ)) → join (xs ++ ys) ≡ join xs ++ join ys
join-append [] ys = refl
join-append (x ∷ xs) ys =
    ap (λ (t : List ℕ). x ++ t) (join-append xs ys) ∙ sym (append_assoc x (join xs) (join ys))

module _ {k : Socket} (d : IsDocumented k) where
  open k use {State}

  pub Accepts-append :
      {b b' b'' : SocketBuffer State} (xs ys : List ℕ)
      → Accepts d b xs b'
      → Accepts d b' ys b''
      → Accepts d b (xs ++ ys) b''
  Accepts-append {b} xs ys p q = record {
    valid = q.valid;
    connected = q.connected;
    written = q.written ∙ ap (λ (t : List ℕ). t ++ ys) p.written ∙ append_assoc (taken d b) xs ys;
    unread = q.unread ∙ p.unread;
  }

  Accepts-nil :
      {b : SocketBuffer State} (s : State)
      → IsValid d b
      → b.internal_socket ≡ some s
      → Accepts d b [] b
  Accepts-nil {b} s v e = record {
    valid = v;
    connected = (s, e);
    written = sym (append-nil (taken d b));
    unread = refl;
  }

  -- On a connection that does not break, no write has failed.
  never : {whole : List ℕ} {socket : Option State} → IsReliable d → Broken d whole socket → ⊥
  never reliable b = let e = b.failed in let f = (reliable.writes b.before b.rest).1 in cc

  put_text-Accepts :
      (fuel : ℕ) (text : List ℕ) (io : IoStream State) (s : State)
      → IsReliable d
      → io.good ≡ true
      → IsValid d io.buf
      → io.buf.internal_socket ≡ some s
      → buf_len + length text ≤ fuel
      → (io' : IoStream State) × (put_text k fuel text io ≡ some io')
        × (io'.good ≡ true)
        × Accepts d io.buf text io'.buf
  unfolding put_text
  put_text-Accepts fuel text io s reliable good v e h =
      let (n, b', run, le, a, ends) =
        xsputn-Accepts d fuel io.buf s text v e (omega (arith, v.placed, v.whole)) in
      let all : n ≡ length text = elim ends [
        | inl whole ↦ whole
        | inr (inl (_, broke)) ↦ absurd (never reliable broke)
        | inr (inr broke) ↦ absurd (never reliable broke)
      ] in
      (
        record { buf = b'; good = n == length text },
        rw (good, run),
        ground (arith, all),
        subst (λ (t : List ℕ). Accepts d io.buf t b')
            (ap (λ (m : ℕ). take m text) all ∙ take-all (length text) text (omega arith)) a,
      )

  pub put_texts-Accepts :
      (fuel : ℕ) (texts : List (List ℕ)) (io : IoStream State) (s : State)
      → IsReliable d
      → io.good ≡ true
      → IsValid d io.buf
      → io.buf.internal_socket ≡ some s
      → buf_len + length (join texts) ≤ fuel
      → (io' : IoStream State) × (put_texts k fuel texts io ≡ some io')
        × (io'.good ≡ true)
        × Accepts d io.buf (join texts) io'.buf
  unfolding put_texts
  put_texts-Accepts fuel [] io s reliable good v e h = (io, refl, good, Accepts-nil s v e)
  put_texts-Accepts fuel (text ∷ texts) io s reliable good v e h =
      let len = length-append text (join texts) in
      let (io', run, good', a) =
        put_text-Accepts fuel text io s reliable good v e (omega (arith, len)) in
      let (s', e') = a.connected in
      let (io'', runs, good'', b) =
        put_texts-Accepts fuel texts io' s' reliable good' a.valid e' (omega (arith, len)) in
      (io'', rw (run, runs), good'', Accepts-append text (join texts) a b)

  -- `flush` sends all that is pending.
  pub flush-Sends :
      (fuel : ℕ) (io : IoStream State) (s : State)
      → IsReliable d
      → io.good ≡ true
      → IsValid d io.buf
      → io.buf.internal_socket ≡ some s
      → buf_len ≤ fuel
      → (io' : IoStream State) × (flush k fuel io ≡ some io')
        × (io'.good ≡ true)
        × Accepts d io.buf [] io'.buf
        × (io'.buf.pending ≡ [])
  unfolding flush
  flush-Sends fuel io s reliable good v e h =
      let (ok, b', run, a, ends) =
        sync-Accepts d fuel io.buf s v e (omega (arith, v.placed, v.whole)) in
      let ending : (ok ≡ true) × (b'.pending ≡ []) = elim ends [
        | inl (fine, i) ↦ (fine, i.none_left)
        | inr (_, broke) ↦ absurd (never reliable broke)
      ] in
      (record { buf = b'; good = ok }, rw (good, run), ending.0, a, ending.1)
