-- ===== src/SocketStream/Documented.antt =====
-- What main/io/SocketStream.cpp relies on in a socket.
use bell.Prelude.{ℕ, ◌≤◌, ◌<◌, ◌≡◌, ◌∙◌, List, [], ◌∷◌, ◌++◌, Option, none, some, length, take}
use bell.SocketStream.{Socket, SocketBuffer}

-- The documented behaviour of a connected socket. `sent` has the bytes that its peer is given, and
-- `incoming` those that are still to be read. `write` takes a part of the bytes, of any bytes one at
-- least, or fails; `read` gives some of the next bytes, or fails, or finds the end.
pub record IsDocumented (k : Socket) : Type 0 where
  pub sent : k.State → List ℕ
  pub incoming : k.State → List ℕ
  pub write_le :
      (s : k.State) (bytes : List ℕ) (n : ℕ) → (k.write s bytes).0 ≡ some n → n ≤ length bytes
  pub write_pos :
      (s : k.State) (bytes : List ℕ) (n : ℕ)
      → (k.write s bytes).0 ≡ some n
      → 0 < length bytes
      → 0 < n
  pub write_sent :
      (s : k.State) (bytes : List ℕ) (n : ℕ)
      → (k.write s bytes).0 ≡ some n
      → sent (k.write s bytes).1 ≡ sent s ++ take n bytes
  pub write_failed :
      (s : k.State) (bytes : List ℕ)
      → (k.write s bytes).0 ≡ none
      → sent (k.write s bytes).1 ≡ sent s
  pub write_incoming : (s : k.State) (bytes : List ℕ) → incoming (k.write s bytes).1 ≡ incoming s
  pub read_le : (s : k.State) (n : ℕ) (got : List ℕ) → (k.read s n).0 ≡ some got → length got ≤ n
  pub read_some :
      (s : k.State) (n : ℕ) (got : List ℕ)
      → (k.read s n).0 ≡ some got
      → got ++ incoming (k.read s n).1 ≡ incoming s
  pub read_failed :
      (s : k.State) (n : ℕ) → (k.read s n).0 ≡ none → incoming (k.read s n).1 ≡ incoming s
  pub read_sent : (s : k.State) (n : ℕ) → sent (k.read s n).1 ≡ sent s

-- A connection that does not break: each write takes something, and each read gives something as long as
-- something is to come.
pub record IsReliable {k : Socket} (d : IsDocumented k) : Type 0 where
  pub writes : (s : k.State) (bytes : List ℕ) → (n : ℕ) × ((k.write s bytes).0 ≡ some n)
  pub reads :
      (s : k.State) (n : ℕ)
      → 0 < n
      → 0 < length (d.incoming s)
      → (c : ℕ) × (cs : List ℕ) × ((k.read s n).0 ≡ some (c ∷ cs))

module _ {k : Socket} (d : IsDocumented k) where
  open k use {State, write, read}
  open d use {sent, incoming}

  -- The last call on a socket was a write that failed: of all that was left of `whole`, where what stands
  -- before it in `whole` had been sent.
  pub record Broken (whole : List ℕ) (socket : Option State) : Type 0 where
    pub before : State
    pub rest : List ℕ
    pub failed : (write before rest).0 ≡ none
    pub left : socket ≡ some (write before rest).1
    pub unsent : sent before ++ rest ≡ whole

  pub Broken-same :
      {whole whole' : List ℕ} {socket : Option State}
      → whole ≡ whole'
      → Broken whole socket
      → Broken whole' socket
  Broken-same e b = record {
    before = b.before;
    rest = b.rest;
    failed = b.failed;
    left = b.left;
    unsent = b.unsent ∙ e;
  }

  abbrev pub sent_of : Option State → List ℕ
  sent_of none = []
  sent_of (some s) = sent s

  abbrev pub incoming_of : Option State → List ℕ
  incoming_of none = []
  incoming_of (some s) = incoming s

  -- All the characters that the buffer has taken, and all that it can still give.
  abbrev pub taken : SocketBuffer State → List ℕ
  taken b = sent_of b.internal_socket ++ b.pending

  abbrev pub readable : SocketBuffer State → List ℕ
  readable b = b.ahead ++ incoming_of b.internal_socket
