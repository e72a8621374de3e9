-- ===== src/SocketStream/Wire.antt =====
-- A socket in software for main/io/SocketStream.cpp: it takes three bytes at most in a write, and gives
-- two at most in a read.
use bell.Prelude.{
  ℕ, suc, ◌-◌, ◌∷◌, ◌≡◌, ◌<◌, refl, sym, ap, ◌∙◌, true, List, [], ◌++◌, some, min, length, take,
  drop, arith, take-append-drop, length-take,
}
use bell.SocketStream.{Socket}
use bell.SocketStream.Documented.{IsDocumented, IsReliable}

-- The bytes sent, and those to come.
pub record Line : Type 0 where
  pub sent : List ℕ
  pub incoming : List ℕ

abbrev pub wire : Socket
wire = record {
  State = Line;
  write = λ s bytes. (
    some (min 3 (length bytes)),
    record s { sent = s.sent ++ take (min 3 (length bytes)) bytes },
  );
  read =
      λ s n. (some (take (min 2 n) s.incoming), record s { incoming = drop (min 2 n) s.incoming });
  is_open = λ s. true;
  close = λ s. s;
}

pub write_count :
    (s : Line) (bytes : List ℕ) (n : ℕ) → (wire.write s bytes).0 ≡ some n → n ≡ min 3 (length bytes)
write_count s bytes n e = ground arith

pub same_some : (xs ys : List ℕ) → some xs ≡ some ys → xs ≡ ys
same_some xs ys e = cc e

unfoldable pub wire-IsDocumented : IsDocumented wire
wire-IsDocumented = record {
  sent = λ s. s.sent;
  incoming = λ s. s.incoming;
  write_le = λ s bytes n e. omega (arith, write_count s bytes n e);
  write_pos = λ s bytes n e h. omega (arith, write_count s bytes n e);
  write_sent =
      λ s bytes n e. ap (λ (m : ℕ). s.sent ++ take m bytes) (sym (write_count s bytes n e));
  write_failed = λ s bytes e. cc e;
  write_incoming = λ s bytes. refl;
  read_le = λ s n got e. omega (
    arith,
    ap length (same_some (take (min 2 n) s.incoming) got e),
    length-take (min 2 n) s.incoming,
  );
  read_some = λ s n got e.
      ap (λ (t : List ℕ). t ++ drop (min 2 n) s.incoming)
        (sym (same_some (take (min 2 n) s.incoming) got e))
      ∙ take-append-drop (min 2 n) s.incoming;
  read_failed = λ s n e. cc e;
  read_sent = λ s n. refl;
}

wire_gives :
    (n : ℕ) (xs : List ℕ)
    → 0 < n
    → 0 < length xs
    → (c : ℕ) × (cs : List ℕ) × (some (take (min 2 n) xs) ≡ some (c ∷ cs))
wire_gives n [] h l = absurd (omega arith)
wire_gives n (x ∷ xs) h l =
    let e : min 2 n ≡ suc (min 2 n - 1) = omega arith in
    (x, take (min 2 n - 1) xs, ap (λ (m : ℕ). some (take m (x ∷ xs))) e)

pub wire-IsReliable : IsReliable wire-IsDocumented
unfolding wire-IsDocumented
wire-IsReliable = record {
  writes = λ s bytes. (min 3 (length bytes), refl);
  reads = λ s n h l. wire_gives n s.incoming h l;
}
