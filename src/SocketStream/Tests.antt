-- ===== src/SocketStream/Tests.antt =====
-- Runs of main/io/SocketStream.cpp and the theorems about it at concrete inputs.
use bell.Prelude.{
  ℕ, ◌≡◌, ◌⊎◌, ◌≤◌, refl, true, List, [], ◌∷◌, ◌++◌, some, length, take, replicate, arith,
}
use bell.SocketStream.{SocketBuffer, xsputn, open_socket, close, sync, sync_with, write_out}
use bell.SocketStream.Documented.{taken, readable, Broken}
use bell.SocketStream.Output.{IsValid, Accepts, Taken, xsputn-Accepts}
use bell.SocketStream.Run.{Op, Reply, put, flush, get, run, all_taken, all_given, run_conserves}
use bell.SocketStream.Reopen.{open_socket-keeps}
use bell.SocketStream.Wire.{Line, wire, wire-IsDocumented}

-- A connection with two bytes read ahead and two not yet sent.
abbrev busy : SocketBuffer Line
busy = record {
  internal_socket = some (record { sent = 5 ∷ []; incoming = 8 ∷ 9 ∷ [] });
  ahead = 6 ∷ 7 ∷ [];
  pbase = 0;
  pending = 1 ∷ 2 ∷ [];
  epptr = 1024;
}

abbrev line : Line
line = record { sent = 5 ∷ []; incoming = 8 ∷ 9 ∷ [] }

sync_run :
    sync wire 9 busy
    ≡ some (
      true,
      record busy { internal_socket = some (record line { sent = 5 ∷ 1 ∷ 2 ∷ [] }); pending = [] },
    )
unfolding sync sync_with write_out
sync_run = refl

busy-IsValid : IsValid wire-IsDocumented busy
busy-IsValid = record { placed = omega arith; whole = omega arith }

-- A write that does not fit behind the pending ones.
abbrev long : List ℕ
long = replicate 1030 4

xsputn-Accepts_example :
    (n : ℕ) × (b' : SocketBuffer Line) × (xsputn wire 1100 busy long ≡ some (n, b'))
    × (n ≤ length long)
    × Accepts wire-IsDocumented busy (take n long) b'
    × Taken wire-IsDocumented busy long n b'
xsputn-Accepts_example =
    xsputn-Accepts wire-IsDocumented 1100 busy line long busy-IsValid refl (omega arith)

abbrev calls : List Op
calls = put (3 ∷ []) ∷ get 3 ∷ flush ∷ get 4 ∷ []

run_conserves_example :
    (replies : List Reply) × (b' : SocketBuffer Line) × (run wire 1100 calls busy
      ≡ some (replies, b'))
    × (length replies ≡ length calls)
    × (taken wire-IsDocumented b' ≡ taken wire-IsDocumented busy ++ all_taken replies)
    × (all_given replies ++ readable wire-IsDocumented b' ≡ readable wire-IsDocumented busy)
run_conserves_example =
    run_conserves wire-IsDocumented 1100 calls busy line busy-IsValid refl (omega arith)

abbrev fresh : Line
fresh = record { sent = []; incoming = 3 ∷ [] }

open_socket-keeps_example :
    (left : SocketBuffer Line) × (last : Line) × (close wire 9 busy
      ≡ some (left, some (wire.close last)))
    × (open_socket wire 9 fresh busy ≡ some (0, record left { internal_socket = some fresh }))
    × (readable wire-IsDocumented (record left { internal_socket = some fresh })
        ≡ (6 ∷ 7 ∷ []) ++ wire-IsDocumented.incoming fresh)
    × (wire-IsDocumented.sent last ++ left.pending ≡ taken wire-IsDocumented busy)
    × ((left.pending ≡ []) ⊎ Broken wire-IsDocumented (taken wire-IsDocumented busy) (some last))
open_socket-keeps_example =
    open_socket-keeps wire-IsDocumented 9 busy line fresh busy-IsValid refl refl (omega arith)
