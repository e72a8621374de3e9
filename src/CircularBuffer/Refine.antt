-- ===== src/CircularBuffer/Refine.antt =====
-- No sequence of calls tells a valid ring from a bounded queue of bytes.
use bell.Prelude.{
  ℕ, ◌<◌, ◌^◌, ◌-◌, ◌≡◌, refl, ap, min, List, [], ◌∷◌, ◌++◌, arith, length, take, drop,
  length-tabulate,
}
use bell.CircularBuffer.{
  create, Ring, write, read, put_chunk, get_chunk, empty_buffer, empty_except,
}
use bell.CircularBuffer.Inv.{
  create-IsValid, IsValid, write-IsValid, read-IsValid, empty_buffer-IsValid, empty_except-IsValid,
}
use bell.CircularBuffer.Fifo.{contents, byte_at, write_refines, read_refines, empty_except-contents}

-- A call of one of the four methods that change the ring.
pub data Op : Type 0 where
  put : List ℕ → Op
  get : ℕ → Op
  clear : Op
  keep : ℕ → Op

-- What the caller sees: the count returned and the bytes copied out.
abbrev pub Reply : Type 0
Reply = ℕ × List ℕ

unfoldable pub step : Op → Ring → Reply × Ring
step (put bytes) r = let (n, r') = write r bytes in ((n, []), r')
step (get n) r = let (k, out, r') = read r n in ((k, out), r')
step clear r = ((0, []), empty_buffer r)
step (keep n) r = ((0, []), empty_except r n)

-- The same calls on a queue of at most `cap` bytes.
unfoldable pub queue_step : ℕ → Op → List ℕ → Reply × List ℕ
queue_step cap (put bytes) q =
    let free = cap - length q in ((min (length bytes) free, []), q ++ take free bytes)
queue_step cap (get n) q = ((min n (length q), take n q), drop n q)
queue_step cap clear q = ((0, []), [])
queue_step cap (keep n) q = ((0, []), take n q)

unfoldable pub run : Ring → List Op → List Reply
run r [] = []
run r (op ∷ ops) = let (reply, r') = step op r in reply ∷ run r' ops

unfoldable pub queue_run : ℕ → List ℕ → List Op → List Reply
queue_run cap q [] = []
queue_run cap q (op ∷ ops) = let (reply, q') = queue_step cap op q in reply ∷ queue_run cap q' ops

step-IsValid : (op : Op) {r : Ring} → IsValid r → IsValid (step op r).1
unfolding step
step-IsValid (put bytes) v = write-IsValid bytes v
step-IsValid (get n) v = read-IsValid n v
step-IsValid clear v = empty_buffer-IsValid v
step-IsValid (keep n) v = empty_except-IsValid n v

capacity-step : (op : Op) (r : Ring) → (step op r).1.data_capacity ≡ r.data_capacity
unfolding step write read put_chunk get_chunk empty_buffer empty_except
capacity-step (put bytes) r = ground arith
capacity-step _ r = ground arith

-- One call returns what the queue returns, and leaves the ring holding the queue that is left.
step_refines :
    (op : Op) {r : Ring}
    → IsValid r
    → let (reply, r') = step op r in
      (reply, contents r') ≡ queue_step r.data_capacity op (contents r)
unfolding step queue_step empty_buffer
step_refines (put bytes) {r} v =
    let w = write_refines v bytes in
    rw (length-tabulate r.data_size (byte_at r)) (λ i. ((w.0 i, []), w.1 i))
step_refines (get n) {r} v =
    let g = read_refines v n in
    rw (length-tabulate r.data_size (byte_at r)) (λ i. ((g.0 i, g.1 i), g.2 i))
step_refines clear v = refl
step_refines (keep n) {r} v = ap (λ q. ((0, []), q)) (empty_except-contents v n)

-- From a valid ring, any sequence of calls returns what a bounded queue of its contents returns.
pub run_refines :
    (ops : List Op) {r : Ring} → IsValid r → run r ops ≡ queue_run r.data_capacity (contents r) ops
unfolding run queue_run
run_refines [] v = refl
run_refines (op ∷ ops) {r} v =
    rw (run_refines ops (step-IsValid op v), ← step_refines op v, capacity-step)

-- A ring that was just made behaves, under any sequence of calls, like an empty queue that holds at
-- most its capacity of bytes; the capacity is above 0 and below 2^63.
pub run-create :
    (ops : List Op) (cap : ℕ) → 0 < cap → cap < 2 ^ 63 → run (create cap) ops ≡ queue_run cap [] ops
unfolding create
run-create ops cap p h = run_refines ops (create-IsValid cap p h)
