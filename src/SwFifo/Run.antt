-- ===== src/SwFifo/Run.antt =====
-- Whole histories of calls of a fifo of bytes, and its set-up.
use zephyr_common.Common.{
  ℕ, min, ◌≡◌, refl, ap, ◌∙◌, List, [], ◌∷◌, Option, ◌++◌, some, arith, length, take, drop,
  replicate, length-replicate, length-take, take-append, take_all, ok,
}
use zephyr_common.Common.Memory.{◌>>=◌}
use zephyr_common.SwFifo.{SwFifo, count, write, read, peek, flush, get_count}
use zephyr_common.SwFifo.Queue
use zephyr_common.SwFifo.Queue.{Op, Reply}
use zephyr_common.SwFifo.Valid.{IsValid, contents, length-contents}
use zephyr_common.SwFifo.Refine.{write_refines, read_refines, peek_lem, flush_refines}

-- One call, with a destination of as many bytes as are asked for. What is handed out are as many
-- bytes of the destination as the call says it read.
unfoldable pub exec : Op → SwFifo → Option (Reply × SwFifo)
exec (Op.write bytes) f = write f bytes (length bytes) >>= λ r. some ((r.0, []), r.1)
exec (Op.read n) f = read f (replicate n 0) n >>= λ r. some ((ok r.0, take r.0 r.1), r.2)
exec (Op.peek n) f = peek f (replicate n 0) n >>= λ r. some ((ok r.0, take r.0 r.1), f)
exec Op.flush f = some ((ok 0, []), flush f)
exec Op.get_count f = some ((ok (get_count f), []), f)

unfoldable pub run : List Op → SwFifo → Option (List Reply × SwFifo)
run [] f = some ([], f)
run (op ∷ ops) f = exec op f >>= λ r. run ops r.1 >>= λ rs. some (r.0 ∷ rs.0, rs.1)

-- The bytes handed out are the first of the queue.
handed :
    (f : SwFifo) (n : ℕ) (rest : List ℕ)
    → take (min n (count f)) (take n (contents f) ++ rest) ≡ take n (contents f)
handed f n rest =
    let l : length (take n (contents f)) ≡ min n (count f) =
      omega (arith, length-take n (contents f), length-contents f) in
    rw (← l) (take-append (take n (contents f)) rest)

abbrev Simulates : SwFifo → Op → Type 0
Simulates f op =
    (f' : SwFifo) × (exec op f ≡ some ((Queue.step f.depth op (contents f)).0, f'))
    × (contents f' ≡ (Queue.step f.depth op (contents f)).1)
    × IsValid f'
    × (f'.depth ≡ f.depth)

exec_refines : {f : SwFifo} (op : Op) → IsValid f → Simulates f op
unfolding exec
exec_refines {f} (Op.write bytes) v =
    let (f', e, c, v', d) = write_refines bytes (length bytes) v (omega arith) in
    let all : take (length bytes) bytes ≡ bytes = take_all (length bytes) bytes (omega arith) in
    let nothing : (Queue.step f.depth (Queue.write bytes) (contents f)).0.1 ≡ [] =
      unfold Queue.step in ground arith in
    (
      f',
      rw (e, all) (ground (arith, nothing)),
      c ∙ ap (λ b. (Queue.step f.depth (Queue.write b) (contents f)).1) all,
      v',
      d,
    )
exec_refines {f} (Op.read n) v =
    let dst : List ℕ = replicate n 0 in
    let (f', e, c, v', d) = read_refines dst n v (omega (arith, length-replicate {A = ℕ} n 0)) in
    (
      f',
      unfold Queue.step in rw (e, handed f n (drop (min n (count f)) dst), length-contents f),
      unfold Queue.step in c,
      v',
      d,
    )
exec_refines {f} (Op.peek n) v =
    let dst : List ℕ = replicate n 0 in
    let e = peek_lem dst n v (omega (arith, length-replicate {A = ℕ} n 0)) in
    (
      f,
      unfold Queue.step in rw (e, handed f n (drop (min n (count f)) dst), length-contents f),
      unfold Queue.step in refl,
      v,
      refl,
    )
exec_refines {f} Op.flush v =
    let (c, v', d) = flush_refines v in
    (flush f, unfold Queue.step in refl, unfold Queue.step in c, v', d)
exec_refines {f} Op.get_count v =
    (f, unfold get_count Queue.step in rw (length-contents f), unfold Queue.step in refl, v, refl)

-- No history of writes, reads, peeks, flushes and counts tells a valid fifo of bytes from the
-- bounded queue of the bytes that it holds: every call returns, with the queue's replies, and the
-- fifo is left valid, holding what the queue holds.
pub run_refines :
    (ops : List Op) {f : SwFifo}
    → IsValid f
    → let spec = Queue.run f.depth ops (contents f) in
      (f' : SwFifo) × (run ops f ≡ some (spec.0, f')) × (contents f' ≡ spec.1) × IsValid f'
unfolding run Queue.run
run_refines [] {f} v = (f, refl, refl, v)
run_refines (op ∷ ops) {f} v =
    let (f1, e, c, v', d) = exec_refines op v in
    let (f2, e2, c2, v2) = run_refines ops v' in (f2, rw (e, e2, c, d), rw (c2, c, d), v2)
