-- ===== src/SwFifo/Tests.antt =====
-- Tests of the fifo, and its theorems at concrete fifos.
use zephyr_common.Common.{
  ℕ, min, ◌≡◌, ◌≢◌, ◌⊎◌, refl, List, [], ◌∷◌, none, some, Option, false, arith, length, take, drop,
  get_elem?, ok, err, failed, einval, enomem, replicate, length-replicate, ◌++◌,
}
use zephyr_common.SwFifo.{
  SwFifo, inc_idx, count, avail, circ_write, circ_read, is_empty, get_count, write, read, peek, ack,
  init,
}
use zephyr_common.SwFifo.Queue
use zephyr_common.SwFifo.Valid.{IsValid, contents}
use zephyr_common.SwFifo.Refine.{write_refines, read_refines, peek_lem, ack_refines}
use zephyr_common.SwFifo.Run.{run_refines, run, exec}
use zephyr_common.SwFifo.Wide.{circ_write_wide, init_lem}

-- Depth 3, with 8 and 9 held round the end of the memory.
abbrev wrapped : SwFifo
wrapped = record {
  depth = 3;
  item_size = 1;
  wr_idx = 1;
  rd_idx = 3;
  threadsafe = false;
  mem = 9 ∷ 7 ∷ 6 ∷ 8 ∷ [];
}

wrapped-IsValid : IsValid wrapped
wrapped-IsValid = omega arith

write_reads_back :
    run (Queue.write (1 ∷ []) ∷ Queue.write (2 ∷ []) ∷ Queue.read 2 ∷ Queue.get_count ∷ []) wrapped
    ≡ some (
      (ok 0, []) ∷ (err failed, []) ∷ (ok 2, 8 ∷ 9 ∷ []) ∷ (ok 1, []) ∷ [],
      record {
        depth = 3;
        item_size = 1;
        wr_idx = 2;
        rd_idx = 1;
        threadsafe = false;
        mem = 9 ∷ 1 ∷ 6 ∷ 8 ∷ [];
      },
    )
unfolding run exec write read peek ack avail count inc_idx circ_write circ_read is_empty get_count
write_reads_back = refl

write_one :
    let spec = Queue.step 3 (Queue.write (take 1 (4 ∷ 5 ∷ []))) (contents wrapped) in
    (f' : SwFifo) × (write wrapped (4 ∷ 5 ∷ []) 1 ≡ some (spec.0.0, f'))
    × (contents f' ≡ spec.1)
    × IsValid f'
    × (f'.depth ≡ 3)
write_one = write_refines (4 ∷ 5 ∷ []) 1 wrapped-IsValid (omega arith)

peek_lem_example :
    peek wrapped (0 ∷ 0 ∷ 0 ∷ []) 3
    ≡ some (
      min 3 (count wrapped),
      take 3 (contents wrapped) ++ drop (min 3 (count wrapped)) (0 ∷ 0 ∷ 0 ∷ []),
    )
peek_lem_example = peek_lem (0 ∷ 0 ∷ 0 ∷ []) 3 wrapped-IsValid (omega arith)

read_all :
    (f' : SwFifo) × (read wrapped (0 ∷ 0 ∷ 0 ∷ []) 3
      ≡ some (
        min 3 (count wrapped),
        take 3 (contents wrapped) ++ drop (min 3 (count wrapped)) (0 ∷ 0 ∷ 0 ∷ []),
        f',
      ))
    × (contents f' ≡ drop 3 (contents wrapped))
    × IsValid f'
    × (f'.depth ≡ 3)
read_all = read_refines (0 ∷ 0 ∷ 0 ∷ []) 3 wrapped-IsValid (omega arith)

ack_refines_example :
    (contents (ack wrapped 1) ≡ drop 1 (contents wrapped))
    × IsValid (ack wrapped 1)
    × ((ack wrapped 1).depth ≡ 3)
unfolding count
ack_refines_example = ack_refines 1 wrapped-IsValid (omega arith)

abbrev script : List Queue.Op
script = Queue.write (1 ∷ []) ∷ Queue.peek 9 ∷ Queue.read 2 ∷ Queue.flush ∷ Queue.get_count ∷ []

run_refines_example :
    let spec = Queue.run 3 script (contents wrapped) in
    (f' : SwFifo) × (run script wrapped ≡ some (spec.0, f')) × (contents f' ≡ spec.1) × IsValid f'
run_refines_example = run_refines script wrapped-IsValid

-- Two items of two bytes: the first goes to the last slot, the second to the first.
abbrev wide : SwFifo
wide = record {
  depth = 2;
  item_size = 2;
  wr_idx = 2;
  rd_idx = 2;
  threadsafe = false;
  mem = 0 ∷ 0 ∷ 0 ∷ 0 ∷ 0 ∷ 0 ∷ [];
}

circ_write_wide_example :
    (mem : List ℕ) × (circ_write wide (1 ∷ 2 ∷ 3 ∷ 4 ∷ []) 2 ≡ some mem)
    × (get_elem? mem 0 ≡ some 2)
    × (get_elem? mem 0 ≢ some 3)
circ_write_wide_example =
    circ_write_wide wide (1 ∷ 2 ∷ 3 ∷ 4 ∷ []) 2 (omega arith) refl (omega arith) (omega arith)
      (omega arith) (omega arith) (omega arith) (ground arith)

-- A heap that always has room.
abbrev roomy : ℕ → Option (List ℕ)
roomy n = some (replicate n 0)

init_static :
    let made = init roomy wrapped 5 1 none 0 false in
    (((m : List ℕ) × (◌≡◌ {A = Option (List ℕ)} none (some m))
        × (◌≢◌ {A = ℕ} 0 6)
        × (made.0 ≡ err einval))
      ⊎ ((◌≡◌ {A = Option (List ℕ)} none none) × (roomy 6 ≡ none) × (made.0 ≡ err enomem)))
    ⊎ ((made.0 ≡ ok 0) × IsValid made.1 × (contents made.1 ≡ []) × (made.1.depth ≡ 5))
init_static = init_lem roomy wrapped 5 none 0 false roomy-length (λ m e. ground arith) (omega arith)
  where
    roomy-length : (n : ℕ) (m : List ℕ) → roomy n ≡ some m → length m ≡ n
    roomy-length n m e = ground (arith, length-replicate {A = ℕ} n 0)
