-- ===== src/EthSerial/Tests.antt =====
-- Tests of the driver over a kernel that counts blocks.
use zephyr_common.Common.{
  ℕ, zero, suc, ◌+◌, ◌<◌, ◌≡◌, refl, Bool, true, false, Option, none, some, List, [], ◌∷◌, ◌++◌, ok,
  arith, replicate, length, length-replicate,
}
use zephyr_common.Common.Memory.{AllSome}
use zephyr_common.SwFifo.Valid.{IsValid, contents}
use zephyr_common.SwFifo.{SwFifo, count}
use zephyr_common.Ring.{window}
use zephyr_common.Slip.{Context, init, end_byte}
use zephyr_common.Slip.Frame.{frame, escape, escape_byte}
use zephyr_common.EthSerial.{Item, Kernel, Stack, EthSerial, send, rx_thread, max_frame}
use zephyr_common.EthSerial.Pool.{IsKernel}
use zephyr_common.EthSerial.Branches.{round, System, run}
use zephyr_common.EthSerial.Blocks.{run-blocks}
use zephyr_common.EthSerial.Send.{slip_framing}
use zephyr_common.EthSerial.Receive.{receives}
use zephyr_common.EthSerial.Link.{IsReady, link-frame}

-- The number of free blocks, and the items.
abbrev Slab : Type 0
Slab = ℕ × List Item

abbrev alloc_from : ℕ → List Item → Option (List ℕ) × Slab
alloc_from zero items = (none, (0, items))
alloc_from (suc n) items = (some (replicate max_frame 0), (n, items))

abbrev get_from : ℕ → List Item → Option (Item × Slab)
get_from n [] = none
get_from n (item ∷ items) = some (item, (n, items))

abbrev slab : Kernel Slab
slab = record {
  mem_slab_alloc = λ s. alloc_from s.0 s.1;
  mem_slab_free = λ msg s. (s.0 + 1, s.1);
  fifo_put = λ item s. (s.0, s.1 ++ item ∷ []);
  fifo_get = λ s. get_from s.0 s.1;
}

abbrev free : Slab → ℕ
free s = s.0

abbrev queue : Slab → List Item
queue s = s.1

slab-IsKernel : IsKernel slab free queue
slab-IsKernel = record {
  alloc = λ s. alloc s.0 s.1;
  exhausted = λ s. exhausted s.0 s.1;
  free-freed = λ msg s. refl;
  queue-freed = λ msg s. refl;
  queue-put = λ item s. refl;
  free-put = λ item s. refl;
  waits = λ s. waits s.0 s.1;
  gets = λ s item items. gets s.0 s.1 item items;
}
  where
    alloc :
        (n : ℕ) (items : List Item)
        → 0 < n
        → (msg : List ℕ) × (s' : Slab) × (alloc_from n items ≡ (some msg, s'))
          × (length msg ≡ max_frame)
          × (s'.0 + 1 ≡ n)
          × (s'.1 ≡ items)
    alloc zero items h = absurd (omega arith)
    alloc (suc n) items h = (
      replicate max_frame 0,
      (n, items),
      refl,
      length-replicate {A = ℕ} max_frame 0,
      omega arith,
      refl,
    )

    exhausted : (n : ℕ) (items : List Item) → n ≡ 0 → alloc_from n items ≡ (none, (n, items))
    exhausted zero items h = refl
    exhausted (suc n) items h = absurd (omega arith)

    waits : (n : ℕ) (items : List Item) → items ≡ [] → get_from n items ≡ none
    waits n items h = rw h

    gets :
        (n : ℕ) (items : List Item) (item : Item) (rest : List Item)
        → items ≡ item ∷ rest
        → (s' : Slab) × (get_from n items ≡ some (item, s')) × (s'.1 ≡ rest) × (s'.0 ≡ n)
    gets n items item rest h = ((n, rest), rw h, refl, refl)

-- A stack that has packets while its flag is set, and the frames that it has got.
abbrev Frames : Type 0
Frames = Bool × List (List ℕ)

abbrev stack : Stack Frames
stack = record {
  rx_alloc = λ w. (w.0, w);
  get_frag = λ w. (some (replicate max_frame 0), w);
  recv_data = λ payload w. (ok 0, (w.0, w.1 ++ payload ∷ []));
  unref = λ w. w;
}

abbrev no_heap : ℕ → Option (List ℕ)
no_heap n = none

abbrev fifo : SwFifo
fifo = record {
  depth = 8;
  item_size = 1;
  wr_idx = 6;
  rd_idx = 6;
  threadsafe = false;
  mem = replicate 9 0;
}

abbrev driver : EthSerial Context
driver = record {
  init_done = true;
  mac_addr = [];
  deframer_state = record { state = init; fifo = fifo; idx = 0; get_escaped = false };
  buf_deframed = replicate max_frame 0;
  buf_framed = replicate 40 0;
  pktbuf_aggregate = replicate 20 0;
}

ready : IsReady free queue driver (10, [])
unfolding window count
ready = record {
  on = refl;
  some_free = omega arith;
  none_queued = refl;
  room = omega (arith, length-replicate {A = ℕ} max_frame 0);
  valid = omega arith;
  empty = refl;
  idle = refl;
}

abbrev first : List ℕ
first = 1 ∷ 2 ∷ 3 ∷ 4 ∷ 5 ∷ 6 ∷ []

abbrev second : List ℕ
second = 7 ∷ 8 ∷ 9 ∷ 10 ∷ 11 ∷ 12 ∷ 13 ∷ 14 ∷ []

-- A packet of two fragments, in three parts.
link-frame_example :
    (sender' self' : EthSerial Context) × (s' s'' : Slab) × (send
        (slip_framing no_heap)
        driver
        (first ∷ second ∷ [])
      ≡ some (ok 0, sender', frame (first ++ second)))
    × (receives no_heap slab
          ((0 ∷ end_byte ∷ first) ∷ second ∷ (end_byte ∷ []) ∷ [])
          driver
          (10, [])
        ≡ some (self', s'))
    × (rx_thread slab stack s' (true, []) ≡ some (s'', (true, (first ++ second) ∷ [])))
    × (free s'' ≡ 10)
    × (queue s'' ≡ [])
    × (self'.deframer_state.state ≡ init)
    × (contents self'.deframer_state.fifo ≡ [])
    × IsValid self'.deframer_state.fifo
unfolding frame escape escape_byte
link-frame_example =
    link-frame no_heap slab stack free queue slab-IsKernel driver driver first (second ∷ [])
      (0 ∷ []) ((0 ∷ end_byte ∷ first) ∷ second ∷ []) end_byte [] (replicate max_frame 0) (10, [])
      (true, []) (true, []) (true, []) (omega arith) (omega arith) (omega arith) (omega arith)
      (omega arith) (omega arith) (omega (arith, length-replicate {A = ℕ} max_frame 0)) ready
      (refl, tt) (omega arith) (omega arith) refl refl refl

-- Two items queued and a free block, and a stack without packets: two rounds lose both blocks.
abbrev item : Item
item = record { len = 14; msg = [] }

abbrev system : System Context Slab Frames
system = record { driver = driver; pool = (1, item ∷ item ∷ []); net = (false, []) }

loses_two :
    run (slip_framing no_heap) slab stack (round ∷ round ∷ []) system
    ≡ some (2, record system { pool = (1, []) })
unfolding run rx_thread
loses_two = refl

run-blocks_example :
    AllSome
      (λ (r : ℕ × System Context Slab Frames). r.1.pool.0 + length r.1.pool.1 + r.0 ≡ 3)
      (run (slip_framing no_heap) slab stack (round ∷ round ∷ []) system)
run-blocks_example =
    run-blocks (slip_framing no_heap) slab stack free queue slab-IsKernel (round ∷ round ∷ [])
      system

abbrev drained : System Context Slab Frames
drained = record system { pool = (0, []) }
