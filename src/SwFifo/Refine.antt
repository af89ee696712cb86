-- ===== src/SwFifo/Refine.antt =====
-- The calls of a valid fifo against the bounded queue of the bytes that it holds.
use zephyr_common.Common.{
  ℕ, ◌+◌, ◌-◌, ◌≤◌, min, ◌≡◌, refl, sym, ap, ◌∙◌, inl, inr, List, [], ◌++◌, some, arith, ltb, ◌==◌,
  if◌then◌else◌, true, false, Bool-cases, length, take, drop, length-append, length-take, ok, err,
  failed, take-append_of_length, drop-append_of_length, ==_iff,
}
use zephyr_common.Ring.{window-zero, advance, window, put, window-add, length-put, length-window}
use zephyr_common.Ring.Copy.{window-put}
use zephyr_common.SwFifo.{SwFifo, inc_idx, count, avail, write, read, peek, ack, flush}
use zephyr_common.SwFifo.Queue
use zephyr_common.SwFifo.Copy.{circ_write-put, circ_read-window}
use zephyr_common.SwFifo.Valid.{
  IsValid, contents, count-span, count-le, length-contents, avail-add-count, inc_idx-advance,
}

-- The write index is `count` cells on from the read index.
wr_idx-advance : {f : SwFifo} → IsValid f → f.wr_idx ≡ advance (length f.mem) f.rd_idx (count f)
wr_idx-advance {f} v = ground (arith, count-span v)

-- The fifo after `n` bytes have gone in.
abbrev stored : SwFifo → List ℕ → SwFifo
stored f bytes = record f {
  mem = put f.mem f.wr_idx bytes;
  wr_idx = inc_idx f.depth f.wr_idx (length bytes);
}

stored-IsValid :
    {f : SwFifo} (bytes : List ℕ)
    → IsValid f
    → length bytes + count f ≤ f.depth
    → IsValid (stored f bytes)
stored-IsValid {f} bytes v h =
    let same = length-put f.mem f.wr_idx bytes in
    let next = inc_idx-advance f.depth f.wr_idx (length bytes) v.small v.wr_in (omega arith) in
    record {
      unit = v.unit;
      storage = rw same v.storage;
      small = v.small;
      wr_in = rw next (ground arith);
      rd_in = v.rd_in;
    }

count-stored :
    {f : SwFifo} (bytes : List ℕ)
    → IsValid f
    → length bytes + count f ≤ f.depth
    → count (stored f bytes) ≡ count f + length bytes
count-stored {f} bytes v h =
    let next = inc_idx-advance f.depth f.wr_idx (length bytes) v.small v.wr_in (omega arith) in
    count-span (stored-IsValid bytes v h) ∙ rw next (ground (arith, count-span v))

contents-stored :
    {f : SwFifo} (bytes : List ℕ)
    → IsValid f
    → length bytes + count f ≤ f.depth
    → contents (stored f bytes) ≡ contents f ++ bytes
contents-stored {f} bytes v h =
    ap (window (put f.mem f.wr_idx bytes) f.rd_idx) (count-stored bytes v h)
    ∙ (ap (λ i. window (put f.mem i bytes) f.rd_idx (count f + length bytes)) (wr_idx-advance v)
        ∙ window-put f.mem f.rd_idx (count f) bytes (omega arith) (omega arith))

write_full :
    (f : SwFifo) (items : List ℕ) (num : ℕ)
    → ltb (avail f) num ≡ true
    → write f items num ≡ some (err failed, f)
unfolding write
write_full f items num h = rw h

write_fits :
    {f : SwFifo} (items : List ℕ) (num : ℕ)
    → IsValid f
    → num ≤ length items
    → ltb (avail f) num ≡ false
    → write f items num ≡ some (ok 0, stored f (take num items))
unfolding write
write_fits {f} items num v h fits =
    let lt : length (take num items) ≡ num = omega (arith, length-take num items) in
    let le : num ≤ f.depth = ground (arith, avail-add-count v) in
    rw (fits, circ_write-put items num v le h, lt)

-- `SwFifo_write` of `num` bytes puts all of them behind the queue if they fit, and otherwise
-- returns -1 and changes nothing: as the queue does. It faults at no valid fifo that is given
-- `num` bytes, keeps it valid, and keeps its depth.
pub write_refines :
    {f : SwFifo} (items : List ℕ) (num : ℕ)
    → IsValid f
    → num ≤ length items
    → let spec = Queue.step f.depth (Queue.write (take num items)) (contents f) in
      (f' : SwFifo) × (write f items num ≡ some (spec.0.0, f'))
      × (contents f' ≡ spec.1)
      × IsValid f'
      × (f'.depth ≡ f.depth)
unfolding Queue.step
write_refines {f} items num v h =
    let lt : length (take num items) ≡ num = omega (arith, length-take num items) in
    let room : f.depth - length (contents f) ≡ avail f =
      omega (arith, length-contents f, avail-add-count v) in
    elim (Bool-cases (ltb (avail f) num)) [
      | inl full ↦ rw (room, lt, full) (f, write_full f items num full, refl, v, refl)
      | inr fits ↦
          let le : length (take num items) + count f ≤ f.depth =
            ground (arith, avail-add-count v) in
          rw (room, lt, fits)
            (
              stored f (take num items),
              write_fits items num v h fits,
              contents-stored (take num items) v le,
              stored-IsValid (take num items) v le,
              refl,
            )
    ]

-- A run splits where `num` bytes end, or holds no more.
contents-split :
    {f : SwFifo} (num : ℕ)
    → IsValid f
    → let k = min num (count f) in
      contents f
      ≡ window f.mem f.rd_idx k ++ window f.mem (advance (length f.mem) f.rd_idx k) (count f - k)
contents-split {f} num v =
    let k = min num (count f) in
    let e : count f ≡ k + (count f - k) = omega arith in
    ap (window f.mem f.rd_idx) e
    ∙ window-add f.mem f.rd_idx k (count f - k) (omega arith) (omega (arith, count-le v))

module _ {f : SwFifo} (num : ℕ) (v : IsValid f) where
  length-first :
      let k = min num (count f) in
      length (window f.mem f.rd_idx k)
      ≡ min num (
          length (
            window f.mem f.rd_idx k
            ++ window f.mem (advance (length f.mem) f.rd_idx k) (count f - k)))
  length-first =
      let k = min num (count f) in
      let a = window f.mem f.rd_idx k in
      let b = window f.mem (advance (length f.mem) f.rd_idx k) (count f - k) in
      omega (
        arith,
        length-append a b,
        length-window f.mem f.rd_idx k,
        length-window f.mem (advance (length f.mem) f.rd_idx k) (count f - k),
      )

  take-contents : take num (contents f) ≡ window f.mem f.rd_idx (min num (count f))
  take-contents = ap (take num) (contents-split num v) ∙ take-append_of_length num _ _ length-first

  drop-contents :
      drop num (contents f)
      ≡ window f.mem
          (advance (length f.mem) f.rd_idx (min num (count f)))
          (count f - min num (count f))
  drop-contents = ap (drop num) (contents-split num v) ∙ drop-append_of_length num _ _ length-first

-- `SwFifo_peek` writes the oldest bytes to the front of the destination, as many as there are and
-- at most `num`, returns their number, and leaves the rest of the destination, which need hold no
-- more than them.
pub peek_lem :
    {f : SwFifo} (dst : List ℕ) (num : ℕ)
    → IsValid f
    → min num (count f) ≤ length dst
    → peek f dst num
      ≡ some (min num (count f), take num (contents f) ++ drop (min num (count f)) dst)
unfolding peek
peek_lem {f} dst num v h =
    let k = min num (count f) in
    let ek : (if ltb num (count f) then num else count f) ≡ k = ground arith in
    elim (Bool-cases (f.wr_idx == f.rd_idx)) [
      | inl empty ↦
          let same : f.wr_idx ≡ f.rd_idx = (==_iff _ _).0 empty in
          let none_left : min num (count f) ≡ 0 = ground (arith, count-span v) in
          let nothing : take num (contents f) ≡ [] =
            take-contents num v ∙ rw none_left (window-zero f.mem f.rd_idx) in
          rw (empty, nothing, none_left)
      | inr held ↦
          rw (held, ek, circ_read-window dst k v (omega (arith, count-le v)) h, take-contents num v)
    ]

count-ack :
    {f : SwFifo} (num : ℕ)
    → IsValid f
    → num ≤ count f
    → (IsValid (ack f num)) × (count (ack f num) ≡ count f - num)
unfolding ack
count-ack {f} num v h =
    let next = inc_idx-advance f.depth f.rd_idx num v.small v.rd_in (omega (arith, count-le v)) in
    let v' : IsValid (record f { rd_idx = inc_idx f.depth f.rd_idx num }) = record {
      unit = v.unit;
      storage = v.storage;
      small = v.small;
      wr_in = v.wr_in;
      rd_in = rw next (ground (arith, count-le v));
    } in
    (v', count-span v' ∙ rw next (ground (arith, count-span v)))

-- `SwFifo_ack` of no more bytes than the fifo holds drops the oldest ones, and keeps the fifo
-- valid and its depth.
pub ack_refines :
    {f : SwFifo} (num : ℕ)
    → IsValid f
    → num ≤ count f
    → (contents (ack f num) ≡ drop num (contents f))
      × IsValid (ack f num)
      × ((ack f num).depth ≡ f.depth)
ack_refines {f} num v h =
    let k : min num (count f) ≡ num = omega arith in
    let (v', c) = count-ack num v h in
    let next : (ack f num).rd_idx ≡ advance (length f.mem) f.rd_idx num =
      unfold ack in
      (inc_idx-advance f.depth f.rd_idx num v.small v.rd_in (omega (arith, count-le v))
        ∙ ap (λ c. advance c f.rd_idx num) (sym v.storage)) in
    let same : (ack f num).mem ≡ f.mem = unfold ack in refl in
    (
      ap (window (ack f num).mem (ack f num).rd_idx) c ∙ rw (next, same, drop-contents num v, k),
      v',
      unfold ack in refl,
    )

-- `SwFifo_read` hands out the oldest bytes, as many as there are and at most `num`, writes them to
-- the front of the destination and nothing behind them, takes exactly those out of the queue, and
-- keeps the fifo valid and its depth. The destination need hold no more than them.
pub read_refines :
    {f : SwFifo} (dst : List ℕ) (num : ℕ)
    → IsValid f
    → min num (count f) ≤ length dst
    → (f' : SwFifo) × (read f dst num
        ≡ some (min num (count f), take num (contents f) ++ drop (min num (count f)) dst, f'))
      × (contents f' ≡ drop num (contents f))
      × IsValid f'
      × (f'.depth ≡ f.depth)
unfolding read
read_refines {f} dst num v h =
    let k = min num (count f) in
    let (kept, v', d) = ack_refines k v (omega arith) in
    let same : drop k (contents f) ≡ drop num (contents f) =
      drop-contents k v ∙ (rw idem refl ∙ sym (drop-contents num v)) in
    elim (Bool-cases (k == 0)) [
      | inl nothing ↦
          let zero_k : k ≡ 0 = (==_iff _ _).0 nothing in
          (
            f,
            rw (peek_lem dst num v h, nothing),
            ap (λ n. drop n (contents f)) (sym zero_k) ∙ same,
            v,
            refl,
          )
      | inr some_read ↦ (ack f k, rw (peek_lem dst num v h, some_read), kept ∙ same, v', d)
    ]
  where
    idem : min (min num (count f)) (count f) ≡ min num (count f)
    idem = omega arith

-- `SwFifo_flush` empties a valid fifo.
pub flush_refines :
    {f : SwFifo}
    → IsValid f
    → (contents (flush f) ≡ []) × IsValid (flush f) × ((flush f).depth ≡ f.depth)
unfolding flush
flush_refines {f} v =
    let v' : IsValid (record f { wr_idx = 0; rd_idx = 0 }) = record {
      unit = v.unit;
      storage = v.storage;
      small = v.small;
      wr_in = omega arith;
      rd_in = omega arith;
    } in
    let c : count (record f { wr_idx = 0; rd_idx = 0 }) ≡ 0 = count-span v' ∙ ground arith in
    (rw c (window-zero f.mem 0), v', refl)
