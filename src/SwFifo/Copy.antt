-- ===== src/SwFifo/Copy.antt =====
-- `circWrite` and `circRead` of a fifo of bytes: the one or two copies move the bytes of one run.
use zephyr_common.Common.{
  ℕ, ◌+◌, ◌-◌, ◌≤◌, ◌<◌, ◌≡◌, ◌∙◌, inl, inr, List, ◌++◌, some, arith, ltb, Bool-cases, length, take,
  drop, add32, sub32, ltb→lt,
}
use zephyr_common.Ring.{window, put}
use zephyr_common.Ring.Transfer.{memcpy-put, memcpy-put_wrap, memcpy-window, memcpy-window_wrap}
use zephyr_common.SwFifo.{SwFifo, circ_write, circ_read}
use zephyr_common.SwFifo.Valid.{IsValid, mem_size_unit}

-- The copy in is a write of one byte after another.
pub circ_write-put :
    {f : SwFifo} (bytes : List ℕ) (num : ℕ)
    → IsValid f
    → num ≤ f.depth
    → num ≤ length bytes
    → circ_write f bytes num ≡ some (put f.mem f.wr_idx (take num bytes))
unfolding circ_write
circ_write-put {f} bytes num v h k =
    let open_wr : f.wr_idx < length f.mem = omega arith in
    let w = f.depth - f.wr_idx + 1 in
    let ew : add32 (sub32 f.depth f.wr_idx) 1 ≡ w = omega arith in
    let sum : add32 f.wr_idx num ≡ f.wr_idx + num = omega arith in
    let offset = mem_size_unit f.wr_idx v (omega arith) in
    elim (Bool-cases (ltb f.depth (f.wr_idx + num))) [
      | inl wraps ↦
          let turn : f.depth < f.wr_idx + num = ltb→lt _ _ wraps in
          let rest : sub32 num w ≡ num - w = omega arith in
          rw
            (
              sum,
              wraps,
              ew,
              rest,
              offset,
              mem_size_unit w v (omega arith),
              mem_size_unit (num - w) v (omega arith),
            )
            (memcpy-put_wrap f.mem f.wr_idx w num bytes open_wr (omega arith) (omega arith)
              (omega arith) k)
      | inr flat ↦
          let fits : f.wr_idx + num ≤ f.depth = ground arith in
          rw (sum, flat, offset, mem_size_unit num v (omega arith))
            (memcpy-put f.mem f.wr_idx 0 num bytes open_wr (omega arith) (omega arith))
    ]

-- The copy out hands over the run at the read index, and leaves the rest of the destination.
pub circ_read-window :
    {f : SwFifo} (dst : List ℕ) (num : ℕ)
    → IsValid f
    → num ≤ f.depth
    → num ≤ length dst
    → circ_read f dst num ≡ some (window f.mem f.rd_idx num ++ drop num dst)
unfolding circ_read
circ_read-window {f} dst num v h k =
    let open_rd : f.rd_idx < length f.mem = omega arith in
    let w = f.depth - f.rd_idx + 1 in
    let ew : add32 (sub32 f.depth f.rd_idx) 1 ≡ w = omega arith in
    let sum : add32 f.rd_idx num ≡ f.rd_idx + num = omega arith in
    let offset = mem_size_unit f.rd_idx v (omega arith) in
    elim (Bool-cases (ltb f.depth (f.rd_idx + num))) [
      | inl wraps ↦
          let turn : f.depth < f.rd_idx + num = ltb→lt _ _ wraps in
          let rest : sub32 num w ≡ num - w = omega arith in
          rw
            (
              sum,
              wraps,
              ew,
              rest,
              offset,
              mem_size_unit w v (omega arith),
              mem_size_unit (num - w) v (omega arith),
            )
            (memcpy-window_wrap dst f.mem f.rd_idx w num open_rd (omega arith) (omega arith)
              (omega arith) k)
      | inr flat ↦
          let fits : f.rd_idx + num ≤ f.depth = ground arith in
          let zn : 0 + num ≡ num = omega arith in
          rw (sum, flat, offset, mem_size_unit num v (omega arith))
            (memcpy-window dst f.mem 0 f.rd_idx num open_rd (omega arith) (omega arith) ∙ rw zn)
    ]
