-- ===== src/SwFifo.antt =====
-- modules/SwFifo: a software fifo of items of a fixed size over a circular memory of bytes.
-- The memory is the list of its bytes, and a copy that leaves an array is the fault `none`. The
-- fifo's name serves the log messages alone, and the locks are empty macros: neither is modelled.
pub mod Queue
pub mod Valid
pub mod Copy
pub mod Room
pub mod Run
pub mod Refine
pub mod Wide
mod Tests
use zephyr_common.Common.{
  ℕ, ◌+◌, ◌*◌, Bool, Option, none, some, List, [], ltb, leb, ◌==◌, if◌then◌else◌, u32, add32, sub32,
  Errno, failed, enomem, einval, Ret, ok, err, not,
}
use zephyr_common.Common.Memory.{memcpy, ◌>>=◌}

pub record SwFifo : Type 0 where
  pub depth : ℕ
  pub item_size : ℕ
  pub wr_idx : ℕ
  pub rd_idx : ℕ
  pub threadsafe : Bool
  pub mem : List ℕ

-- `inc_wrIdx` and `inc_rdIdx`
pub inc_idx : ℕ → ℕ → ℕ → ℕ
inc_idx depth idx n = let i = add32 idx n in if ltb depth i then sub32 i (add32 depth 1) else i

-- Number of items in the fifo.
unfoldable pub count : SwFifo → ℕ
count f =
    if leb f.rd_idx f.wr_idx
    then sub32 f.wr_idx f.rd_idx
    else add32 (add32 (sub32 f.depth f.rd_idx) f.wr_idx) 1

pub avail : SwFifo → ℕ
avail f = sub32 f.depth (count f)

pub is_empty : SwFifo → Bool
is_empty f = f.wr_idx == f.rd_idx

pub is_full : SwFifo → Bool
unfolding count
is_full f = count f == f.depth

-- `MEM_SIZE`, and the offset of `getMemPtr_wr` and `getMemPtr_rd`.
pub mem_size : SwFifo → ℕ → ℕ
mem_size f num = u32 (num * f.item_size)

-- The memory after the copy of `num` items of `bytes`. The second part is read from
-- `bytes + num_to_wrap`, a count of items and not of bytes.
pub circ_write : SwFifo → List ℕ → ℕ → Option (List ℕ)
unfolding mem_size
circ_write f bytes num =
    let num_to_wrap = add32 (sub32 f.depth f.wr_idx) 1 in
    let p = mem_size f f.wr_idx in
    if ltb f.depth (add32 f.wr_idx num)
    then (memcpy f.mem p bytes 0 (mem_size f num_to_wrap) >>= λ mem.
        memcpy mem 0 bytes num_to_wrap (mem_size f (sub32 num num_to_wrap)))
    else memcpy f.mem p bytes 0 (mem_size f num)

-- The destination after the copy of `num` items out of the fifo.
pub circ_read : SwFifo → List ℕ → ℕ → Option (List ℕ)
unfolding mem_size
circ_read f dst num =
    let num_to_wrap = add32 (sub32 f.depth f.rd_idx) 1 in
    let p = mem_size f f.rd_idx in
    if ltb f.depth (add32 f.rd_idx num)
    then (memcpy dst 0 f.mem p (mem_size f num_to_wrap) >>= λ out.
        memcpy out num_to_wrap f.mem 0 (mem_size f (sub32 num num_to_wrap)))
    else memcpy dst 0 f.mem p (mem_size f num)

pub flush : SwFifo → SwFifo
flush f = record f { wr_idx = 0; rd_idx = 0 }

pub write : SwFifo → List ℕ → ℕ → Option (Ret × SwFifo)
unfolding avail count inc_idx
write f items num =
    if ltb (avail f) num
    then some (err failed, f)
    else (circ_write f items num >>= λ mem.
        some (ok 0, record f { mem = mem; wr_idx = inc_idx f.depth f.wr_idx num }))

-- The number of items read, and the destination.
pub peek : SwFifo → List ℕ → ℕ → Option (ℕ × List ℕ)
unfolding is_empty
peek f dst num =
    let num_to_read = if ltb num (count f) then num else count f in
    if is_empty f
    then some (0, dst)
    else (circ_read f dst num_to_read >>= λ out. some (num_to_read, out))

pub ack : SwFifo → ℕ → SwFifo
unfolding inc_idx
ack f num = record f { rd_idx = inc_idx f.depth f.rd_idx num }

pub read : SwFifo → List ℕ → ℕ → Option (ℕ × List ℕ × SwFifo)
read f dst num = peek f dst num >>= λ r. some (r.0, r.1, if r.0 == 0 then f else ack f r.0)

unfoldable pub get_count : SwFifo → ℕ
get_count f = count f

pub get_avail : SwFifo → ℕ
get_avail f = avail f

-- `malloc` is the C library's: the block for a size, or none. `static_mem` is the caller's memory
-- with the size that it declares. `fifo` is the object before the call.
pub init : (ℕ → Option (List ℕ)) → SwFifo → ℕ → ℕ → Option (List ℕ) → ℕ → Bool → Ret × SwFifo
init malloc fifo depth item_size static_mem mem_size threadsafe =
    let fresh : SwFifo = record fifo {
      depth = depth;
      item_size = item_size;
      threadsafe = threadsafe;
      wr_idx = 0;
      rd_idx = 0;
    } in
    elim static_mem [
      | some mem ↦
          if not (mem_size == u32 (add32 depth 1 * item_size))
          then (err einval, fresh)
          else (ok 0, record fresh { mem = mem })
      | none ↦ elim (malloc (u32 (add32 depth 1 * item_size))) [
        | none ↦ (err enomem, record fresh { mem = [] })
        | some mem ↦ (ok 0, record fresh { mem = mem })
      ]
    ]
