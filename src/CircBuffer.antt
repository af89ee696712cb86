-- ===== src/CircBuffer.antt =====
-- modules/CircBuffer: a circular buffer of bytes that discards the oldest to make room. The calls
-- are those of one thread at a time: the mutex holds no other state.
pub mod Valid
pub mod Refine
pub mod Overrun
mod Tests
use zephyr_common.Common.{
  ℕ, Option, none, some, List, ltb, leb, ◌==◌, if◌then◌else◌, add32, sub32, u16, enomem, einval,
  Ret, ok, err, not,
}
use zephyr_common.Common.Memory.{memcpy, ◌>>=◌}

-- `buf_size` is the depth; the memory has one cell more.
pub record CircBuffer : Type 0 where
  pub buf : List ℕ
  pub buf_size : ℕ
  pub wr_idx : ℕ
  pub rd_idx : ℕ

-- `inc_wr_idx` and `inc_rd_idx`
unfoldable pub inc_idx : ℕ → ℕ → ℕ → ℕ
inc_idx buf_size idx n =
    let i = add32 idx n in if ltb buf_size i then sub32 i (add32 buf_size 1) else i

unfoldable pub count : CircBuffer → ℕ
count c =
    if leb c.rd_idx c.wr_idx
    then sub32 c.wr_idx c.rd_idx
    else add32 (add32 (sub32 c.buf_size c.rd_idx) c.wr_idx) 1

pub avail : CircBuffer → ℕ
avail c = sub32 c.buf_size (count c)

-- The memory after the copy of `size` bytes.
pub circ_write : CircBuffer → List ℕ → ℕ → Option (List ℕ)
circ_write c bytes size =
    let num_to_wrap = add32 (sub32 c.buf_size c.wr_idx) 1 in
    if ltb c.buf_size (add32 c.wr_idx size)
    then (memcpy c.buf c.wr_idx bytes 0 num_to_wrap >>= λ buf.
        if ltb 0 (sub32 size num_to_wrap)
        then memcpy buf 0 bytes num_to_wrap (sub32 size num_to_wrap)
        else some buf)
    else memcpy c.buf c.wr_idx bytes 0 size

-- The destination after the copy of `num` bytes.
unfoldable pub circ_read : CircBuffer → List ℕ → ℕ → Option (List ℕ)
circ_read c dst num =
    let num_to_wrap = add32 (sub32 c.buf_size c.rd_idx) 1 in
    if ltb c.buf_size (add32 c.rd_idx num)
    then (memcpy dst 0 c.buf c.rd_idx num_to_wrap >>= λ out.
        memcpy out num_to_wrap c.buf 0 (sub32 num num_to_wrap))
    else memcpy dst 0 c.buf c.rd_idx num

pub flush : CircBuffer → CircBuffer
flush c = record c { wr_idx = 0; rd_idx = 0 }

-- The oldest bytes that are given up for `size` new ones.
pub purge : CircBuffer → ℕ → CircBuffer
unfolding avail count inc_idx
purge c size =
    let avail_space = avail c in
    if ltb avail_space size
    then record c { rd_idx = inc_idx c.buf_size c.rd_idx (sub32 size avail_space) }
    else c

-- The parameter `size` is a uint16_t: a longer length is cut.
pub write : CircBuffer → List ℕ → ℕ → Option (Ret × CircBuffer)
write c bytes len =
    let size = u16 len in
    let c1 = purge c size in
    circ_write c1 bytes size >>= λ buf.
    some (ok 0, record c1 { buf = buf; wr_idx = inc_idx c1.buf_size c1.wr_idx size })

unfoldable pub get_count : CircBuffer → ℕ
get_count c = count c

unfoldable pub read : CircBuffer → List ℕ → ℕ → Option (Ret × List ℕ × CircBuffer)
read c dst req_size =
    let num_to_read = if ltb req_size (count c) then req_size else count c in
    if count c == 0
    then some (ok 0, dst, c)
    else (circ_read c dst num_to_read >>= λ out.
        some (ok num_to_read, out, record c { rd_idx = inc_idx c.buf_size c.rd_idx num_to_read }))

-- `k_malloc` is the kernel's. `static_buf` is the caller's memory with the size that it declares.
pub init : (ℕ → Option (List ℕ)) → CircBuffer → ℕ → Option (List ℕ) → ℕ → Ret × CircBuffer
unfolding flush
init k_malloc c depth static_buf buf_size = elim static_buf [
  | none ↦ elim (k_malloc (add32 depth 1)) [
    | none ↦ (err enomem, c)
    | some mem ↦ (ok 0, flush (record c { buf = mem; buf_size = depth }))
  ]
  | some mem ↦
      if not (buf_size == add32 depth 1)
      then (err einval, c)
      else (ok 0, flush (record c { buf = mem; buf_size = depth }))
]
