-- ===== src/Slip.antt =====
-- modules/slip: SLIP framing and deframing. `buf_in` and its length are one list, and a byte written
-- outside `buf_out` is the fault `none`. The cast of the framer's index to the `int` that it returns
-- keeps it for buffers of fewer than 2 ^ 31 bytes, which is what is modelled.
pub mod Frame
pub mod Emit
pub mod Framer
pub mod Decoder
pub mod Deframer
pub mod Stream
pub mod Parts
mod Tests
use zephyr_common.Common.{
  ℕ, zero, suc, ◌+◌, ◌*◌, Bool, true, false, not, ◌&&◌, Option, none, some, List, [], ◌∷◌, ◌==◌,
  if◌then◌else◌, add32, u16, u32, Errno, eoverflow, einval, failed, Ret, ok, err, length, get_or,
}
use zephyr_common.Common.Memory.{poke, ◌>>=◌}
use zephyr_common.SwFifo.{SwFifo, write, read, flush, get_count}
use zephyr_common.SwFifo

abbrev pub end_byte : ℕ
end_byte = 0xC0

abbrev pub esc_byte : ℕ
esc_byte = 0xDB

abbrev pub esc_end : ℕ
esc_end = 0xDC

abbrev pub esc_esc : ℕ
esc_esc = 0xDD

-- `buf_out[idx++] = c`
abbrev pub emit : List ℕ → ℕ → ℕ → Option (ℕ × List ℕ)
emit out idx c = poke out idx c >>= λ out'. some (add32 idx 1, out')

-- The `switch` of `slip_framer`.
pub emit_escaped : List ℕ → ℕ → ℕ → Option (ℕ × List ℕ)
emit_escaped out idx c =
    if c == end_byte
    then (emit out idx esc_byte >>= λ r. emit r.1 r.0 esc_end)
    else if c == esc_byte
    then (emit out idx esc_byte >>= λ r. emit r.1 r.0 esc_esc)
    else emit out idx c

-- The loop over the bytes left, and what follows it.
pub framer_from : List ℕ → ℕ → List ℕ → ℕ → Option (Ret × List ℕ)
unfolding emit_escaped
framer_from [] idx out max = emit out idx end_byte >>= λ r. some (ok r.0, r.1)
framer_from (c ∷ cs) idx out max = elim (idx == max) [
  | true ↦ some (err eoverflow, out)
  | false ↦ emit_escaped out idx c >>= λ r. framer_from cs r.0 r.1 max
]

pub framer : List ℕ → List ℕ → ℕ → Option (Ret × List ℕ)
unfolding framer_from
framer buf_in buf_out buf_out_max =
    poke buf_out 0 end_byte >>= λ out. framer_from buf_in 1 out buf_out_max

-- `INIT`, `FIND_SOF`, `FIND_EOF`, and any other value of the byte.
pub data State : Type 0 where
  init find_sof find_eof bad : State

-- `slip_deframer_ctx`
pub record Context : Type 0 where
  pub state : State
  pub fifo : SwFifo
  pub idx : ℕ
  pub get_escaped : Bool

-- `SwFifo_read(fifo, &byte, 1)`: the byte, kept where nothing is read.
pub read_byte : SwFifo → ℕ → Option (ℕ × SwFifo)
read_byte f byte = read f (byte ∷ []) 1 >>= λ r. some (get_or r.1 0 byte, r.2)

-- The `for` loop of `FIND_SOF` over the bytes that are left.
pub find_start : ℕ → Context → ℕ → Option Context
unfolding read_byte
find_start zero self byte = some self
find_start (suc left) self byte = read_byte self.fifo byte >>= λ r. elim (r.0 == end_byte) [
  | true ↦ some (record self { fifo = r.1; state = find_eof })
  | false ↦ find_start left (record self { fifo = r.1 }) r.0
]

-- `buf_out[deframer->idx++] = c`, and the loop goes on.
abbrev pub deliver : Context → List ℕ → ℕ → Option (Option Ret × Context × List ℕ)
deliver self out c =
    poke out self.idx c >>= λ out'. some (none, record self { idx = u16 (self.idx + 1) }, out')

-- What one byte read in `FIND_EOF` does: an inner `some` is a `return`.
pub accept : Context → ℕ → List ℕ → Option (Option Ret × Context × List ℕ)
accept self byte out =
    if byte == end_byte
    then some (some (ok self.idx), record self { state = init }, out)
    else if byte == esc_byte
    then some (none, record self { get_escaped = true }, out)
    else if byte == esc_esc && self.get_escaped
    then deliver (record self { get_escaped = false }) out esc_byte
    else if byte == esc_end && self.get_escaped
    then deliver (record self { get_escaped = false }) out end_byte
    else if self.get_escaped
    then some (some (err einval), record self { state = init; fifo = flush self.fifo }, out)
    else deliver self out byte

-- The `for` loop of `FIND_EOF` over the bytes that are left, and the return behind it.
pub find_end : ℕ → Context → ℕ → List ℕ → ℕ → Option (Ret × Context × List ℕ)
unfolding read_byte accept
find_end zero self byte out max = some (ok 0, self, out)
find_end (suc left) self byte out max = elim (self.idx == max) [
  | true ↦ some (err eoverflow, record self { state = init; fifo = flush self.fifo }, out)
  | false ↦ read_byte self.fifo byte >>= λ r. accept (record self { fifo = r.1 }) r.0 out >>= λ s.
      elim (s.0) [ some ret ↦ some (ret, s.1, s.2) | none ↦ find_end left s.1 r.0 s.2 max ]
]

-- The `while (1)`, with fuel. The byte is a local of the round, and starts as anything.
pub deframer_loop : ℕ → Context → List ℕ → ℕ → Option (Ret × Context × List ℕ)
unfolding find_start find_end
deframer_loop zero self out max = none
deframer_loop (suc fuel) self out max =
    let avail = get_count self.fifo in
    elim (self.state) [
      | init ↦
          deframer_loop fuel (record self { idx = 0; get_escaped = false; state = find_sof }) out
            max
      | find_sof ↦ elim (avail == 0) [
        | true ↦ some (ok 0, self, out)
        | false ↦ find_start avail self 0 >>= λ self'. deframer_loop fuel self' out max
      ]
      | find_eof ↦ elim (avail == 0) [
        | true ↦ some (ok 0, self, out)
        | false ↦ find_end avail self 0 out max
      ]
      | bad ↦ some (err einval, record self { state = init; fifo = flush self.fifo }, out)
    ]

-- Four rounds are enough: INIT, FIND_SOF, and FIND_EOF or FIND_SOF on an empty fifo.
pub deframer : Context → List ℕ → List ℕ → ℕ → Option (Ret × Context × List ℕ)
unfolding deframer_loop
deframer self buf_in buf_out buf_out_max = write self.fifo buf_in (length buf_in) >>= λ r.
    elim (r.0) [
      | err e ↦ some (ok 0, record self { fifo = flush r.1; state = init }, buf_out)
      | ok n ↦ deframer_loop 4 (record self { fifo = r.1 }) buf_out buf_out_max
    ]

-- `self` is the object before the call; `malloc` is the C library's.
pub deframer_init : (ℕ → Option (List ℕ)) → Context → ℕ → Ret × Context
deframer_init malloc self mtu =
    let (status, fifo) = SwFifo.init malloc self.fifo (u32 (2 * mtu)) 1 none 0 false in
    let self' = record self { state = init; fifo = fifo } in
    elim status [ ok n ↦ (ok 0, self') | err e ↦ (err failed, self') ]
