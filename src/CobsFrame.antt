-- ===== src/CobsFrame.antt =====
-- modules/Cobs/src/Cobs_frame.c: frames of a COBS encoding between two framing bytes, and the
-- receiver of a stream of them. A byte outside `enc_out`, `work` or `buf_out` is the fault `none`.
pub mod Frame
pub mod Receive
pub mod Call
pub mod Empty
pub mod Rounds
pub mod Tests
use zephyr_common.Common.{
  ℕ, zero, suc, ◌+◌, Bool, true, false, Option, none, some, List, [], ◌∷◌, ◌++◌, ◌==◌, leb,
  if◌then◌else◌, u16, Errno, failed, enomem, Ret, ok, err, length, take, drop, get_elem?,
}
use zephyr_common.Common.Memory.{poke, ◌>>=◌}
use zephyr_common.SwFifo.{SwFifo, write, flush, get_count}
use zephyr_common.SwFifo
use zephyr_common.Cobs
use zephyr_common.Slip.{read_byte}

-- `FRAMING_BYTE`
abbrev pub framing_byte : ℕ
framing_byte = 0

-- What `Cobs_framer` does behind a `Cobs_encode` that returned `num`.
unfoldable pub framer_close : ℕ → List ℕ → ℕ → Option (Ret × List ℕ)
framer_close zero out max = some (err failed, out)
framer_close (suc n) out max = poke out 0 framing_byte >>= λ out'.
    if leb max (suc n + 2)
    then some (err failed, out')
    else (poke out' (1 + suc n) framing_byte >>= λ out2. some (ok (suc n + 2), out2))

-- The encoder gets the buffer from its second byte on.
unfoldable pub framer : List ℕ → List ℕ → ℕ → Option (Ret × List ℕ)
unfolding framer_close
framer buf_in enc_out max_enc_len = Cobs.encode buf_in (drop 1 enc_out) max_enc_len >>= λ r.
    let out = take 1 enc_out ++ r.1 in
    elim (r.0) [ err e ↦ some (err failed, out) | ok num ↦ framer_close num out max_enc_len ]

-- The `enum` of the states, and any other value of the byte.
pub data State : Type 0 where
  init find_sof find_eof decode error bad : State

-- `Cobs_Deframer`
pub record Deframer : Type 0 where
  pub state : State
  pub work : List ℕ
  pub work_size : ℕ
  pub fifo : SwFifo
  pub count : ℕ

-- The `for` loop of `FIND_SOF` over the bytes that are left.
unfoldable pub look_for_sof : ℕ → Deframer → ℕ → Option Deframer
look_for_sof zero self byte = some self
look_for_sof (suc left) self byte = read_byte self.fifo byte >>= λ r. elim (r.0 == framing_byte) [
  | true ↦ some (record self { fifo = r.1; state = find_eof })
  | false ↦ look_for_sof left (record self { fifo = r.1 }) r.0
]

-- The `for` loop of `FIND_EOF` over the bytes that are left; the first part is `found_eof`.
unfoldable pub look_for_eof : ℕ → Deframer → Option (Bool × Deframer)
look_for_eof zero self = some (false, self)
look_for_eof (suc left) self = elim (self.count == self.work_size) [
  | true ↦ some (false, record self { state = error })
  | false ↦ get_elem? self.work self.count >>= λ old. read_byte self.fifo old >>= λ r.
      poke self.work self.count r.0 >>= λ work. elim (r.0 == framing_byte) [
        | true ↦ some (true, record self { fifo = r.1; work = work; state = decode })
        | false ↦
            look_for_eof left
              (record self { fifo = r.1; work = work; count = u16 (self.count + 1) })
      ]
]

-- The `while (1)`, with fuel.
unfoldable pub deframer_loop : ℕ → Deframer → List ℕ → ℕ → Option (Ret × Deframer × List ℕ)
unfolding look_for_sof look_for_eof
deframer_loop zero self out max = none
deframer_loop (suc fuel) self out max =
    let avail = get_count self.fifo in
    elim (self.state) [
      | init ↦ deframer_loop fuel (record self { count = 0; state = find_sof }) out max
      | find_sof ↦ elim (avail == 0) [
        | true ↦ some (ok 0, record self { state = init }, out)
        | false ↦ look_for_sof avail self 0 >>= λ self'. deframer_loop fuel self' out max
      ]
      | find_eof ↦ elim (avail == 0) [
        | true ↦ some (ok 0, self, out)
        | false ↦ look_for_eof avail self >>= λ r. elim (r.0) [
          | true ↦ deframer_loop fuel (r.1) out max
          | false ↦ some (ok 0, r.1, out)
        ]
      ]
      | decode ↦ Cobs.decode self.work self.count out max >>= λ r. elim (r.0) [
        | err e ↦ deframer_loop fuel (record self { state = error }) r.1 max
        | ok num ↦ some (ok num, record self { state = init }, r.1)
      ]
      | error ↦ some (ok 0, record self { state = init; fifo = flush self.fifo }, out)
      | bad ↦ deframer_loop fuel self out max
    ]

-- Five rounds are enough: one in each of the five states, or FIND_SOF again on an empty fifo.
unfoldable pub deframer : Deframer → List ℕ → List ℕ → ℕ → Option (Ret × Deframer × List ℕ)
unfolding deframer_loop
deframer self buf_in buf_out max_buf_out = write self.fifo buf_in (length buf_in) >>= λ r.
    elim (r.0) [
      | err e ↦ some (ok 0, record self { fifo = flush r.1; state = init }, buf_out)
      | ok n ↦ deframer_loop 5 (record self { fifo = r.1 }) buf_out max_buf_out
    ]

-- `self` is the object before the call; `malloc` is the C library's, and its second call here is
-- the fifo's.
unfoldable pub deframer_init : (ℕ → Option (List ℕ)) → Deframer → ℕ → Ret × Deframer
deframer_init malloc self buf_depth =
    let fresh : Deframer = record self { state = init; work_size = buf_depth } in
    elim (malloc buf_depth) [
      | none ↦ (err enomem, record fresh { work = [] })
      | some work ↦
          let (status, fifo) = SwFifo.init malloc self.fifo buf_depth 1 none 0 false in
          let self' : Deframer = record fresh { work = work; fifo = fifo } in
          elim status [ ok n ↦ (ok 0, self') | err e ↦ (err failed, self') ]
    ]
