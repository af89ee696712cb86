-- ===== src/CircBuffer/Refine.antt =====
-- The calls of a valid circular buffer against the queue of the bytes that it holds.
use zephyr_common.Common.{
  ℕ, ◌+◌, ◌-◌, ◌≤◌, ◌<◌, min, ◌≡◌, refl, sym, ap, ◌∙◌, inl, inr, List, [], ◌++◌, some, arith, ltb,
  ◌==◌, if◌then◌else◌, Bool-cases, length, take, drop, take-min, drop-min, ok, add32, sub32, ltb→lt,
  ==_iff,
}
use zephyr_common.Ring.{advance, window, span, window-zero}
use zephyr_common.Ring.Transfer.{memcpy-window, memcpy-window_wrap}
use zephyr_common.Ring.Held.{held-advance, take-held}
use zephyr_common.CircBuffer.{CircBuffer, inc_idx, count, circ_read, read}
use zephyr_common.CircBuffer.Valid.{
  IsValid, contents, count-span, count-le, length-contents, inc_idx-advance,
}

circ_read-window :
    {c : CircBuffer} (dst : List ℕ) (num : ℕ)
    → IsValid c
    → num ≤ c.buf_size
    → num ≤ length dst
    → circ_read c dst num ≡ some (window c.buf c.rd_idx num ++ drop num dst)
unfolding circ_read
circ_read-window {c} dst num v h k =
    let open_rd : c.rd_idx < length c.buf = omega arith in
    let w = c.buf_size - c.rd_idx + 1 in
    let ew : add32 (sub32 c.buf_size c.rd_idx) 1 ≡ w = omega arith in
    let sum : add32 c.rd_idx num ≡ c.rd_idx + num = omega arith in
    elim (Bool-cases (ltb c.buf_size (c.rd_idx + num))) [
      | inl wraps ↦
          let turn : c.buf_size < c.rd_idx + num = ltb→lt _ _ wraps in
          let rest : sub32 num w ≡ num - w = omega arith in
          rw (sum, wraps, ew, rest)
            (memcpy-window_wrap dst c.buf c.rd_idx w num open_rd (omega arith) (omega arith)
              (omega arith) k)
      | inr flat ↦
          let fits : c.rd_idx + num ≤ c.buf_size = ground arith in
          let zn : 0 + num ≡ num = omega arith in
          rw (sum, flat)
            (memcpy-window dst c.buf 0 c.rd_idx num open_rd (omega arith) (omega arith) ∙ rw zn)
    ]

-- What is given up, as a number of bytes.
abbrev excess : CircBuffer → ℕ → ℕ
excess c size = count c + size - c.buf_size

-- `CircBuffer_read` of a valid buffer hands out the oldest bytes, as many as there are and at most
-- `req_size`, writes them to the front of the destination and nothing behind them, takes exactly
-- those out of the buffer, and keeps it valid and its size. The destination has room for them, and
-- need hold no more.
pub contents-read :
    {c : CircBuffer} (dst : List ℕ) (req_size : ℕ)
    → IsValid c
    → min req_size (count c) ≤ length dst
    → (c' : CircBuffer) × (read c dst req_size
        ≡ some (
          ok (min req_size (count c)),
          take req_size (contents c) ++ drop (min req_size (count c)) dst,
          c',
        ))
      × (contents c' ≡ drop req_size (contents c))
      × IsValid c'
      × (c'.buf_size ≡ c.buf_size)
unfolding read
contents-read {c} dst req_size v h =
    let k = min req_size (count c) in
    let le_k : k ≤ span (length c.buf) c.rd_idx c.wr_idx = omega (arith, count-span v) in
    let open_wr : c.wr_idx < length c.buf = omega arith in
    let open_rd : c.rd_idx < length c.buf = omega arith in
    let pick : (if ltb req_size (count c) then req_size else count c) ≡ k = ground arith in
    let ek : min req_size (length (contents c)) ≡ k = ap (min req_size) (length-contents v) in
    let taken : window c.buf c.rd_idx k ≡ take req_size (contents c) =
      sym (take-held c.buf c.rd_idx c.wr_idx open_rd open_wr k le_k)
      ∙ (ap (λ n. take n (contents c)) (sym ek) ∙ take-min req_size (contents c)) in
    let left : drop k (contents c) ≡ drop req_size (contents c) =
      ap (λ n. drop n (contents c)) (sym ek) ∙ drop-min req_size (contents c) in
    elim (Bool-cases (count c == 0)) [
      | inl nothing ↦
          let empty : count c ≡ 0 = (==_iff _ _).0 nothing in
          let zero_k : k ≡ 0 = omega arith in
          let no_bytes : take req_size (contents c) ≡ [] =
            sym taken ∙ (ap (window c.buf c.rd_idx) zero_k ∙ window-zero c.buf c.rd_idx) in
          (
            c,
            rw (nothing, no_bytes, zero_k),
            ap (λ n. drop n (contents c)) (sym zero_k) ∙ left,
            v,
            refl,
          )
      | inr some_left ↦
          let next : inc_idx c.buf_size c.rd_idx k ≡ advance (length c.buf) c.rd_idx k =
            inc_idx-advance c.rd_idx k v v.rd_in (omega (arith, count-le v)) in
          (
            record c { rd_idx = advance (length c.buf) c.rd_idx k },
            rw (
              some_left,
              pick,
              circ_read-window dst k v (omega (arith, count-le v)) h,
              next,
              taken,
            ),
            held-advance c.buf c.rd_idx c.wr_idx open_rd open_wr k le_k ∙ left,
            record {
              storage = v.storage;
              small = v.small;
              wr_in = v.wr_in;
              rd_in = ground (arith, count-le v);
            },
            refl,
          )
    ]
