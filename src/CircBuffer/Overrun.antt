-- ===== src/CircBuffer/Overrun.antt =====
-- `CircBuffer_write` of more bytes than there are cells, and `CircBuffer_init`.
use zephyr_common.Common.{
  ℕ, ◌+◌, ◌-◌, ◌*◌, ◌≤◌, ◌<◌, ◌^◌, ◌≡◌, ◌≢◌, ◌⊎◌, refl, ◌∙◌, inl, inr, List, [], none, Option, some,
  arith, ltb, ◌==◌, true, Bool-cases, length, take, drop, length-take, length-drop, ok, err, einval,
  enomem, add32, sub32, u16, ==_iff, Option-cases,
}
use zephyr_common.Common.Memory.{memcpy}
use zephyr_common.Ring.{put, length-put, window-zero}
use zephyr_common.Ring.Transfer.{memcpy-put}
use zephyr_common.CircBuffer.{CircBuffer, circ_write, purge, write, init, flush}
use zephyr_common.CircBuffer.Valid.{IsValid, contents}

memcpy_overrun :
    (mem src : List ℕ) (from n : ℕ)
    → length mem < n
    → from + n ≤ length src
    → memcpy mem 0 src from n ≡ none
memcpy_overrun mem src from n h k =
    let l : length (take n (drop from src)) ≡ n =
      omega (arith, length-take n (drop from src), length-drop from src) in
    ground (arith, l)

circ_write-purge :
    (c : CircBuffer) (bytes : List ℕ) (size : ℕ)
    → circ_write (purge c size) bytes size ≡ circ_write c bytes size
unfolding purge circ_write
circ_write-purge c bytes size = ground arith

-- A write that goes round the end of a valid buffer more than once, one of more than twice the
-- cells less the write index, writes outside the memory: nothing in the call holds it to
-- the size of the buffer.
pub write_overrun :
    {c : CircBuffer} (bytes : List ℕ) (size : ℕ)
    → IsValid c
    → size < 2 ^ 16
    → size ≤ length bytes
    → 2 * (c.buf_size + 1) < c.wr_idx + size
    → write c bytes size ≡ none
unfolding write circ_write
write_overrun {c} bytes size v small given over =
    let short : u16 size ≡ size = omega arith in
    let w = c.buf_size - c.wr_idx + 1 in
    let ew : add32 (sub32 c.buf_size c.wr_idx) 1 ≡ w = omega arith in
    let sum : add32 c.wr_idx size ≡ c.wr_idx + size = omega arith in
    let wraps : ltb c.buf_size (c.wr_idx + size) ≡ true = ground arith in
    let rest : sub32 size w ≡ size - w = omega arith in
    let more : ltb 0 (size - w) ≡ true = ground arith in
    let first = memcpy-put c.buf c.wr_idx 0 w bytes (omega arith) (omega arith) (omega arith) in
    let same = length-put c.buf c.wr_idx (take w bytes) in
    let faults : circ_write c bytes size ≡ none =
      rw (sum, wraps, ew, rest, more, first)
        (memcpy_overrun (put c.buf c.wr_idx (take w bytes)) bytes w (size - w) (omega arith)
          (omega arith)) in
    rw (short, circ_write-purge c bytes size, faults)

module _ (c : CircBuffer) (depth : ℕ) (m : List ℕ) (small : depth < 2 ^ 31)
    (block : length m ≡ depth + 1) where
  abbrev fresh : CircBuffer
  fresh = record c { buf = m; buf_size = depth; wr_idx = 0; rd_idx = 0 }

  fresh-IsValid : IsValid fresh
  fresh-IsValid = omega arith

  fresh-contents : contents fresh ≡ []
  fresh-contents = window-zero m 0

-- `CircBuffer_init`, given a `k_malloc` that returns blocks of the size asked for or nothing, and a
-- caller whose static memory has the size that it declares: it fails with -EINVAL exactly when
-- there is static memory of another size than `depth + 1`, fails with -ENOMEM exactly when there is
-- none and `k_malloc` finds none, and otherwise leaves a valid, empty buffer of that depth.
pub init_total :
    (k_malloc : ℕ → Option (List ℕ)) (c : CircBuffer) (depth : ℕ) (static_buf : Option (List ℕ))
    (size : ℕ)
    → ((n : ℕ) (m : List ℕ) → k_malloc n ≡ some m → length m ≡ n)
    → ((m : List ℕ) → static_buf ≡ some m → length m ≡ size)
    → depth < 2 ^ 31
    → let made = init k_malloc c depth static_buf size in
      (((m : List ℕ) × (static_buf ≡ some m) × (size ≢ depth + 1) × (made ≡ (err einval, c)))
        ⊎ ((static_buf ≡ none) × (k_malloc (depth + 1) ≡ none) × (made ≡ (err enomem, c))))
      ⊎ ((made.0 ≡ ok 0) × IsValid made.1 × (contents made.1 ≡ []) × (made.1.buf_size ≡ depth))
unfolding init flush
init_total k_malloc c depth (some m) size blocks static small =
    let cells : add32 depth 1 ≡ depth + 1 = omega arith in
    elim (Bool-cases (size == (depth + 1))) [
      | inl right ↦
          let es : size ≡ depth + 1 = (==_iff _ _).0 right in
          rw (cells, right)
            (inr (
              refl,
              fresh-IsValid c depth m small (static m refl ∙ es),
              fresh-contents c depth m small (static m refl ∙ es),
              refl,
            ))
      | inr wrong ↦ rw (cells, wrong) (inl (inl (m, refl, ground arith, refl)))
    ]
init_total k_malloc c depth none size blocks static small =
    let cells : add32 depth 1 ≡ depth + 1 = omega arith in
    elim (Option-cases (k_malloc (depth + 1))) [
      | inl out ↦ rw (cells, out, init) (inl (inr (refl, refl, refl)))
      | inr (m, got) ↦
          rw (cells, got, init)
            (inr (
              refl,
              fresh-IsValid c depth m small (blocks (depth + 1) m got),
              fresh-contents c depth m small (blocks (depth + 1) m got),
              refl,
            ))
    ]
