-- ===== src/Ring/Held.antt =====
-- The bytes between a read and a write index, as a queue.
use zephyr_common.Common.{
  ℕ, ◌+◌, ◌-◌, ◌≤◌, ◌<◌, min, ◌≡◌, sym, ap, ◌∙◌, List, ◌++◌, arith, length, take, drop,
  length-append, take-append_of_length, drop-append_of_length,
}
use zephyr_common.Ring.{advance, span, window, put, window-add, length-put, length-window}
use zephyr_common.Ring.Copy.{window-put}

abbrev pub held : List ℕ → ℕ → ℕ → List ℕ
held mem rd wr = window mem rd (span (length mem) rd wr)

module _ (mem : List ℕ) (rd wr : ℕ) (rd_in : rd < length mem) (wr_in : wr < length mem) where
  pub span-lt : span (length mem) rd wr < length mem
  span-lt = ground arith

  pub length-held : length (held mem rd wr) ≡ span (length mem) rd wr
  length-held = length-window mem rd (span (length mem) rd wr)

  -- A write behind the bytes held, with a cell left free.
  pub held-put :
      (ys : List ℕ)
      → span (length mem) rd wr + length ys < length mem
      → held (put mem wr ys) rd (advance (length mem) wr (length ys)) ≡ held mem rd wr ++ ys
  held-put ys h =
      let n = span (length mem) rd wr in
      let same = length-put mem wr ys in
      let end : wr ≡ advance (length mem) rd n = ground arith in
      let size : span (length mem) rd (advance (length mem) wr (length ys)) ≡ n + length ys =
        ground arith in
      ap (λ c. window (put mem wr ys) rd (span c rd (advance (length mem) wr (length ys)))) same
      ∙ (ap (window (put mem wr ys) rd) size
          ∙ (ap (λ i. window (put mem i ys) rd (n + length ys)) end
              ∙ window-put mem rd n ys rd_in (omega arith)))

  module _ (k : ℕ) (h : k ≤ span (length mem) rd wr) where
    abbrev first : List ℕ
    first = window mem rd k

    abbrev rest : List ℕ
    rest = window mem (advance (length mem) rd k) (span (length mem) rd wr - k)

    split : held mem rd wr ≡ first ++ rest
    split =
        let e : span (length mem) rd wr ≡ k + (span (length mem) rd wr - k) = omega arith in
        ap (window mem rd) e
        ∙ window-add mem rd k (span (length mem) rd wr - k) rd_in (omega (arith, span-lt))

    size : length first ≡ min k (length (first ++ rest))
    size = omega (arith, length-append first rest, length-window mem rd k)

    pub take-held : take k (held mem rd wr) ≡ window mem rd k
    take-held = ap (take k) split ∙ take-append_of_length k first rest size

    -- The read index moved on by `k`.
    pub held-advance : held mem (advance (length mem) rd k) wr ≡ drop k (held mem rd wr)
    held-advance =
        let left : span (length mem) (advance (length mem) rd k) wr ≡ span (length mem) rd wr - k =
          ground arith in
        ap (window mem (advance (length mem) rd k)) left
        ∙ sym (ap (drop k) split ∙ drop-append_of_length k first rest size)

    pub span-advance :
        span (length mem) (advance (length mem) rd k) wr ≡ span (length mem) rd wr - k
    span-advance = ground arith
