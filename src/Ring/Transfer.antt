-- ===== src/Ring/Transfer.antt =====
-- The `memcpy` calls by which SwFifo.c and CircBuffer.c move bytes into and out of circular storage:
-- one call, or two where the run goes round its end.
use zephyr_common.Common.{
  ℕ, ◌+◌, ◌-◌, ◌≤◌, ◌<◌, ◌≡◌, sym, ap, ◌∙◌, List, ◌++◌, some, append_assoc, arith, length, take,
  drop, length-append, length-take, length-drop, take-append, drop-append, take-add, drop-drop,
}
use zephyr_common.Common.Memory.{slice, memcpy, ◌>>=◌}
use zephyr_common.Ring.{advance, window, put, window-add, length-put, length-window}
use zephyr_common.Ring.Copy.{put-append, store-put, slice-window}

slice_in :
    (xs : List ℕ) (off n : ℕ) → off + n ≤ length xs → slice xs off n ≡ some (take n (drop off xs))
slice_in xs off n h = ground arith

-- One call, into the storage.
pub memcpy-put :
    (mem : List ℕ) (i from n : ℕ) (src : List ℕ)
    → i < length mem
    → i + n ≤ length mem
    → from + n ≤ length src
    → memcpy mem i src from n ≡ some (put mem i (take n (drop from src)))
memcpy-put mem i from n src h k l =
    let m : length (take n (drop from src)) ≡ n =
      omega (arith, length-take n (drop from src), length-drop from src) in
    rw (slice_in src from n l, memcpy) (store-put mem i (take n (drop from src)) h (omega arith))

-- Two calls, into the storage: the first up to its end, the second from its start.
pub memcpy-put_wrap :
    (mem : List ℕ) (i w n : ℕ) (src : List ℕ)
    → i < length mem
    → i + w ≡ length mem
    → w ≤ n
    → n ≤ length mem
    → n ≤ length src
    → (memcpy mem i src 0 w >>= λ m. memcpy m 0 src w (n - w)) ≡ some (put mem i (take n src))
memcpy-put_wrap mem i w n src h e k l m =
    let lw : length (take w src) ≡ w = omega (arith, length-take w src) in
    let m1 = put mem i (take w src) in
    let lm : length m1 ≡ length mem = length-put mem i (take w src) in
    let turn : advance (length mem) i (length (take w src)) ≡ 0 = rw lw (ground arith) in
    let parts : take n src ≡ take w src ++ take (n - w) (drop w src) =
      let s : n ≡ w + (n - w) = omega arith in ap (λ t. take t src) s ∙ take-add w (n - w) src in
    rw (memcpy-put mem i 0 w src h (omega arith) (omega arith)) (
      memcpy-put m1 0 w (n - w) src (omega arith) (omega arith) (omega arith)
      ∙ ap some (
          sym (
            ap (put mem i) parts
            ∙ (put-append mem i (take w src) (take (n - w) (drop w src)) h (omega arith)
                ∙ ap (λ j. put m1 j (take (n - w) (drop w src))) turn))))

-- One call, out of the storage, to `at` in the destination.
pub memcpy-window :
    (dst mem : List ℕ) (at i n : ℕ)
    → i < length mem
    → i + n ≤ length mem
    → at + n ≤ length dst
    → memcpy dst at mem i n ≡ some (take at dst ++ (window mem i n ++ drop (at + n) dst))
memcpy-window dst mem at i n h k l =
    let lw : length (window mem i n) ≡ n = length-window mem i n in
    rw (slice-window mem i n h k, memcpy) (ground (arith, lw))

-- Two calls, out of the storage.
pub memcpy-window_wrap :
    (dst mem : List ℕ) (i w n : ℕ)
    → i < length mem
    → i + w ≡ length mem
    → w ≤ n
    → n ≤ length mem
    → n ≤ length dst
    → (memcpy dst 0 mem i w >>= λ d. memcpy d w mem 0 (n - w)) ≡ some (window mem i n ++ drop n dst)
memcpy-window_wrap dst mem i w n h e k l m =
    let lw : length (window mem i w) ≡ w = length-window mem i w in
    let zw : 0 + w ≡ w = omega arith in
    let first = window mem i w ++ drop w dst in
    let lf : length first ≡ length dst =
      omega (arith, length-append (window mem i w) (drop w dst), length-drop w dst) in
    let keep : take w first ≡ window mem i w =
      ap (λ t. take t first) (sym lw) ∙ take-append (window mem i w) (drop w dst) in
    let total : w + (n - w) ≡ n = omega arith in
    let after : drop (w + (n - w)) first ≡ drop n dst =
      sym (drop-drop w (n - w) first)
      ∙ (ap (drop (n - w))
            (ap (λ t. drop t first) (sym lw) ∙ drop-append (window mem i w) (drop w dst))
          ∙ (drop-drop w (n - w) dst ∙ ap (λ t. drop t dst) total)) in
    let turn : advance (length mem) i w ≡ 0 = ground arith in
    let runs : window mem i n ≡ window mem i w ++ window mem 0 (n - w) =
      ap (window mem i) (sym total)
      ∙ (window-add mem i w (n - w) h (omega arith)
          ∙ ap (λ j. window mem i w ++ window mem j (n - w)) turn) in
    rw (memcpy-window dst mem 0 i w h (omega arith) (omega arith), zw)
      (memcpy-window first mem w 0 (n - w) (omega arith) (omega arith) (omega arith)
        ∙ rw (keep, after, runs)
            (ap some (sym (append_assoc (window mem i w) (window mem 0 (n - w)) (drop n dst)))))
