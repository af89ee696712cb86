-- ===== src/Ring/Copy.antt =====
-- Block copies into and out of circular storage, as writes and reads of one cell after another.
use zephyr_common.Common.{
  ℕ, zero, suc, ◌+◌, ◌≤◌, ◌<◌, ◌≡◌, refl, sym, ap, ◌∙◌, List, [], ◌∷◌, ◌++◌, some, append-nil,
  append_assoc, arith, length, get_or, set, take, drop, length-set, get_or-set_self, take-drop-suc,
  take-set-drop, drop-set, take-append-drop,
}
use zephyr_common.Common.Memory.{slice, store}
use zephyr_common.Ring.{advance, window, put, window-add, window-set_ne, advance-suc, advance-inj}

-- Writing on from the end of a run extends the run.
pub window-put :
    (mem : List ℕ) (i n : ℕ) (ys : List ℕ)
    → i < length mem
    → n + length ys ≤ length mem
    → window (put mem (advance (length mem) i n) ys) i (n + length ys) ≡ window mem i n ++ ys
unfolding put
window-put mem i n [] h k = let e : n + 0 ≡ n = omega arith in rw (e, append-nil)
window-put mem i n (y ∷ ys) h k =
    let j = advance (length mem) i n in
    let mem' = set mem j y in
    let j' : ℕ = advance (length mem) i (n + 1) in
    let same : length mem' ≡ length mem = length-set mem j y in
    let jn : j < length mem = ground arith in
    let je : advance (length mem) j 1 ≡ j' = ground arith in
    let one : window mem' j 1 ≡ y ∷ [] =
      unfold window in ap (λ r. r ∷ []) (get_or-set_self mem j y 0 jn) in
    let snoc : window mem' i (n + 1) ≡ window mem i n ++ (y ∷ []) =
      window-add mem' i n 1 (rw same h) (rw same (omega arith))
      ∙ (ap (λ c. window mem' i n ++ window mem' (advance c i n) 1) same
          ∙ (ap (λ r. window mem' i n ++ r) one
              ∙ ap (λ r. r ++ (y ∷ []))
                  (window-set_ne mem i n j y h jn (omega arith)
                    (λ m mn. advance-inj (length mem) i m n h mn (omega arith))))) in
    let rest : window (put mem' (advance (length mem') i (n + 1)) ys) i (n + 1 + length ys)
        ≡ window mem' i (n + 1) ++ ys =
      window-put mem' i (n + 1) ys (rw same h) (rw same (omega arith)) in
    let num : n + suc (length ys) ≡ n + 1 + length ys = omega arith in
    rw (num, je)
      (ap (λ c. window (put mem' (advance c i (n + 1)) ys) i (n + 1 + length ys)) (sym same)
        ∙ (rest ∙ (ap (λ r. r ++ ys) snoc ∙ append_assoc (window mem i n) (y ∷ []) ys)))

-- A write of two parts is a write of the first, and of the second from where it ends.
pub put-append :
    (mem : List ℕ) (i : ℕ) (xs ys : List ℕ)
    → i < length mem
    → length xs ≤ length mem
    → put mem i (xs ++ ys) ≡ put (put mem i xs) (advance (length mem) i (length xs)) ys
unfolding put
put-append mem i [] ys h k = let e : advance (length mem) i 0 ≡ i = ground arith in rw e
put-append mem i (x ∷ xs) ys h k =
    let mem' = set mem i x in
    let i' = advance (length mem) i 1 in
    let same : length mem' ≡ length mem = length-set mem i x in
    put-append mem' i' xs ys (rw same (ground arith)) (rw same (omega arith))
    ∙ ap (λ j. put (put mem' i' xs) j ys)
        (ap (λ c. advance c i' (length xs)) same ∙ advance-suc (length mem) i (length xs) h k)

-- The block that `store` writes.
pub store_block :
    (mem : List ℕ) (i : ℕ) (ys : List ℕ)
    → i < length mem
    → i + length ys ≤ length mem
    → take i mem ++ (ys ++ drop (i + length ys) mem) ≡ put mem i ys
unfolding put
store_block mem i [] h k = let e : i + 0 ≡ i = omega arith in rw e (take-append-drop i mem)
store_block mem i (y ∷ []) h k =
    let e : i + 1 ≡ suc i = omega arith in
    rw e (
      ap (λ r. take i mem ++ (y ∷ r)) (sym (drop-set i (suc i) mem y (omega arith)))
      ∙ (sym (take-set-drop i mem y (drop (suc i) (set mem i y)) h)
          ∙ take-append-drop (suc i) (set mem i y)))
store_block mem i (y ∷ z ∷ zs) h k =
    let ys = z ∷ zs in
    let mem' = set mem i y in
    let same : length mem' ≡ length mem = length-set mem i y in
    let e : i + suc (suc (length zs)) ≡ suc i + suc (length zs) = omega arith in
    let f : advance (length mem) i 1 ≡ suc i = ground arith in
    rw (e, f)
      (ap (λ r. take i mem ++ (y ∷ (ys ++ r)))
          (sym (drop-set i (suc i + suc (length zs)) mem y (omega arith)))
        ∙ (sym (take-set-drop i mem y (ys ++ drop (suc i + suc (length zs)) mem') h)
            ∙ store_block mem' (suc i) (z ∷ zs) (rw same (omega arith)) (rw same (omega arith))))

pub store-put :
    (mem : List ℕ) (i : ℕ) (ys : List ℕ)
    → i < length mem
    → i + length ys ≤ length mem
    → store mem i ys ≡ some (put mem i ys)
store-put mem i ys h k = ground (arith, store_block mem i ys h k)

-- A run that does not go round is a block.
pub window-block :
    (mem : List ℕ) (i n : ℕ)
    → i < length mem
    → i + n ≤ length mem
    → take n (drop i mem) ≡ window mem i n
unfolding window
window-block mem i zero h k = refl
window-block mem i (suc zero) h k = take-drop-suc i 0 mem 0 h
window-block mem i (suc (suc n)) h k =
    let f : advance (length mem) i 1 ≡ suc i = ground arith in
    rw f (
      take-drop-suc i (suc n) mem 0 h
      ∙ ap (λ r. get_or mem i 0 ∷ r) (window-block mem (suc i) (suc n) (omega arith) (omega arith)))

pub slice-window :
    (mem : List ℕ) (i n : ℕ)
    → i < length mem
    → i + n ≤ length mem
    → slice mem i n ≡ some (window mem i n)
slice-window mem i n h k = ground (arith, window-block mem i n h k)
