-- ===== src/Ring.antt =====
-- The circular storage that SwFifo.c and CircBuffer.c share in form: a memory of `depth + 1` cells
-- in which an index goes round, and a run of cells read from an index on.
pub mod Copy
pub mod Transfer
pub mod Held
use zephyr_common.Common.{
  ℕ, zero, suc, ◌+◌, ◌-◌, ◌≤◌, ◌<◌, ◌≡◌, refl, sym, ap, ap₂, ◌∙◌, ◌≢◌, List, [], ◌∷◌, ◌++◌, arith,
  leb, ltb, if◌then◌else◌, length, get_or, set, length-set, get_or-set_ne,
}

-- `n` cells on from `i` in a storage of `c` cells, for `i < c` and `n ≤ c`.
abbrev pub advance : ℕ → ℕ → ℕ → ℕ
advance c i n = if ltb (i + n) c then i + n else i + n - c

-- The cells in use between a read and a write index.
abbrev pub span : ℕ → ℕ → ℕ → ℕ
span c rd wr = if leb rd wr then wr - rd else c - rd + wr

-- The `n` cells from `i` on.
unfoldable pub window : List ℕ → ℕ → ℕ → List ℕ
window mem i zero = []
window mem i (suc n) = get_or mem i 0 ∷ window mem (advance (length mem) i 1) n

-- The bytes `ys` written one by one from `i` on.
pub put : List ℕ → ℕ → List ℕ → List ℕ
put mem i [] = mem
put mem i (y ∷ ys) = put (set mem i y) (advance (length mem) i 1) ys

pub window-zero : (mem : List ℕ) (i : ℕ) → window mem i 0 ≡ []
unfolding window
window-zero mem i = refl

pub length-window : (mem : List ℕ) (i n : ℕ) → length (window mem i n) ≡ n
unfolding window
length-window mem i zero = refl
length-window mem i (suc n) = ap suc (length-window mem (advance (length mem) i 1) n)

pub length-put : (mem : List ℕ) (i : ℕ) (ys : List ℕ) → length (put mem i ys) ≡ length mem
unfolding put
length-put mem i [] = refl
length-put mem i (y ∷ ys) =
    length-put (set mem i y) (advance (length mem) i 1) ys ∙ length-set mem i y

pub advance-suc :
    (c i n : ℕ) → i < c → suc n ≤ c → advance c (advance c i 1) n ≡ advance c i (suc n)
advance-suc c i n h k = ground arith

-- A run of `a + b` cells is a run of `a` and one of `b` where the first ends.
pub window-add :
    (mem : List ℕ) (i a b : ℕ)
    → i < length mem
    → a ≤ length mem
    → window mem i (a + b) ≡ window mem i a ++ window mem (advance (length mem) i a) b
unfolding window
window-add mem i zero b h k =
    let e : zero + b ≡ b = omega arith in
    let f : advance (length mem) i 0 ≡ i = ground arith in rw (e, f)
window-add mem i (suc a) b h k =
    let e : suc a + b ≡ suc (a + b) = omega arith in
    rw e (
      ap (λ r. get_or mem i 0 ∷ r)
        (window-add mem (advance (length mem) i 1) a b (ground arith) (omega arith)
          ∙ ap (λ j. window mem (advance (length mem) i 1) a ++ window mem j b)
              (advance-suc (length mem) i a h k)))

-- A write at a cell outside a run leaves the run.
pub window-set_ne :
    (mem : List ℕ) (i n j y : ℕ)
    → i < length mem
    → j < length mem
    → n ≤ length mem
    → ((k : ℕ) → k < n → advance (length mem) i k ≢ j)
    → window (set mem j y) i n ≡ window mem i n
unfolding window
window-set_ne mem i zero j y h hj hn f = refl
window-set_ne mem i (suc n) j y h hj hn f = rw length-set (
    ap₂ ◌∷◌ (get_or-set_ne mem y 0 (λ e. f 0 (omega arith) (ground arith))) (
      window-set_ne mem (advance (length mem) i 1) n j y (ground arith) hj (omega arith) (λ k kn e.
        f (suc k) (omega arith) (sym (advance-suc (length mem) i k h (omega arith)) ∙ e))))

-- Different steps within one turn end at different cells.
pub advance-inj : (c i m n : ℕ) → i < c → m < n → n < c → advance c i m ≢ advance c i n
advance-inj c i m n h k l e = ground arith
