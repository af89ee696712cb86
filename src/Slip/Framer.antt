-- ===== src/Slip/Framer.antt =====
-- `slip_framer` against the frames that it has to write.
use zephyr_common.Common.{
  ℕ, suc, ◌+◌, ◌≤◌, ◌<◌, ◌^◌, ◌≡◌, refl, ◌∙◌, List, [], ◌∷◌, ◌++◌, none, some, Option, lt→ltb,
  append_assoc, arith, length, drop, length-append, Ret, ok, err, eoverflow,
}
use zephyr_common.Slip.{end_byte, framer_from, framer}
use zephyr_common.Slip.Frame.{escape, frame}
use zephyr_common.Slip.Emit.{framer_from-frame, framer_from_short, framer_from_overflow}

length-frame : (xs : List ℕ) → length (frame xs) ≡ length (escape xs) + 2
unfolding frame
length-frame xs = omega (arith, length-append (escape xs) (end_byte ∷ []))

framer-cons :
    (xs out : List ℕ) (o max : ℕ) → framer xs (o ∷ out) max ≡ framer_from xs 1 (end_byte ∷ out) max
unfolding framer
framer-cons xs out o max = let some_room = lt→ltb 0 (suc (length out)) (omega arith) in rw some_room

-- If the frame of the input fits the buffer, `slip_framer` writes exactly that frame, leaves the
-- rest of the buffer, and returns the frame's length: for any buffer of `max` bytes or more, below
-- 2 ^ 32 bytes.
pub framer-frame :
    (xs out : List ℕ) (max : ℕ)
    → length (frame xs) ≤ max
    → max ≤ length out
    → length out < 2 ^ 32
    → framer xs out max ≡ some (ok (length (frame xs)), frame xs ++ drop (length (frame xs)) out)
framer-frame xs [] max h k small = absurd (omega (arith, length-frame xs))
framer-frame xs (o ∷ out) max h k small =
    let n = length-frame xs in
    let total : 1 + length (escape xs) + 1 ≡ length (frame xs) = omega arith in
    let gone : drop (length (escape xs) + 1) out ≡ drop (length (frame xs)) (o ∷ out) =
      let s : length (frame xs) ≡ suc (length (escape xs) + 1) = omega arith in rw s in
    framer-cons xs out o max
    ∙ (framer_from-frame xs (end_byte ∷ []) out 1 max refl (omega arith) (omega arith) (omega arith)
        ∙ (rw (total, gone) (whole (length (frame xs)) (drop (length (frame xs)) (o ∷ out)))))
  where
    whole :
        (n : ℕ) (rest : List ℕ)
        → ◌≡◌ {A = Option (Ret × List ℕ)}
            (some (ok n, end_byte ∷ (escape xs ++ end_byte ∷ rest)))
            (some (ok n, frame xs ++ rest))
    whole n rest = unfold frame in rw (append_assoc (escape xs) (end_byte ∷ []) rest)

-- If the frame is one byte longer than the buffer, `slip_framer` writes its last byte outside the
-- buffer instead of returning an error.
pub framer_overrun :
    (xs out : List ℕ)
    → length (frame xs) ≡ length out + 1
    → length out < 2 ^ 32
    → framer xs out (length out) ≡ none
framer_overrun xs [] h small = absurd (omega (arith, length-frame xs))
framer_overrun xs (o ∷ out) h small =
    framer-cons xs out o (length (o ∷ out))
    ∙ framer_from_short xs (end_byte ∷ []) out 1 (length (o ∷ out)) refl
        (omega (arith, length-frame xs)) (omega (arith, length-frame xs)) small

-- If the buffer is found full just before an input byte, `slip_framer` returns -EOVERFLOW.
pub framer_overflow :
    (ps cs out : List ℕ) (c max : ℕ)
    → 1 + length (escape ps) ≡ max
    → max ≤ length out
    → length out < 2 ^ 32
    → (out' : List ℕ) × (framer (ps ++ c ∷ cs) out max ≡ some (err eoverflow, out'))
framer_overflow ps cs [] c max h k small = absurd (omega arith)
framer_overflow ps cs (o ∷ out) c max h k small =
    let (out', e) =
      framer_from_overflow ps cs (end_byte ∷ []) out 1 c max refl (omega arith) h (omega arith) in
    (out', framer-cons (ps ++ c ∷ cs) out o max ∙ e)
