-- ===== src/Slip/Emit.antt =====
-- The loop of `slip_framer`: what it writes behind the part of the buffer that is done.
use zephyr_common.Common.{
  ℕ, ◌+◌, ◌-◌, ◌≤◌, ◌<◌, ◌^◌, ◌≡◌, ◌≢◌, refl, sym, ap, ◌∙◌, inl, inr, true, false, Bool-cases, List,
  [], ◌∷◌, ◌++◌, none, some, append_assoc, arith, length, drop, set, length-append, set-append,
  length-drop, ltb, ◌==◌, drop-drop, ok, err, eoverflow, add32, lt→ltb,
}
use zephyr_common.Common.Memory.{◌>>=◌}
use zephyr_common.Slip.{end_byte, esc_byte, esc_end, esc_esc, emit, emit_escaped, framer_from}
use zephyr_common.Slip.Frame.{escape_byte, escape}

-- A byte written behind `pre`, where there is room.
emit-append :
    (pre rest : List ℕ) (r idx v : ℕ)
    → idx ≡ length pre
    → idx + 1 < 2 ^ 32
    → emit (pre ++ r ∷ rest) idx v ≡ some (idx + 1, (pre ++ v ∷ []) ++ rest)
emit-append pre rest r idx v e small =
    let room : ltb idx (length (pre ++ r ∷ rest)) ≡ true =
      lt→ltb _ _ (omega (arith, length-append pre (r ∷ rest))) in
    let next : add32 idx 1 ≡ idx + 1 = omega arith in
    let here : set (pre ++ r ∷ rest) idx v ≡ (pre ++ v ∷ []) ++ rest =
      ap (λ i. set (pre ++ r ∷ rest) i v) e
      ∙ (set-append pre rest r v ∙ sym (append_assoc pre (v ∷ []) rest)) in
    rw (room, here, next)

emit_full : (out : List ℕ) (idx v : ℕ) → length out ≤ idx → emit out idx v ≡ none
emit_full out idx v h = ground arith

-- The cells behind `pre` hold what one byte is escaped to.
abbrev Wrote : List ℕ → List ℕ → ℕ → ℕ → Type 0
Wrote pre rest idx c =
    emit_escaped (pre ++ rest) idx c
    ≡ some
        (idx + length (escape_byte c), (pre ++ escape_byte c) ++ drop (length (escape_byte c)) rest)

emit_two :
    (pre rest : List ℕ) (r s idx u v : ℕ)
    → idx ≡ length pre
    → idx + 2 < 2 ^ 32
    → (emit (pre ++ r ∷ s ∷ rest) idx u >>= λ w. emit w.1 w.0 v)
      ≡ some (idx + 2, (pre ++ u ∷ v ∷ []) ++ rest)
emit_two pre rest r s idx u v e small =
    let two : idx + 1 + 1 ≡ idx + 2 = omega arith in
    rw (emit-append pre (s ∷ rest) r idx u e (omega arith)) (
      emit-append (pre ++ u ∷ []) rest s (idx + 1) v (omega (arith, length-append pre (u ∷ [])))
        (omega arith)
      ∙ rw (two, append_assoc pre (u ∷ []) (v ∷ [])))

length-escape_byte : (c : ℕ) → 1 ≤ length (escape_byte c)
unfolding escape_byte
length-escape_byte c = ground arith

emit_escaped_lem :
    (pre rest : List ℕ) (idx c : ℕ)
    → idx ≡ length pre
    → length (escape_byte c) ≤ length rest
    → idx + length rest < 2 ^ 32
    → Wrote pre rest idx c
unfolding emit_escaped escape_byte
emit_escaped_lem pre [] idx c e h small =
    let some_room : 1 ≤ length (escape_byte c) = length-escape_byte c in absurd (omega arith)
emit_escaped_lem pre (r ∷ []) idx c e h small = elim (Bool-cases (c == end_byte)) [
  | inl is_end ↦ absurd (let k = (rw is_end at h) in omega (arith, k))
  | inr other ↦ elim (Bool-cases (c == esc_byte)) [
    | inl is_esc ↦ absurd (let k = (rw (other, is_esc) at h) in omega (arith, k))
    | inr plain ↦ rw (other, plain) (emit-append pre [] r idx c e (omega arith))
  ]
]
emit_escaped_lem pre (r ∷ s ∷ rest) idx c e h small = elim (Bool-cases (c == end_byte)) [
  | inl is_end ↦ rw is_end (emit_two pre rest r s idx esc_byte esc_end e (omega arith))
  | inr other ↦ elim (Bool-cases (c == esc_byte)) [
    | inl is_esc ↦ rw (other, is_esc) (emit_two pre rest r s idx esc_byte esc_esc e (omega arith))
    | inr plain ↦ rw (other, plain) (emit-append pre (s ∷ rest) r idx c e (omega arith))
  ]
]

-- One round of the loop, where the buffer is not found full and the byte fits.
framer_from-cons :
    (pre rest : List ℕ) (idx c max : ℕ) (cs : List ℕ)
    → idx ≡ length pre
    → idx ≢ max
    → length (escape_byte c) ≤ length rest
    → idx + length rest < 2 ^ 32
    → framer_from (c ∷ cs) idx (pre ++ rest) max
      ≡ framer_from cs
          (idx + length (escape_byte c))
          ((pre ++ escape_byte c) ++ drop (length (escape_byte c)) rest)
          max
unfolding framer_from
framer_from-cons pre rest idx c max cs e ne h small =
    let going : (idx == max) ≡ false = ground arith in
    rw (going, framer_from, emit_escaped_lem pre rest idx c e h small)

-- The bytes of a frame from a byte on, in the room behind `pre`.
pub framer_from-frame :
    (cs pre rest : List ℕ) (idx max : ℕ)
    → idx ≡ length pre
    → length (escape cs) + 1 ≤ length rest
    → idx + length (escape cs) ≤ max
    → idx + length rest < 2 ^ 32
    → framer_from cs idx (pre ++ rest) max
      ≡ some (
        ok (idx + length (escape cs) + 1),
        pre ++ (escape cs ++ end_byte ∷ drop (length (escape cs) + 1) rest),
      )
unfolding framer_from escape
framer_from-frame [] pre [] idx max e h k small = absurd (omega arith)
framer_from-frame [] pre (r ∷ rest) idx max e h k small =
    let one : idx + 0 + 1 ≡ idx + 1 = omega arith in
    let gone : drop (0 + 1) (r ∷ rest) ≡ rest = refl in
    rw (
      emit-append pre rest r idx end_byte e (omega arith),
      one,
      gone,
      append_assoc pre (end_byte ∷ []) rest,
    )
framer_from-frame (c ∷ cs) pre rest idx max e h k small =
    let eb = escape_byte c in
    let n = length eb in
    let pos : 1 ≤ n = length-escape_byte c in
    let total : length (eb ++ escape cs) ≡ n + length (escape cs) = length-append eb (escape cs) in
    let left : length (drop n rest) ≡ length rest - n = length-drop n rest in
    let pre' : idx + n ≡ length (pre ++ eb) = omega (arith, length-append pre eb) in
    let sum : idx + n + length (escape cs) + 1 ≡ idx + length (eb ++ escape cs) + 1 = omega arith in
    let rest_gone : drop (length (escape cs) + 1) (drop n rest)
        ≡ drop (length (eb ++ escape cs) + 1) rest =
      let a : n + (length (escape cs) + 1) ≡ length (eb ++ escape cs) + 1 = omega arith in
      drop-drop n (length (escape cs) + 1) rest ∙ ap (λ m. drop m rest) a in
    framer_from-cons pre rest idx c max cs e (omega arith) (omega arith) small
    ∙ (framer_from-frame cs (pre ++ eb) (drop n rest) (idx + n) max pre' (omega arith) (omega arith)
          (omega arith)
        ∙ rw (
          sum,
          rest_gone,
          append_assoc pre eb (escape cs ++ end_byte ∷ drop (length (eb ++ escape cs) + 1) rest),
          append_assoc eb (escape cs) (end_byte ∷ drop (length (eb ++ escape cs) + 1) rest),
        ))

-- With room for all but the last byte of the frame, the last is written outside the buffer.
pub framer_from_short :
    (cs pre rest : List ℕ) (idx max : ℕ)
    → idx ≡ length pre
    → length rest ≡ length (escape cs)
    → idx + length (escape cs) ≡ max
    → max < 2 ^ 32
    → framer_from cs idx (pre ++ rest) max ≡ none
unfolding framer_from escape
framer_from_short [] pre rest idx max e h k small =
    rw (emit_full (pre ++ rest) idx end_byte (omega (arith, length-append pre rest)))
framer_from_short (c ∷ cs) pre rest idx max e h k small =
    let eb = escape_byte c in
    let n = length eb in
    let pos : 1 ≤ n = length-escape_byte c in
    let total : length (eb ++ escape cs) ≡ n + length (escape cs) = length-append eb (escape cs) in
    let left : length (drop n rest) ≡ length rest - n = length-drop n rest in
    let pre' : idx + n ≡ length (pre ++ eb) = omega (arith, length-append pre eb) in
    framer_from-cons pre rest idx c max cs e (omega arith) (omega arith) (omega arith)
    ∙ framer_from_short cs (pre ++ eb) (drop n rest) (idx + n) max pre' (omega arith) (omega arith)
        small

-- Where the buffer is found full before a byte, the loop ends with an error.
pub framer_from_overflow :
    (ps cs pre rest : List ℕ) (idx c max : ℕ)
    → idx ≡ length pre
    → length (escape ps) ≤ length rest
    → idx + length (escape ps) ≡ max
    → idx + length rest < 2 ^ 32
    → (out : List ℕ) × (framer_from (ps ++ c ∷ cs) idx (pre ++ rest) max
        ≡ some (err eoverflow, out))
unfolding framer_from escape
framer_from_overflow [] cs pre rest idx c max e h k small =
    let full : (idx == max) ≡ true = ground arith in (pre ++ rest, rw (full, framer_from))
framer_from_overflow (p ∷ ps) cs pre rest idx c max e h k small =
    let eb = escape_byte p in
    let n = length eb in
    let pos : 1 ≤ n = length-escape_byte p in
    let total : length (eb ++ escape ps) ≡ n + length (escape ps) = length-append eb (escape ps) in
    let left : length (drop n rest) ≡ length rest - n = length-drop n rest in
    let pre' : idx + n ≡ length (pre ++ eb) = omega (arith, length-append pre eb) in
    let (out, r) =
      framer_from_overflow ps cs (pre ++ eb) (drop n rest) (idx + n) c max pre' (omega arith)
        (omega arith) (omega arith) in
    (
      out,
      framer_from-cons pre rest idx p max (ps ++ c ∷ cs) e (omega arith) (omega arith) small ∙ r,
    )
