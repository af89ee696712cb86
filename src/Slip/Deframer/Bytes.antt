-- ===== src/Slip/Deframer/Bytes.antt =====
-- One byte out of the fifo, and one into the output buffer.
use zephyr_common.Common.{
  ℕ, suc, ◌<◌, ◌≡◌, sym, ap, ◌∙◌, List, [], ◌∷◌, ◌++◌, some, arith, length, set, length-append,
  set-append, length-set, append_assoc, true, ltb, lt→ltb, min, drop,
}
use zephyr_common.Common.Memory.{poke}
use zephyr_common.SwFifo.{SwFifo, count}
use zephyr_common.SwFifo.Valid.{IsValid, contents, length-contents}
use zephyr_common.SwFifo.Refine.{read_refines}
use zephyr_common.Slip.{read_byte}

-- The oldest byte is read, whatever `byte` was.
pub read_byte_lem :
    (f : SwFifo) (byte b : ℕ) (q : List ℕ)
    → IsValid f
    → contents f ≡ b ∷ q
    → (f' : SwFifo) × (read_byte f byte ≡ some (b, f'))
      × (contents f' ≡ q)
      × IsValid f'
      × (f'.depth ≡ f.depth)
unfolding read_byte
read_byte_lem f byte b q v e =
    let n : count f ≡ suc (length q) = sym (length-contents f) ∙ ap length e in
    let one : min 1 (count f) ≡ 1 = omega arith in
    let (f', r, c, v', d) = read_refines (byte ∷ []) 1 v (omega arith) in
    (f', rw (r, one, e), c ∙ ap (drop 1) e, v', d)

-- A byte behind what has been decoded.
pub poke-append :
    (dec rest : List ℕ) (out : List ℕ) (idx c : ℕ)
    → out ≡ dec ++ rest
    → idx ≡ length dec
    → idx < length out
    → (rest' : List ℕ) × (poke out idx c ≡ some ((dec ++ c ∷ []) ++ rest'))
      × (length ((dec ++ c ∷ []) ++ rest') ≡ length out)
poke-append dec [] out idx c e i h = absurd (omega (arith, length-append dec [], ap length e))
poke-append dec (r ∷ rest) out idx c e i h =
    let room : ltb idx (length out) ≡ true = lt→ltb _ _ h in
    let here : set out idx c ≡ (dec ++ c ∷ []) ++ rest =
      ap (λ o. set o idx c) e
      ∙ (ap (λ j. set (dec ++ r ∷ rest) j c) i
          ∙ (set-append dec rest r c ∙ sym (append_assoc dec (c ∷ []) rest))) in
    (rest, rw (room, here), ap length (sym here) ∙ length-set out idx c)
