-- ===== src/SwFifo/Room.antt =====
-- Calls on a valid fifo that has room for all the bytes.
use zephyr_common.Common.{
  ℕ, ◌+◌, ◌≤◌, ◌≡◌, sym, ap, ◌∙◌, List, ◌++◌, some, arith, length, take, take_all, ok,
}
use zephyr_common.SwFifo.{SwFifo, write, get_count}
use zephyr_common.SwFifo.Queue
use zephyr_common.SwFifo.Valid.{IsValid, contents, length-contents}
use zephyr_common.SwFifo.Refine.{write_refines}

pub get_count-length : (f : SwFifo) (q : List ℕ) → contents f ≡ q → get_count f ≡ length q
unfolding get_count
get_count-length f q e = sym (length-contents f) ∙ ap length e

step_fits :
    (depth : ℕ) (xs q : List ℕ)
    → length q + length xs ≤ depth
    → ((Queue.step depth (Queue.write xs) q).0.0 ≡ ok 0)
      × ((Queue.step depth (Queue.write xs) q).1 ≡ q ++ xs)
step_fits depth xs q h = unfold Queue.step in (ground arith, ground arith)

-- Bytes that fit go behind those that are held.
pub write_fits_lem :
    (f : SwFifo) (xs : List ℕ)
    → IsValid f
    → length (contents f) + length xs ≤ f.depth
    → (f' : SwFifo) × (write f xs (length xs) ≡ some (ok 0, f'))
      × (contents f' ≡ contents f ++ xs)
      × IsValid f'
      × (f'.depth ≡ f.depth)
write_fits_lem f xs v fits =
    let (f', w, c, v', d) = write_refines xs (length xs) v (omega arith) in
    let all : take (length xs) xs ≡ xs = take_all (length xs) xs (omega arith) in
    let (reply, after) = step_fits f.depth xs (contents f) fits in
    let stepped = λ (b : List ℕ). Queue.step f.depth (Queue.write b) (contents f) in
    (
      f',
      w ∙ (ap (λ b. some ((stepped b).0.0, f')) all ∙ ap (λ r. some (r, f')) reply),
      c ∙ (ap (λ b. (stepped b).1) all ∙ after),
      v',
      d,
    )
