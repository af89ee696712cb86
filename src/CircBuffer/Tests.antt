-- ===== src/CircBuffer/Tests.antt =====
-- Tests of the circular buffer, and its theorems at concrete buffers.
use zephyr_common.Common.{
  ℕ, min, ◌≡◌, ◌≢◌, ◌⊎◌, refl, List, [], ◌∷◌, ◌++◌, none, some, Option, arith, length, take, drop,
  ok, err, einval, enomem, replicate, length-replicate,
}
use zephyr_common.CircBuffer.{
  CircBuffer, inc_idx, count, avail, circ_write, circ_read, purge, write, read, init,
}
use zephyr_common.CircBuffer.Valid.{IsValid, contents}
use zephyr_common.CircBuffer.Refine.{contents-read}
use zephyr_common.CircBuffer.Overrun.{write_overrun, init_total}

-- Depth 3, with 8 and 9 held round the end of the memory.
abbrev wrapped : CircBuffer
wrapped = record { buf = 9 ∷ 7 ∷ 6 ∷ 8 ∷ []; buf_size = 3; wr_idx = 1; rd_idx = 3 }

wrapped-IsValid : IsValid wrapped
wrapped-IsValid = omega arith

-- Two more bytes: 8 is given up.
write_gives_up :
    write wrapped (1 ∷ 2 ∷ []) 2
    ≡ some (ok 0, record { buf = 9 ∷ 1 ∷ 2 ∷ 8 ∷ []; buf_size = 3; wr_idx = 3; rd_idx = 0 })
unfolding write purge avail count inc_idx circ_write
write_gives_up = refl

read_wraps :
    read wrapped (0 ∷ 0 ∷ 0 ∷ []) 5 ≡ some (ok 2, 8 ∷ 9 ∷ 0 ∷ [], record wrapped { rd_idx = 1 })
unfolding read count inc_idx circ_read
read_wraps = refl

contents-read_example :
    (c' : CircBuffer) × (read wrapped (0 ∷ 0 ∷ 0 ∷ []) 3
      ≡ some (
        ok (min 3 (count wrapped)),
        take 3 (contents wrapped) ++ drop (min 3 (count wrapped)) (0 ∷ 0 ∷ 0 ∷ []),
        c',
      ))
    × (contents c' ≡ drop 3 (contents wrapped))
    × IsValid c'
    × (c'.buf_size ≡ 3)
contents-read_example = contents-read (0 ∷ 0 ∷ 0 ∷ []) 3 wrapped-IsValid (omega arith)

write_overrun_example : write wrapped (replicate 8 5) 8 ≡ none
write_overrun_example =
    write_overrun (replicate 8 5) 8 wrapped-IsValid (omega arith) (omega arith) (omega arith)

-- A heap that always has room.
abbrev roomy : ℕ → Option (List ℕ)
roomy n = some (replicate n 0)

roomy-length : (n : ℕ) (m : List ℕ) → roomy n ≡ some m → length m ≡ n
roomy-length n m e = ground (arith, length-replicate {A = ℕ} n 0)

init_five :
    let made = init roomy wrapped 5 none 0 in
    (((m : List ℕ) × (◌≡◌ {A = Option (List ℕ)} none (some m))
        × (◌≢◌ {A = ℕ} 0 6)
        × (made ≡ (err einval, wrapped)))
      ⊎ ((◌≡◌ {A = Option (List ℕ)} none none) × (roomy 6 ≡ none) × (made ≡ (err enomem, wrapped))))
    ⊎ ((made.0 ≡ ok 0) × IsValid made.1 × (contents made.1 ≡ []) × (made.1.buf_size ≡ 5))
init_five = init_total roomy wrapped 5 none 0 roomy-length (λ m e. ground arith) (omega arith)
