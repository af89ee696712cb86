-- ===== src/SwFifo/Queue.antt =====
-- What a fifo of bytes promises: a queue of at most `depth` bytes, oldest first, and the calls of
-- a client with their replies.
use zephyr_common.Common.{
  ℕ, ◌-◌, List, [], ◌∷◌, ◌++◌, ltb, if◌then◌else◌, length, take, drop, min, Ret, ok, err, failed,
}

pub data Op : Type 0 where
  write : List ℕ → Op
  read : ℕ → Op
  peek : ℕ → Op
  flush : Op
  get_count : Op

-- The `int` or count that the call returns, and the bytes that it hands out.
abbrev pub Reply : Type 0
Reply = Ret × List ℕ

module _ (depth : ℕ) where
  -- All of the bytes, or none of them and an error.
  unfoldable pub step : Op → List ℕ → Reply × List ℕ
  step (write bytes) q =
      if ltb (depth - length q) (length bytes)
      then ((err failed, []), q)
      else ((ok 0, []), q ++ bytes)
  step (read n) q = ((ok (min n (length q)), take n q), drop n q)
  step (peek n) q = ((ok (min n (length q)), take n q), q)
  step flush q = ((ok 0, []), [])
  step get_count q = ((ok (length q), []), q)

  unfoldable pub run : List Op → List ℕ → List Reply × List ℕ
  run [] q = ([], q)
  run (op ∷ ops) q =
      let (reply, q') = step op q in let (replies, q'') = run ops q' in (reply ∷ replies, q'')
