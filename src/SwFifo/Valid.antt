-- ===== src/SwFifo/Valid.antt =====
-- The representation invariant of a fifo of bytes.
use zephyr_common.Common.{ℕ, ◌+◌, ◌≤◌, ◌<◌, ◌^◌, ◌≡◌, List, arith, length}
use zephyr_common.Ring.{advance, window, span, length-window}
use zephyr_common.SwFifo.{SwFifo, inc_idx, count, avail, mem_size}

-- Below 2 ^ 31 no index sum wraps on uint32_t. (One cell more than `depth` is allocated.)
pub record IsValid (f : SwFifo) : Type 0 where
  pub unit : f.item_size ≡ 1
  pub storage : length f.mem ≡ f.depth + 1
  pub small : f.depth < 2 ^ 31
  pub wr_in : f.wr_idx ≤ f.depth
  pub rd_in : f.rd_idx ≤ f.depth

-- The bytes held, oldest first.
abbrev pub contents : SwFifo → List ℕ
contents f = window f.mem f.rd_idx (count f)

pub count-span : {f : SwFifo} → IsValid f → count f ≡ span (f.depth + 1) f.rd_idx f.wr_idx
unfolding count
count-span v = ground arith

pub count-le : {f : SwFifo} → IsValid f → count f ≤ f.depth
unfolding count
count-le v = ground arith

pub length-contents : (f : SwFifo) → length (contents f) ≡ count f
length-contents f = length-window f.mem f.rd_idx (count f)

pub avail-add-count : {f : SwFifo} → IsValid f → avail f + count f ≡ f.depth
unfolding avail
avail-add-count v = omega (arith, count-le v)

pub inc_idx-advance :
    (depth i n : ℕ)
    → depth < 2 ^ 31
    → i ≤ depth
    → n ≤ depth + 1
    → inc_idx depth i n ≡ advance (depth + 1) i n
unfolding inc_idx
inc_idx-advance depth i n h k l = ground arith

pub mem_size_unit : {f : SwFifo} (n : ℕ) → IsValid f → n < 2 ^ 32 → mem_size f n ≡ n
unfolding mem_size
mem_size_unit n v h = rw v.unit (omega arith)
