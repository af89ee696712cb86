-- ===== src/CircBuffer/Valid.antt =====
-- The representation invariant of a circular buffer.
use zephyr_common.Common.{ℕ, ◌+◌, ◌≤◌, ◌<◌, ◌^◌, ◌≡◌, sym, ◌∙◌, List, arith, length}
use zephyr_common.Ring.{advance, span}
use zephyr_common.Ring.Held.{held, length-held}
use zephyr_common.CircBuffer.{CircBuffer, inc_idx, count, avail}

-- Below 2 ^ 31 no index sum wraps on uint32_t.
pub record IsValid (c : CircBuffer) : Type 0 where
  pub storage : length c.buf ≡ c.buf_size + 1
  pub small : c.buf_size < 2 ^ 31
  pub wr_in : c.wr_idx ≤ c.buf_size
  pub rd_in : c.rd_idx ≤ c.buf_size

-- The bytes held, oldest first.
abbrev pub contents : CircBuffer → List ℕ
contents c = held c.buf c.rd_idx c.wr_idx

pub count-span : {c : CircBuffer} → IsValid c → count c ≡ span (length c.buf) c.rd_idx c.wr_idx
unfolding count
count-span v = ground arith

pub count-le : {c : CircBuffer} → IsValid c → count c ≤ c.buf_size
unfolding count
count-le v = ground arith

pub length-contents : {c : CircBuffer} → IsValid c → length (contents c) ≡ count c
length-contents {c} v =
    length-held c.buf c.rd_idx c.wr_idx (omega arith) (omega arith) ∙ sym (count-span v)

pub avail-add-count : {c : CircBuffer} → IsValid c → avail c + count c ≡ c.buf_size
unfolding avail
avail-add-count v = omega (arith, count-le v)

pub inc_idx-advance :
    {c : CircBuffer} (i n : ℕ)
    → IsValid c
    → i ≤ c.buf_size
    → n ≤ c.buf_size + 1
    → inc_idx c.buf_size i n ≡ advance (length c.buf) i n
unfolding inc_idx
inc_idx-advance {c} i n v k l = ground arith
