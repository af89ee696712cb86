-- ===== src/Common/Words.antt =====
-- Fixed-width unsigned arithmetic of C, and the results of functions that return `int`.
use Prim.Native.Nat.{ℕ, ◌+◌, ◌-◌, ◌%◌, ◌^◌}

abbrev pub u8 : ℕ → ℕ
u8 n = n % 2 ^ 8

abbrev pub u16 : ℕ → ℕ
u16 n = n % 2 ^ 16

abbrev pub u32 : ℕ → ℕ
u32 n = n % 2 ^ 32

-- `a + b` on uint32_t.
abbrev pub add32 : ℕ → ℕ → ℕ
add32 a b = u32 (a + b)

-- `a - b` on uint32_t, for `b` below 2 ^ 32.
abbrev pub sub32 : ℕ → ℕ → ℕ
sub32 a b = u32 (a + 2 ^ 32 - b)

-- The negative codes that the modules return; `failed` is a plain -1.
pub data Errno : Type 0 where
  failed enomem einval eoverflow enodev enodata : Errno

-- An `int` result: a count or 0, or a negative code.
pub data Ret : Type 0 where
  ok : ℕ → Ret
  err : Errno → Ret

abbrev pub u64 : ℕ → ℕ
u64 n = n % 2 ^ 64

-- `a - b` on uint64_t, for `b` up to 2 ^ 64.
abbrev pub sub64 : ℕ → ℕ → ℕ
sub64 a b = u64 (a + 2 ^ 64 - b)
