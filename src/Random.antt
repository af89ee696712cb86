-- ===== src/Random.antt =====
-- modules/Random/include/Random.h: random numbers in a range, from those of the kernel's generator.
pub mod Range
mod Tests
use zephyr_common.Common.{
  ℕ, ◌+◌, ◌-◌, ◌*◌, ◌/◌, ◌%◌, ◌^◌, Bool, leb, u8, u16, u32, u64, sub64, Option, none, some, List,
  map,
}
use zephyr_common.Common.World.{World, Eff, pure, ◌>>=◌, random}

-- `RANDOM_U8()`, `RANDOM_U16()`, `RANDOM_U32()`: the value has the width of its type.
abbrev pub random_u8 : Eff ℕ
random_u8 = random >>= λ r. pure (u8 r)

abbrev pub random_u16 : Eff ℕ
random_u16 = random >>= λ r. pure (u16 r)

abbrev pub random_u32 : Eff ℕ
random_u32 = random >>= λ r. pure (u32 r)

-- `RANDOM_UINT(type, n)` before the cast to the type, with the 32 bits `r` of the generator. The
-- product is a uint64_t; for `n` 0 it takes `(n) - 1`, an int, for 2 ^ 64 - 1.
unfoldable pub scale_uint : ℕ → ℕ → ℕ
scale_uint r n = u64 (r * sub64 n 1) / 2 ^ 32

abbrev pub random_uint : ℕ → ℕ → Eff ℕ
random_uint modulus n = random >>= λ r. pure (scale_uint (u32 r) n % modulus)

-- `RANDOM_U8_RANGE(left, right)`
abbrev pub random_u8_range : ℕ → ℕ → Eff ℕ
random_u8_range left right =
    random_uint 0x100 (u8 (right + 0x100 - left)) >>= λ r. pure (u8 (r + left))

-- `RANDOM_BIN()`: the top bit.
abbrev pub random_bin : Eff Bool
random_bin = random >>= λ r. pure (leb (2 ^ 31) (u32 r))
