-- ===== src/Random/Range.antt =====
-- The values that the range macros give.
use zephyr_common.Common.{ℕ, ◌+◌, ◌-◌, ◌%◌, ◌≤◌, ◌<◌, ◌^◌, ◌≡◌, refl, some, arith, sub64}
use zephyr_common.Common.World.{World, Safe}
use zephyr_common.Random.{scale_uint, random_uint}
use native.Mathlib.Nat.{mul-le-mul_right, mod-le}

pub scale_uint_bound : (r n : ℕ) → r < 2 ^ 32 → 1 ≤ n → n ≤ 2 ^ 32 → scale_uint r n ≤ n - 2
unfolding scale_uint
scale_uint_bound r n h one l =
    let m : sub64 n 1 ≡ n - 1 = omega arith in
    let top : r ≤ 0xffff_ffff = omega arith in
    let product = mul-le-mul_right (n - 1) top in rw m (omega arith)

-- `RANDOM_UINT` for 2 or more values gives at most n - 2, whatever the generator gives, and n - 2
-- for its greatest value: n - 1 is never drawn.
pub random_uint_range :
    (modulus n : ℕ) (w : World)
    → 2 ≤ n
    → n ≤ modulus
    → modulus ≤ 2 ^ 32
    → ((i : ℕ) × (w' : World) × (random_uint modulus n w ≡ some (i, w')) × (i + 2 ≤ n))
      × (scale_uint 0xffff_ffff n ≡ n - 2)
unfolding scale_uint
random_uint_range modulus n w two h l =
    let r = w.rand w.drawn % 2 ^ 32 in
    let bound = scale_uint_bound r n (omega arith) (omega arith) (omega arith) in
    let cut : scale_uint r n % modulus ≤ scale_uint r n = mod-le (scale_uint r n) modulus in
    let m : sub64 n 1 ≡ n - 1 = omega arith in
    (
      (scale_uint r n % modulus, record w { drawn = w.drawn + 1 }, refl, omega arith),
      rw m (omega arith),
    )

-- A drawn index lies in an array of `n` cells, 1 or more.
pub random_uint-Safe :
    (modulus n : ℕ)
    → 1 ≤ n
    → n ≤ modulus
    → modulus ≤ 2 ^ 32
    → Safe (λ i. i < n) (random_uint modulus n)
random_uint-Safe modulus n one h l w =
    let r = w.rand w.drawn % 2 ^ 32 in
    let bound = scale_uint_bound r n (omega arith) one (omega arith) in
    let cut : scale_uint r n % modulus ≤ scale_uint r n = mod-le (scale_uint r n) modulus in
    (scale_uint r n % modulus, record w { drawn = w.drawn + 1 }, refl, omega arith)

-- For 2 values or more the last cell is never drawn.
pub random_uint-Safe_below :
    (modulus n : ℕ)
    → 2 ≤ n
    → n ≤ modulus
    → modulus ≤ 2 ^ 32
    → Safe (λ i. i + 2 ≤ n) (random_uint modulus n)
random_uint-Safe_below modulus n two h l w = (random_uint_range modulus n w two h l).0
