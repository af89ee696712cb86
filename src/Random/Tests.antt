-- ===== src/Random/Tests.antt =====
-- The range macros at concrete values.
use zephyr_common.Common.{ℕ, ◌+◌, ◌-◌, ◌≤◌, ◌≡◌, refl, some, arith}
use zephyr_common.Common.World.{World}
use zephyr_common.Random.{scale_uint, random_uint}
use zephyr_common.Random.Range.{random_uint_range}

abbrev highest : World
highest = record { rand = λ i. 0xffff_ffff; drawn = 0; clock = λ i. 0; reads = 0; hz = 1_000_000 }

-- A segment of 60 pixels.
never_the_last :
    ((i : ℕ) × (w' : World) × (random_uint 0x1_0000 60 highest ≡ some (i, w')) × (i + 2 ≤ 60))
    × (scale_uint 0xffff_ffff 60 ≡ 60 - 2)
never_the_last = random_uint_range 0x1_0000 60 highest (omega arith) (omega arith) (omega arith)

for_none : scale_uint 5 0 ≡ 0xffff_ffff
unfolding scale_uint
for_none = refl
