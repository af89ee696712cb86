-- ===== src/SwTimer/Tests.antt =====
-- Tests of the timers, and their theorems at concrete times.
use zephyr_common.Common.{
  ℕ, ◌+◌, ◌*◌, ◌≤◌, ◌<◌, ◌≡◌, ◌↔◌, refl, true, some, arith, if◌then◌else◌, u32,
}
use zephyr_common.SwTimer.{
  SwTimer, idle, running, expired, periodic, delta, cycles_per_us, tic, toc, set_us, test,
  sleep_from, start_ms,
}
use zephyr_common.SwTimer.Elapsed.{whole_mhz, tic-toc, set_us-test, set_us-test_early}

abbrev fresh : SwTimer
fresh = record { state = idle; capture = 0; delay_us = 0; kind = periodic }

-- The counter goes round between the two calls.
tic-toc_example :
    (n : ℕ) × (toc 8_000_000 (tic fresh (u32 0xffff_fff0)).1 (u32 (0xffff_fff0 + 100)) ≡ some n)
    × (n * whole_mhz 8_000_000 ≤ 100 * 1_000_000)
    × (100 * 1_000_000 < (n + 1) * whole_mhz 8_000_000)
tic-toc_example = tic-toc 8_000_000 0xffff_fff0 100 fresh (omega arith) (omega arith)

set_us-test_example :
    let tested = test (set_us 2_500_000 fresh (u32 7) 50) (u32 (7 + 99)) in
    ((tested.0 ≡ true) ↔ (50 * whole_mhz 2_500_000 ≤ 99 * 1_000_000))
    × (tested.1.state ≡ (if tested.0 then expired else running))
set_us-test_example = set_us-test 2_500_000 7 99 50 fresh (omega arith) (omega arith) (omega arith)

-- A delay of 20 seconds at 240 MHz.
runs_out_early :
    ((test (set_us 240_000_000 fresh (u32 7) 20_000_000) (u32 (7 + 600_000_000))).0 ≡ true)
    × (600_000_000 < 20_000_000 * cycles_per_us 240_000_000)
unfolding cycles_per_us
runs_out_early =
    set_us-test_early 240_000_000 7 600_000_000 20_000_000 fresh (omega arith) (omega arith)
      (omega arith)

sleep_polls : sleep_from 5 (set_us 1_000_000 fresh 10 3) 0 (λ n. 10 + 2 * n) ≡ some 2
unfolding sleep_from test delta set_us cycles_per_us
sleep_polls = refl

repeats : start_ms fresh 250 ≡ (250, 250)
unfolding start_ms
repeats = refl
