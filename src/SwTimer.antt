-- ===== src/SwTimer.antt =====
-- modules/SwTimer: polled timers over the kernel's 32-bit cycle counter, and kernel timers.
-- `k_cycle_get_32` is the kernel's: each call of it is an argument `now`. The hardware clock's rate
-- (`sys_clock_hw_cycles_per_sec`) is the argument `hz`; a division by zero is `none`.
pub mod Elapsed
mod Tests
use zephyr_common.Common.{
  ℕ, zero, suc, ◌+◌, ◌-◌, ◌*◌, ◌/◌, ◌^◌, Bool, true, false, Option, none, some, ltb, leb, ◌==◌,
  if◌then◌else◌, u32, sub32,
}

-- `SwTimerState`
pub data State : Type 0 where
  idle running expired : State

-- `SwTimerType`
pub data Kind : Type 0 where
  one_shot periodic : Kind

-- The name, the callbacks and the kernel's timer object hold nothing that these calls read.
pub record SwTimer : Type 0 where
  pub state : State
  pub capture : ℕ
  pub delay_us : ℕ
  pub kind : Kind

-- `DELTA`, on uint32_t.
pub delta : ℕ → ℕ → ℕ
delta cnt ref = if ltb ref cnt then sub32 cnt ref else u32 (sub32 0xffff_ffff ref + cnt + 1)

-- `CYCLES_PER_US`
pub cycles_per_us : ℕ → ℕ
cycles_per_us hz = hz / 1_000_000

pub get_count : ℕ → ℕ
get_count now = now

pub tic : SwTimer → ℕ → ℕ × SwTimer
tic swt now = (now, record swt { capture = now })

pub toc : ℕ → SwTimer → ℕ → Option ℕ
unfolding delta
toc hz swt now =
    if cycles_per_us hz == 0 then none else some (delta now swt.capture / cycles_per_us hz)

-- The product is a uint64_t that the field cuts to 32 bits.
unfoldable pub set_us : ℕ → SwTimer → ℕ → ℕ → SwTimer
set_us hz swt now us = record swt {
  capture = now;
  delay_us = u32 (us * cycles_per_us hz);
  state = running;
}

-- `SwTimer_setMs`: `(ms) * 1000` on uint32_t.
unfoldable pub set_ms : ℕ → SwTimer → ℕ → ℕ → SwTimer
unfolding set_us
set_ms hz swt now ms = set_us hz swt now (u32 (ms * 1000))

unfoldable pub test : SwTimer → ℕ → Bool × SwTimer
unfolding delta
test swt now = elim (swt.state) [
  | expired ↦ (true, swt)
  | idle ↦ (true, swt)
  | running ↦
      if leb swt.delay_us (delta now swt.capture)
      then (true, record swt { state = expired })
      else (false, swt)
]

-- `SwTimer_sleepUs`: the counter is read once for the start and then for each test; `readings` are
-- its values from number n on, and `none` says that the timer has not run out at the last of them.
pub sleep_from : ℕ → SwTimer → ℕ → (ℕ → ℕ) → Option ℕ
unfolding test
sleep_from zero swt n readings = none
sleep_from (suc polls) swt n readings = elim ((test swt (readings n)).0) [
  | true ↦ some n
  | false ↦ sleep_from polls (test swt (readings n)).1 (n + 1) readings
]

-- What `SwTimer_start_ms` hands to `k_timer_start`: the timeout and the period, 0 for no repeat.
pub start_ms : SwTimer → ℕ → ℕ × ℕ
start_ms swt duration_ms = (duration_ms, elim (swt.kind) [ one_shot ↦ 0 | periodic ↦ duration_ms ])
