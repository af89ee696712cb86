-- ===== src/SwTimer/Elapsed.antt =====
-- The timers measure elapsed cycles across the wrap of the counter.
use zephyr_common.Common.{
  ℕ, ◌+◌, ◌*◌, ◌/◌, ◌%◌, ◌≤◌, ◌<◌, ◌^◌, ◌≡◌, refl, inl, inr, true, false, Bool-cases, some, arith,
  leb, if◌then◌else◌, ◌==◌, u32, ◌↔◌, leb→le, sym, ap, ◌∙◌, ◌-◌,
}
use native.Mathlib.Nat.{mul_assoc, div-mul-le_self, lt-div-mul-add, add-mul}
use zephyr_common.SwTimer.{SwTimer, running, expired, delta, cycles_per_us, tic, toc, set_us, test}

-- `now` and `start` are true times, counted without a bound, of which the counter shows 32 bits.
pub delta_elapsed :
    (start elapsed : ℕ) → elapsed < 2 ^ 32 → delta (u32 (start + elapsed)) (u32 start) ≡ elapsed
unfolding delta
delta_elapsed start elapsed h = ground arith

-- The rate of the clock, cut to whole megahertz.
abbrev pub whole_mhz : ℕ → ℕ
whole_mhz hz = hz - hz % 1_000_000

cycles_per_us-whole_mhz : (hz k : ℕ) → k * whole_mhz hz ≡ k * cycles_per_us hz * 1_000_000
unfolding cycles_per_us
cycles_per_us-whole_mhz hz k =
    let whole : hz - hz % 1_000_000 ≡ hz / 1_000_000 * 1_000_000 = omega arith in
    ap (λ t. k * t) whole ∙ sym (mul_assoc k (hz / 1_000_000) 1_000_000)

-- A measurement of less than 2 ^ 32 cycles returns the whole microseconds that they take at the
-- rate of the clock cut to whole megahertz, also where the counter has gone round: `n` such that
-- they take `n` microseconds or more, and fewer than `n + 1`. The clock has at least 1 MHz. From a
-- rate that is a whole number of megahertz nothing is cut.
pub tic-toc :
    (hz start elapsed : ℕ) (swt : SwTimer)
    → 1_000_000 ≤ hz
    → elapsed < 2 ^ 32
    → (n : ℕ) × (toc hz (tic swt (u32 start)).1 (u32 (start + elapsed)) ≡ some n)
      × (n * whole_mhz hz ≤ elapsed * 1_000_000)
      × (elapsed * 1_000_000 < (n + 1) * whole_mhz hz)
unfolding tic toc
tic-toc hz start elapsed swt h k =
    let q = cycles_per_us hz in
    let n = elapsed / q in
    let pos : 1 ≤ q = unfold cycles_per_us in omega arith in
    let next : (n + 1) * q ≡ n * q + q = omega (arith, add-mul n 1 q) in
    let fast : (q == 0) ≡ false = ground arith in
    (
      n,
      rw (fast, delta_elapsed start elapsed k),
      omega (arith, cycles_per_us-whole_mhz hz n, div-mul-le_self elapsed q),
      omega (arith, cycles_per_us-whole_mhz hz (n + 1), lt-div-mul-add {a = elapsed} pos, next),
    )

-- A timer that is set and then tested less than 2 ^ 32 cycles later has run out exactly if its
-- delay in microseconds has passed, at the rate of the clock cut to whole megahertz, and its state
-- says so. The clock has at least 1 MHz, and the delay is below 2 ^ 32 cycles.
pub set_us-test :
    (hz start elapsed us : ℕ) (swt : SwTimer)
    → 1_000_000 ≤ hz
    → elapsed < 2 ^ 32
    → us * whole_mhz hz < 2 ^ 32 * 1_000_000
    → let tested = test (set_us hz swt (u32 start) us) (u32 (start + elapsed)) in
      ((tested.0 ≡ true) ↔ (us * whole_mhz hz ≤ elapsed * 1_000_000))
      × (tested.1.state ≡ (if tested.0 then expired else running))
unfolding test set_us
set_us-test hz start elapsed us swt fast h k =
    let scaled = cycles_per_us-whole_mhz hz us in
    let whole : u32 (us * cycles_per_us hz) ≡ us * cycles_per_us hz = omega arith in
    rw (whole, delta_elapsed start elapsed h)
      (elim (Bool-cases (leb (us * cycles_per_us hz) elapsed)) [
        | inl over ↦ rw over (((λ _. omega (arith, leb→le _ _ over, scaled)), (λ _. refl)), refl)
        | inr early ↦ rw early (((λ e. cc), (λ le. absurd (ground (arith, scaled)))), refl)
      ])

-- A delay of 2 ^ 32 cycles or more is cut: the timer has run out as soon as the cycles that are
-- left of it have passed, before the delay.
pub set_us-test_early :
    (hz start elapsed us : ℕ) (swt : SwTimer)
    → elapsed < 2 ^ 32
    → 2 ^ 32 ≤ us * cycles_per_us hz
    → (us * cycles_per_us hz) % 2 ^ 32 ≤ elapsed
    → ((test (set_us hz swt (u32 start) us) (u32 (start + elapsed))).0 ≡ true)
      × (elapsed < us * cycles_per_us hz)
unfolding test set_us
set_us-test_early hz start elapsed us swt h k l =
    let over : leb (u32 (us * cycles_per_us hz)) elapsed ≡ true = ground arith in
    rw (delta_elapsed start elapsed h, over) (refl, omega arith)
