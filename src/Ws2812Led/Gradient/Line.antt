-- ===== src/Ws2812Led/Gradient/Line.antt =====
-- Straight lines in steps that are cut to a fraction of a byte, as a gradient takes them.
use zephyr_common.Common.{ℕ, ◌+◌, ◌-◌, ◌*◌, ◌/◌, ◌≤◌, ◌<◌, ◌≡◌, sym, ap, ◌∙◌, arith}
use native.Mathlib.Nat.{
  div-mul-le_self, mul-le-mul_right, mul_comm, mul_assoc, mul-add, add-mul, mul-le-mul_left,
  mul-lt-mul_of_pos_left, lt-div-mul-add,
}

-- The way after `i` of `n` steps is at most the whole distance.
pub way : (d n i : ℕ) → i ≤ n → i * (d / n * 2) ≤ d * 2
way d n i h =
    let q = d / n in
    let most = mul-le-mul_right (q * 2) h in
    let twice = mul_assoc n q 2 in let turn = mul_comm n q in omega (arith, div-mul-le_self d n)

-- `c` is where a straight line from `a` to `b` is after `i` of `n` steps, but for what the division
-- and the fraction cut off: less than 1 and 1 / 128 for each step.
abbrev pub CloseTo : ℕ → ℕ → ℕ → ℕ → ℕ → Type 0
CloseTo a b n i c =
    (256 * (n * c) ≤ 256 * ((n - i) * a + i * b) + 2 * (i * n))
    × (256 * ((n - i) * a + i * b) < 256 * (n * c) + 2 * (i * n) + 256 * n)

-- `i` steps of a distance `d` in `n` steps, against the exact ones.
step_size :
    (d n i : ℕ)
    → 1 ≤ n
    → let q = d * 128 / n * 2 in
      (n * (i * q) ≤ 256 * (i * d)) × (256 * (i * d) ≤ n * (i * q) + 2 * (i * n))
step_size d n i one =
    let m = d * 128 / n in
    let turn = mul_comm n m in
    let low : n * (m * 2) ≤ d * 256 = omega (arith, mul_assoc n m 2, div-mul-le_self (d * 128) n) in
    let high : d * 256 ≤ n * (m * 2) + n * 2 =
      omega (arith, mul_assoc n m 2, lt-div-mul-add {a = d * 128} one) in
    let swap : n * (i * (m * 2)) ≡ i * (n * (m * 2)) =
      sym (mul_assoc n i (m * 2))
      ∙ (ap (λ t. t * (m * 2)) (mul_comm n i) ∙ mul_assoc i n (m * 2)) in
    let far = mul_assoc i d 256 in
    let part = mul_assoc i n 2 in
    let sum = mul-add i (n * (m * 2)) (n * 2) in
    (
      omega (arith, swap, far, mul-le-mul_left i low),
      omega (arith, swap, far, part, sum, mul-le-mul_left i high),
    )

-- `n` times a pixel, against the upper byte of an accumulator `x`.
upper_byte :
    (n x : ℕ) → 1 ≤ n → (n * (x / 256) * 256 ≤ n * x) × (n * x < n * (x / 256) * 256 + n * 256)
upper_byte n x one =
    let c = x / 256 in
    let low : c * 256 ≤ x = omega arith in
    let high : x < c * 256 + 256 = omega arith in
    let sum = mul-add n (c * 256) 256 in
    let whole = mul_assoc n c 256 in
    (
      omega (arith, whole, mul-le-mul_left n low),
      omega (arith, whole, sum, mul-lt-mul_of_pos_left high one),
    )

weights : (a n i : ℕ) → i ≤ n → (n - i) * a + i * a ≡ n * a
weights a n i h =
    let whole : n - i + i ≡ n = omega arith in sym (add-mul (n - i) i a) ∙ ap (λ t. t * a) whole

pub rising :
    (a d n i : ℕ) → 1 ≤ n → i ≤ n → CloseTo a (a + d) n i ((a * 256 + i * (d * 128 / n * 2)) / 256)
rising a d n i one h =
    let q = d * 128 / n * 2 in
    let (below, above) = step_size d n i one in
    let (low, high) = upper_byte n (a * 256 + i * q) one in
    let sum = mul-add n (a * 256) (i * q) in
    let start = mul_assoc n a 256 in
    let line = mul-add i a d in (omega (arith, weights a n i h), omega (arith, weights a n i h))

pub falling :
    (b d n i : ℕ)
    → 1 ≤ n
    → i ≤ n
    → CloseTo (b + d) b n i (((b + d) * 256 - i * (d * 128 / n * 2)) / 256)
falling b d n i one h =
    let q = d * 128 / n * 2 in
    let a = b + d in
    let small : i * q ≤ a * 256 = omega (arith, way (d * 128) n i h) in
    let (below, above) = step_size d n i one in
    let (low, high) = upper_byte n (a * 256 - i * q) one in
    let back : a * 256 - i * q + i * q ≡ a * 256 = omega arith in
    let sum = mul-add n (a * 256 - i * q) (i * q) in
    let both = ap (λ t. n * t) back in
    let start = mul_assoc n a 256 in
    let line = mul-add i b d in (omega (arith, weights a n i h), omega (arith, weights a n i h))
