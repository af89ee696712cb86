-- ===== src/Ws2812Led/Colour/Gamma.antt =====
-- The gamma table rises, and checks of all bytes by evaluation.
use zephyr_common.Common.{
  ℕ, zero, suc, ◌+◌, ◌-◌, ◌≤◌, ◌<◌, ◌≡◌, refl, subst, Bool, true, ◌&&◌, arith, leb, leb→le,
}
use zephyr_common.Ws2812Led.Colour.{gamma8}

unfoldable pub all_below : ℕ → (ℕ → Bool) → Bool
all_below zero p = true
all_below (suc n) p = p n && all_below n p

pub all_below_lem : (n : ℕ) (p : ℕ → Bool) (x : ℕ) → all_below n p ≡ true → x < n → p x ≡ true
unfolding all_below
all_below_lem zero p x h lt = absurd (omega arith)
all_below_lem (suc n) p x h lt = ground (arith, all_below_lem n p x)

gamma_rises : all_below 255 (λ i. leb (gamma8 i) (gamma8 (i + 1))) ≡ true
unfolding all_below gamma8
gamma_rises = refl

gamma8_mono_by : (k i : ℕ) → i + k < 256 → gamma8 i ≤ gamma8 (i + k)
gamma8_mono_by zero i h = let e : i + 0 ≡ i = omega arith in rw e (omega arith)
gamma8_mono_by (suc k) i h =
    let e : i + suc k ≡ i + k + 1 = omega arith in
    let step : gamma8 (i + k) ≤ gamma8 (i + k + 1) = leb→le _ _ (
      all_below_lem 255 (λ i. leb (gamma8 i) (gamma8 (i + 1))) (i + k) gamma_rises (omega arith)) in
    rw e (omega (arith, gamma8_mono_by k i (omega arith)))

pub gamma8_mono : (i j : ℕ) → i ≤ j → j < 256 → gamma8 i ≤ gamma8 j
gamma8_mono i j h l =
    let e : i + (j - i) ≡ j = omega arith in
    subst (λ k. gamma8 i ≤ gamma8 k) e (gamma8_mono_by (j - i) i (omega arith))
