-- ===== src/Ws2812Led/Colour/Heat.antt =====
-- Heat colours, and colours that fade.
use zephyr_common.Common.{
  ℕ, zero, suc, ◌+◌, ◌-◌, ◌≤◌, ◌<◌, ◌≡◌, refl, subst, Bool, true, ◌&&◌, List, [], ◌∷◌, arith, leb,
  length,
}
use zephyr_common.Ws2812Led.Colour.{Crgb, get_heatcolor, scale8, scale8_nz, scale8_rgb, fade_color}
use zephyr_common.Ws2812Led.Colour.Gamma.{all_below, all_below_lem}
use native.Mathlib.Nat.{mul-le-mul_left}

-- No part of the first colour is brighter than that of the second.
abbrev pub Dimmer : Crgb → Crgb → Type 0
Dimmer c d = (c.r ≤ d.r) × (c.g ≤ d.g) × (c.b ≤ d.b)

dimmer : Crgb → Crgb → Bool
dimmer c d = leb c.r d.r && (leb c.g d.g && leb c.b d.b)

heat_rises : all_below 255 (λ t. dimmer (get_heatcolor t) (get_heatcolor (t + 1))) ≡ true
unfolding all_below get_heatcolor scale8_nz dimmer
heat_rises = refl

dimmer_lem : (c d : Crgb) → dimmer c d ≡ true → Dimmer c d
unfolding dimmer
dimmer_lem c d h = ground arith

heat_by : (k t : ℕ) → t + k < 256 → Dimmer (get_heatcolor t) (get_heatcolor (t + k))
heat_by zero t h = let e : t + 0 ≡ t = omega arith in rw e (omega arith)
heat_by (suc k) t h =
    let e : t + suc k ≡ t + k + 1 = omega arith in
    let step = dimmer_lem _ _ (
      all_below_lem 255 (λ t. dimmer (get_heatcolor t) (get_heatcolor (t + 1))) (t + k) heat_rises
        (omega arith)) in
    let before = heat_by k t (omega arith) in rw e (omega arith)

-- A hotter cell is as bright or brighter in each part of its colour.
pub get_heatcolor_mono : (t u : ℕ) → t ≤ u → u < 256 → Dimmer (get_heatcolor t) (get_heatcolor u)
get_heatcolor_mono t u h l =
    let e : t + (u - t) ≡ u = omega arith in
    subst (λ k. Dimmer (get_heatcolor t) (get_heatcolor k)) e (heat_by (u - t) t (omega arith))

-- A scaled byte is less, by one at least, also for the greatest scale.
scale8_less : (x scale : ℕ) → x < 256 → scale ≤ 255 → scale8 x scale ≤ x - 1
unfolding scale8
scale8_less x scale h l = let product = mul-le-mul_left x l in omega arith

-- A colour that fades by each of the factors in turn.
unfoldable pub fade_all : List ℕ → Crgb → Crgb
unfolding fade_color
fade_all [] c = c
fade_all (f ∷ fs) c = fade_all fs (fade_color c f)

-- After as many fades as the number of its brightest part a colour of bytes is dark, whatever the
-- factors are, also 0.
pub fade_all_dark :
    (factors : List ℕ) (c : Crgb)
    → c.r < 256
    → c.g < 256
    → c.b < 256
    → c.r ≤ length factors
    → c.g ≤ length factors
    → c.b ≤ length factors
    → fade_all factors c ≡ record { r = 0; g = 0; b = 0 }
unfolding fade_all fade_color scale8_rgb
fade_all_dark [] c hr hg hb lr lg lb =
    let r : c.r ≡ 0 = omega arith in
    let g : c.g ≡ 0 = omega arith in
    let b : c.b ≡ 0 = omega arith in λ i. record { r = r i; g = g i; b = b i }
fade_all_dark (f ∷ fs) c hr hg hb lr lg lb =
    let s : 255 - f ≤ 255 = omega arith in
    let dr = scale8_less c.r (255 - f) hr s in
    let dg = scale8_less c.g (255 - f) hg s in
    let db = scale8_less c.b (255 - f) hb s in
    fade_all_dark fs (fade_color c f) (omega arith) (omega arith) (omega arith) (omega arith)
      (omega arith) (omega arith)
