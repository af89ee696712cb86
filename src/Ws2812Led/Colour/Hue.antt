-- ===== src/Ws2812Led/Colour/Hue.antt =====
-- The brightness of the colours that `hsv2rgb` gives.
use zephyr_common.Common.{
  ℕ, ◌-◌, ◌*◌, ◌/◌, ◌≤◌, ◌<◌, ◌≡◌, inl, inr, Bool, true, false, Bool-cases, arith, u8, max, ◌==◌,
  if◌then◌else◌,
}
use zephyr_common.Ws2812Led.Colour.{Chsv, Crgb, hsv2rgb, sector, gamma8}
use zephyr_common.Ws2812Led.Colour.Gamma.{gamma8_mono}
use native.Mathlib.Nat.{mul-le-mul_left}

-- The brightest of the three parts.
abbrev pub brightness : Crgb → ℕ
brightness c = max c.r (max c.g c.b)

-- A byte scaled down is no greater.
scaled : (v x : ℕ) → v < 256 → u8 (v * (255 - x) / 256) ≤ v
scaled v x h = let product = mul-le-mul_left v by in omega arith
  where
    by : 255 - x ≤ 255
    by = omega arith

-- The colour through the gamma table.
abbrev Bright : ℕ → Crgb → Type 0
Bright v c = brightness (record { r = gamma8 c.r; g = gamma8 c.g; b = gamma8 c.b }) ≡ gamma8 v

either :
    (v : ℕ) (test : Bool) (x y : Crgb) → Bright v x → Bright v y → Bright v (if test then x else y)
either v true x y p q = p
either v false x y p q = q

-- A sector holds the value and two of the other parts.
sector_brightness :
    (region v p q t : ℕ) → v < 256 → p ≤ v → q ≤ v → t ≤ v → Bright v (sector region v p q t)
unfolding sector
sector_brightness region v p q t h hp hq ht =
    let lp = gamma8_mono p v hp h in
    let lq = gamma8_mono q v hq h in
    let lt = gamma8_mono t v ht h in
    either v (region == 0) _ _ (omega arith) (
      either v (region == 1) _ _ (omega arith) (
        either v (region == 2) _ _ (omega arith) (
          either v (region == 3) _ _ (omega arith)
            (either v (region == 4) _ _ (omega arith) (omega arith)))))

-- The brightest part of the colour that `hsv2rgb` gives is the value of the HSV colour, through the
-- gamma table, whatever its hue and saturation.
pub brightness-hsv2rgb : (hsv : Chsv) → hsv.v < 256 → brightness (hsv2rgb hsv) ≡ gamma8 hsv.v
unfolding hsv2rgb
brightness-hsv2rgb hsv h =
    let region = u8 (hsv.h / 43) in
    let remainder = u8 ((hsv.h - region * 43) * 6) in
    let p = u8 (hsv.v * (255 - hsv.s) / 256) in
    let q = u8 (hsv.v * (255 - hsv.s * remainder / 256) / 256) in
    let t = u8 (hsv.v * (255 - hsv.s * (255 - remainder) / 256) / 256) in
    elim (Bool-cases (hsv.s == 0)) [
      | inl grey ↦ rw (hsv2rgb, grey) (omega arith)
      | inr hue ↦
          rw (hsv2rgb, hue)
            (sector_brightness region hsv.v p q t h (scaled hsv.v hsv.s h)
              (scaled hsv.v (hsv.s * remainder / 256) h)
              (scaled hsv.v (hsv.s * (255 - remainder) / 256) h))
    ]
