-- ===== src/Ws2812Led/Effects/Pixels.antt =====
-- The effects on colours, `twinkle` and `sparkle`, stay inside the pixels.
use zephyr_common.Common.{
  ℕ, ◌+◌, ◌≤◌, ◌<◌, ◌^◌, ◌≡◌, refl, true, false, List, Option, none, some, arith, length, ◌==◌,
}
use zephyr_common.Common.World.{
  pure, lift, ◌>>=◌, Safe, Safe-bind, Safe-lift, Safe-pure, Safe-for_eff,
}
use zephyr_common.Random.{random_u8}
use zephyr_common.Random.Range.{random_uint-Safe}
use zephyr_common.Ws2812Led.Colour.{Chsv}
use zephyr_common.Ws2812Led.Segment.{Segment, fill_solid, hsv_off, random_hsv, random_satval}
use zephyr_common.Ws2812Led.Segment.Fill.{Long, poke-Ensures}
use zephyr_common.Ws2812Led.Effects.{Statics, twinkle_step, sparkle_step, sparkle_pixel}
use zephyr_common.Ws2812Led.Effects.Valid.{Sized, Pair, fill_solid-Ensures}

random_u8-Safe : Safe (λ n. Unit) random_u8
random_u8-Safe w = (_, _, refl, tt)

random_hsv-Safe : Safe (λ c. Unit) random_hsv
random_hsv-Safe w = (_, _, refl, tt)

random_satval-Safe : (h : ℕ) → Safe (λ c. Unit) (random_satval h)
random_satval-Safe h w = (_, _, refl, tt)

pub twinkle_step-Safe :
    (n : ℕ)
    → 1 ≤ n
    → n < 2 ^ 16
    → (seg : Segment) (st : Statics) → Sized n seg
    → Safe (Pair n) (twinkle_step seg st)
unfolding twinkle_step
twinkle_step-Safe n one small seg st v =
    Safe-bind _ _ _ _
      (random_uint-Safe 0x1_0000 seg.num_pixels (ground arith) (ground arith) (omega arith))
      (λ idx h. Safe-bind _ _ _ _ random_hsv-Safe (λ c t.
        Safe-bind (Long n) (Pair n) _ _
          (Safe-lift _ _ (poke-Ensures n seg.pixels idx c (v.hsv) (ground arith)))
          (λ ps l.
            elim (st.of_twinkle.count + 1 == st.of_twinkle.num)
              as (λ b. Safe (Pair n) (elim b [
                | false ↦ pure (
                  record seg { pixels = ps },
                  record st {
                    of_twinkle = record st.of_twinkle { count = st.of_twinkle.count + 1 };
                  },
                )
                | true ↦ lift (fill_solid (record seg { pixels = ps }) hsv_off) >>= λ seg.
                    pure (seg, record st { of_twinkle = record st.of_twinkle { count = 0 } })
              ])) [
                | false ↦ Safe-pure _ _ (ground arith)
                | true ↦
                    Safe-bind _ _ _ _
                      (Safe-lift _ _
                        (fill_solid-Ensures n (record seg { pixels = ps }) hsv_off (ground arith)))
                      (λ seg v. Safe-pure _ _ v)
              ])))

sparkle_pixel-Safe :
    (n num_pixels : ℕ) (color : Option Chsv) (i : ℕ) (ps : List Chsv)
    → 1 ≤ n
    → n < 2 ^ 16
    → num_pixels ≡ n
    → length ps ≡ n
    → Safe (Long n) (sparkle_pixel num_pixels color i ps)
unfolding sparkle_pixel
sparkle_pixel-Safe n num_pixels color i ps one small e l =
    Safe-bind _ _ _ _
      (random_uint-Safe 0x1_0000 num_pixels (omega arith) (omega arith) (omega arith))
      (λ idx h.
        Safe-bind (λ c. Unit) (Long n) _ _ (colour color)
          (λ c t. Safe-lift _ _ (poke-Ensures n ps idx c l (omega arith))))
  where
    colour :
        (color : Option Chsv)
        → Safe (λ c. Unit) (elim color [ some c ↦ random_satval c.h | none ↦ random_hsv ])
    colour none = random_hsv-Safe
    colour (some c) = random_satval-Safe c.h

pub sparkle_step-Safe :
    (n : ℕ)
    → 1 ≤ n
    → n < 2 ^ 16
    → (seg : Segment) (st : Statics) → Sized n seg
    → Safe (Pair n) (sparkle_step seg st)
unfolding sparkle_step
sparkle_step-Safe n one small seg st v =
    Safe-bind _ _ _ _ (Safe-lift _ _ (fill_solid-Ensures n seg hsv_off v)) (λ seg v.
      Safe-bind (Long n) (Pair n) _ _
        (Safe-for_eff (Long n) st.of_sparkle.num _
          (λ i ps h l.
            sparkle_pixel-Safe n seg.num_pixels st.of_sparkle.color i ps one small v.count l)
          seg.pixels v.hsv)
        (λ ps l. Safe-pure _ _ (ground arith)))
