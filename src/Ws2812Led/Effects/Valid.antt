-- ===== src/Ws2812Led/Effects/Valid.antt =====
-- The effects keep the sizes of a segment's buffers and stay inside them.
use zephyr_common.Common.{ℕ, ◌≡◌, refl, Bool, true, false, arith, length}
use zephyr_common.Common.World.{Eff, pure, ◌>>=◌, Ensures, Safe, Safe-bind, Safe-pure, Ensures-bind}
use zephyr_common.Ws2812Led.Colour.{Chsv, Crgb}
use zephyr_common.Ws2812Led.Segment.{
  Segment, Mode, fill_solid, fill_solid_rgb, set_timer, test_timer,
}
use zephyr_common.Ws2812Led.Segment.Fill.{Long, set_all-Ensures}
use zephyr_common.Ws2812Led.Effects.{Statics, on_timer}

-- The buffers of a segment have `n` cells, as many as its pixels.
pub record Sized (n : ℕ) (seg : Segment) : Type 0 where
  pub count : seg.num_pixels ≡ n
  pub hsv : length seg.pixels ≡ n
  pub rgb : length seg.rgb_pixels ≡ n
  pub work : length seg.work_buf ≡ n

-- The same of a segment and the statics.
abbrev pub Pair : ℕ → Segment × Statics → Type 0
Pair n r = Sized n r.0

pub set_timer-Safe :
    (n : ℕ) (seg : Segment) (ms : ℕ) → Sized n seg → Safe (Sized n) (set_timer seg ms)
set_timer-Safe n seg ms v w = (_, _, refl, ground arith)

pub test_timer-Safe :
    (n : ℕ) (seg : Segment)
    → Sized n seg
    → Safe (λ (t : Bool × Segment). Sized n t.1 × (t.1.mode ≡ seg.mode)) (test_timer seg)
test_timer-Safe n seg v w = (_, _, refl, (ground arith, refl))

pub fill_solid-Ensures :
    (n : ℕ) (seg : Segment) (c : Chsv) → Sized n seg → Ensures (Sized n) (fill_solid seg c)
unfolding fill_solid
fill_solid-Ensures n seg c v =
    Ensures-bind (Long seg.num_pixels) (Sized n) _ _
      (set_all-Ensures seg.num_pixels c seg.pixels (ground arith)) (λ ps l. (_, refl, ground arith))

pub fill_solid_rgb-Ensures :
    (n : ℕ) (seg : Segment) (c : Crgb) → Sized n seg → Ensures (Sized n) (fill_solid_rgb seg c)
unfolding fill_solid_rgb
fill_solid_rgb-Ensures n seg c v =
    Ensures-bind (Long seg.num_pixels) (Sized n) _ _
      (set_all-Ensures seg.num_pixels c seg.rgb_pixels (ground arith))
      (λ ps l. (_, refl, ground arith))

-- A step that keeps the sizes gives an effect that does, and that leaves its own mode.
pub on_timer-Safe :
    (n : ℕ) (step : Segment → Statics → Eff (Segment × Statics)) (mode : Mode)
    → ((seg : Segment) (st : Statics) → Sized n seg → Safe (Pair n) (step seg st))
    → (seg : Segment) (st : Statics) → Sized n seg
    → Safe (λ (r : Segment × Statics). Sized n r.0 × (r.0.mode ≡ mode)) (on_timer step mode seg st)
on_timer-Safe n step mode keep seg st v = Safe-bind _ _ _ _ (test_timer-Safe n seg v) (λ t p.
    elim (t.0)
      as (λ b.
        Safe (λ (r : Segment × Statics). Sized n r.0 × (r.0.mode ≡ mode))
          (elim b [
            | false ↦ pure (record t.1 { mode = mode }, st)
            | true ↦ set_timer t.1 t.1.timer_period_ms >>= λ seg.
                step seg st >>= λ r. pure (record r.0 { mode = mode }, r.1)
          ])) [
            | false ↦ Safe-pure _ _ (ground arith, refl)
            | true ↦
                Safe-bind _ _ _ _
                  (Safe-bind _ _ _ _ (set_timer-Safe n t.1 t.1.timer_period_ms p.0)
                    (λ seg v. keep seg st v))
                  (λ r v. Safe-pure _ _ (ground arith, refl))
          ])
