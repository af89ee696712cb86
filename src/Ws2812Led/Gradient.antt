-- ===== src/Ws2812Led/Gradient.antt =====
-- Gradients of modules/WS2812Led: the iterator between two colours, and the methods that use it. A
-- distance is an int16_t with 7 bits of fraction. A division by zero is `none`.
pub mod Line
pub mod Steps
pub mod Track
use zephyr_common.Common.{
  ℕ, zero, suc, ◌+◌, ◌-◌, ◌*◌, ◌/◌, Bool, true, false, List, Option, none, some, ltb, leb, ◌==◌,
  if◌then◌else◌, u8, u16,
}
use zephyr_common.Common.Memory.{poke}
use zephyr_common.Common.World.{World, Eff, pure, lift, ◌>>=◌, cycles, rate, for_range}
use zephyr_common.SwTimer.{test, set_ms}
use zephyr_common.Ws2812Led.Colour.{Chsv}
use zephyr_common.Ws2812Led.Segment.{
  Segment, GradientIter, Mode, static, blend, fill_solid, set_timer, test_timer,
}

-- `GradientDir`
pub data GradientDir : Type 0 where
  grad_fwd grad_bwd grad_shortest grad_longest : GradientDir

-- A signed distance, by its size.
pub data Dist : Type 0 where
  up down : ℕ → Dist

-- `satDist_7` and `valDist_7`: `(int16_t)(b - a) << 7` for bytes.
unfoldable pub dist_7 : ℕ → ℕ → Dist
dist_7 a b = if leb a b then up ((b - a) * 128) else down ((a - b) * 128)

-- The `switch` on the direction: whether the hue moves forwards.
unfoldable pub is_fwd : GradientDir → ℕ → Bool
is_fwd grad_fwd hue_delta = true
is_fwd grad_bwd hue_delta = false
is_fwd grad_shortest hue_delta = if ltb 127 hue_delta then false else true
is_fwd grad_longest hue_delta = if ltb hue_delta 128 then false else true

unfoldable pub hue_dist_7 : Bool → ℕ → Dist
hue_dist_7 fwd hue_delta = if fwd then up (hue_delta * 128) else down (u8 (256 - hue_delta) * 128)

-- `dist / numSteps * 2` as a uint16_t: the division is one of ints and cuts towards zero.
unfoldable pub delta_8 : Dist → ℕ → ℕ
delta_8 (up d) steps = u16 (d / steps * 2)
delta_8 (down d) steps = u16 (0x1_0000 - d / steps * 2)

-- The field `initialized` of the iterator is left as it is.
unfoldable pub get_gradient_iter :
    Chsv → Chsv → GradientDir → ℕ → GradientIter → Option GradientIter
unfolding dist_7 is_fwd hue_dist_7 delta_8
get_gradient_iter start_color end_color dir num_steps iter =
    let hue_delta = u8 (end_color.h + 256 - start_color.h) in
    if num_steps == 0
    then none
    else some (record iter {
      num_steps = num_steps;
      step_idx = 0;
      hue_delta = delta_8 (hue_dist_7 (is_fwd dir hue_delta) hue_delta) num_steps;
      sat_delta = delta_8 (dist_7 start_color.s end_color.s) num_steps;
      val_delta = delta_8 (dist_7 start_color.v end_color.v) num_steps;
      hue_accum = u16 (start_color.h * 256);
      sat_accum = u16 (start_color.s * 256);
      val_accum = u16 (start_color.v * 256);
      hue_start = u16 (start_color.h * 256);
      sat_start = u16 (start_color.s * 256);
      val_start = u16 (start_color.v * 256);
    })

-- The colour at the accumulators.
unfoldable pub accum_color : GradientIter → Chsv
accum_color iter = record {
  h = u8 (iter.hue_accum / 256);
  s = u8 (iter.sat_accum / 256);
  v = u8 (iter.val_accum / 256);
}

-- `accum += delta`, on uint16_t.
unfoldable pub advance : GradientIter → GradientIter
advance iter = record iter {
  hue_accum = u16 (iter.hue_accum + iter.hue_delta);
  sat_accum = u16 (iter.sat_accum + iter.sat_delta);
  val_accum = u16 (iter.val_accum + iter.val_delta);
}

-- The body of the loop of `fill_gradient`.
unfoldable pub gradient_pixel : ℕ → List Chsv × GradientIter → Option (List Chsv × GradientIter)
unfolding accum_color advance
gradient_pixel i (ps, iter) = elim (poke ps i (accum_color iter)) [
  | none ↦ none
  | some ps' ↦ some (ps', advance iter)
]

-- `iter` is what the local variable holds at first.
unfoldable pub fill_gradient : GradientIter → Segment → Chsv → Chsv → GradientDir → Option Segment
unfolding get_gradient_iter gradient_pixel
fill_gradient iter seg start_color end_color dir =
    let num_steps = u16 (seg.end_idx + 0x1_0000 - seg.start_idx + 1) in
    elim (get_gradient_iter start_color end_color dir num_steps iter) [
      | none ↦ none
      | some iter' ↦ elim (for_range iter'.num_steps 0 gradient_pixel (seg.pixels, iter')) [
        | none ↦ none
        | some r ↦ some (record seg { pixels = r.0; mode = static })
      ]
    ]

unfoldable pub fill_rainbow : GradientIter → Segment → ℕ → ℕ → ℕ → Option Segment
unfolding fill_gradient
fill_rainbow iter seg initial_hue sat val =
    fill_gradient iter seg (record { h = initial_hue; s = sat; v = val })
      (record { h = u8 (initial_hue + 255); s = sat; v = val }) grad_longest

-- `OBJ_INIT_CODE`
abbrev pub obj_init_code : ℕ
obj_init_code = 0x1258_0976

-- `blend` with the flag `init`.
unfoldable pub blend_start : Segment → Chsv → Chsv → GradientDir → ℕ → ℕ → Eff Segment
unfolding get_gradient_iter fill_solid
blend_start seg start_color end_color dir num_steps step_inc_ms =
    lift (get_gradient_iter start_color end_color dir num_steps seg.grad_iter) >>= λ iter.
    set_timer
      (record seg {
        timer_period_ms = step_inc_ms;
        use_rgb_pixels = false;
        grad_iter = record iter { initialized = obj_init_code };
      })
      step_inc_ms
    >>= λ seg. lift (fill_solid seg start_color) >>= λ seg. pure (record seg { mode = blend })

-- The colour at the start of the gradient.
unfoldable pub start_color : GradientIter → Chsv
start_color iter = record {
  h = u8 (iter.hue_start / 256);
  s = u8 (iter.sat_start / 256);
  v = u8 (iter.val_start / 256);
}

-- `blend` at a step of the timer.
unfoldable pub blend_step : Segment → Option Segment
unfolding advance accum_color start_color fill_solid
blend_step seg =
    let iter = advance seg.grad_iter in
    elim (for_range seg.num_pixels 0 (λ i ps. poke ps i (accum_color iter)) seg.pixels) [
      | none ↦ none
      | some ps ↦
          let idx = u16 (iter.step_idx + 1) in
          let seg' : Segment = record seg {
            pixels = ps;
            grad_iter = record iter { step_idx = idx };
          } in
          elim (idx == iter.num_steps) [
            | false ↦ some seg'
            | true ↦ elim (fill_solid seg' (start_color iter)) [
              | none ↦ none
              | some seg'' ↦ some (record seg'' {
                mode = blend;
                grad_iter = record iter {
                  hue_accum = iter.hue_start;
                  sat_accum = iter.sat_start;
                  val_accum = iter.val_start;
                  step_idx = 0;
                };
              })
            ]
          ]
    ]

-- `blend` without the flag `init`.
unfoldable pub blend_pass : Segment → Eff Segment
unfolding blend_step
blend_pass seg = test_timer seg >>= λ t. elim (t.0) [
  | false ↦ pure t.1
  | true ↦ set_timer t.1 t.1.timer_period_ms >>= λ seg. lift (blend_step seg)
]
