-- ===== src/Ws2812Led/Tests.antt =====
-- Tests of the LED strip, and its theorems at concrete segments.
use zephyr_common.Common.{
  ℕ, ◌+◌, ◌-◌, ◌*◌, ◌≡◌, refl, Bool, true, false, [], ◌∷◌, none, some, arith, replicate, Ret, ok,
  if◌then◌else◌, get_elem?, u8,
}
use zephyr_common.Common.World.{World}
use zephyr_common.SwTimer
use zephyr_common.SwTimer.{SwTimer}
use zephyr_common.Ws2812Led.Colour.{Chsv, Crgb, hsv2rgb, gamma8, get_heatcolor, sector}
use zephyr_common.Ws2812Led.Colour.Hue.{brightness, brightness-hsv2rgb}
use zephyr_common.Ws2812Led.Colour.Heat.{Dimmer, get_heatcolor_mono, fade_all, fade_all_dark}
use zephyr_common.Ws2812Led.Segment.{Segment, seg_on, Mode, GradientIter, single}
use zephyr_common.Ws2812Led.Segment.Fill.{single_overrun}
use zephyr_common.Ws2812Led.Gradient.{grad_longest, fill_gradient}
use zephyr_common.Ws2812Led.Gradient.Line.{CloseTo}
use zephyr_common.Ws2812Led.Gradient.Track.{Between, Chosen, fill_gradient-track}
use zephyr_common.Ws2812Led.Effects.{Statics, segment_pass, fire_ignite}
use zephyr_common.Ws2812Led.Effects.Pass.{IsValid, segment_pass-IsValid}
use zephyr_common.Ws2812Led.Effects.Fire.{fire_ignite_overrun}
use zephyr_common.Ws2812Led.Strip.{
  Strip, Buffers, render_segment, led_main_round, add_segment, init, prepared, appended,
  next_number,
}
use zephyr_common.Ws2812Led.Strip.Paint.{
  paint_all, led_main_round-paint_all, render_segment_overrun,
}
use zephyr_common.Ws2812Led.Strip.Add.{buffers, add_segment_again, init-IsValid}

abbrev dark : Crgb
dark = record { r = 0; g = 0; b = 0 }

abbrev aqua : Chsv
aqua = record { h = 128; s = 255; v = 240 }

abbrev no_iter : GradientIter
no_iter = record {
  initialized = 0;
  num_steps = 0;
  step_idx = 0;
  hue_start = 0;
  sat_start = 0;
  val_start = 0;
  hue_accum = 0;
  sat_accum = 0;
  val_accum = 0;
  hue_delta = 0;
  sat_delta = 0;
  val_delta = 0;
}

abbrev timer : SwTimer
timer = record {
  state = SwTimer.State.expired;
  capture = 0;
  delay_us = 0;
  kind = SwTimer.Kind.one_shot;
}

-- Six pixels on fire, behind two others.
abbrev burning : Segment
burning = record {
  number = 0;
  start_idx = 2;
  end_idx = 7;
  num_pixels = 6;
  use_rgb_pixels = true;
  pixels = replicate 6 aqua;
  rgb_pixels = replicate 6 dark;
  timer = timer;
  timer_period_ms = 20;
  state = seg_on;
  mode = Mode.fire;
  work_buf = replicate 6 9;
  grad_iter = no_iter;
}

abbrev burning-IsValid : IsValid burning
burning-IsValid = record {
  sized = record { count = refl; hsv = refl; rgb = refl; work = refl };
  enough = omega arith;
  small = omega arith;
}

abbrev statics : Statics
statics = record {
  of_twinkle = record { num = 3; count = 0 };
  of_sparkle = record { color = none; num = 2 };
  of_fire = record { cool = 50; spark = 120 };
  of_dissolve = record { color = dark; decay = 80; prob = 20 };
  of_meteor = record { color = dark; msize = 2; mdecay = 64; decayrandom = false; count = 0 };
}

abbrev kernel : World
kernel = record {
  rand = λ i. 0xffff_ffff * i;
  drawn = 0;
  clock = λ i. 1000 * i;
  reads = 0;
  hz = 240_000_000;
}

segment_pass-IsValid_example :
    (r : Segment × Statics) × (w' : World) × (segment_pass burning statics kernel ≡ some (r, w'))
    × (IsValid r.0 × (r.0.num_pixels ≡ 6))
segment_pass-IsValid_example = segment_pass-IsValid burning statics kernel burning-IsValid

-- Five cells, and a generator that gives a spark at cell 5.
ignite_outside : fire_ignite 120 (replicate 5 9) kernel ≡ none
ignite_outside = fire_ignite_overrun 120 (replicate 5 9) kernel (omega arith) (omega arith) refl

single_outside : (single burning aqua 7 ≡ none) × (single burning aqua 0 ≡ some burning)
single_outside = single_overrun burning aqua refl refl (omega arith) (omega arith)

brightness-hsv2rgb_example : brightness (hsv2rgb aqua) ≡ gamma8 240
brightness-hsv2rgb_example = brightness-hsv2rgb aqua (omega arith)

aqua_light : hsv2rgb aqua ≡ record { r = 0; g = 215; b = 208 }
unfolding hsv2rgb gamma8 sector
aqua_light = refl

hotter_brighter : Dimmer (get_heatcolor 40) (get_heatcolor 200)
hotter_brighter = get_heatcolor_mono 40 200 (omega arith) (omega arith)

fade_all_dark_example : fade_all (replicate 200 0) (record { r = 200; g = 10; b = 0 }) ≡ dark
fade_all_dark_example =
    fade_all_dark (replicate 200 0) (record { r = 200; g = 10; b = 0 }) (omega arith) (omega arith)
      (omega arith) (omega arith) (omega arith) (omega arith)

fill_gradient-track_example :
    let ahead = u8 (10 + 256 - 200) in
    let back = u8 (200 + 256 - 10) in
    let turn = 200 + 256 in
    (seg' : Segment) × (c : Chsv) × (fill_gradient no_iter burning
        (record { h = 200; s = 255; v = 10 })
        (record { h = 10; s = 100; v = 240 })
        grad_longest
      ≡ some seg')
    × (get_elem? seg'.pixels 5 ≡ some c)
    × ((fwd : Bool) × (x : ℕ) × Chosen grad_longest fwd ahead back
        × (c.h ≡ u8 x)
        × CloseTo turn (if fwd then turn + ahead else turn - back) 6 5 x)
    × CloseTo 255 100 6 5 c.s
    × Between 255 100 c.s
    × CloseTo 10 240 6 5 c.v
    × Between 10 240 c.v
fill_gradient-track_example =
    fill_gradient-track no_iter burning (record { h = 200; s = 255; v = 10 })
      (record { h = 10; s = 100; v = 240 }) grad_longest 6 5 refl refl (omega arith) (omega arith)
      (omega arith) (omega arith) (omega arith) (omega arith) (omega arith) (omega arith)

abbrev strip : Strip
strip = record {
  num_pixels = 8;
  loop_delay_ms = 20;
  initialized = 1;
  segments = burning ∷ [];
  num_segments = 1;
}

led_main_round-paint_all_example :
    led_main_round (λ leds. true) strip (replicate 8 dark)
    ≡ some (paint_all strip.segments (replicate 8 dark), if true then strip.loop_delay_ms else 1000)
led_main_round-paint_all_example =
    led_main_round-paint_all (λ leds. true) strip (replicate 8 dark)
      (burning-IsValid, omega arith, tt)

render_outside : render_segment burning (replicate 7 dark) ≡ none
render_outside = render_segment_overrun burning (replicate 7 dark) (omega arith) (omega arith)

abbrev malloc : ℕ → Buffers
malloc n = record {
  hsv_memory = some (replicate n aqua);
  rgb_memory = some (replicate n dark);
  work_memory = some (replicate n 0);
}

abbrev added : Segment
added = record burning {
  number = 1;
  use_rgb_pixels = false;
  rgb_pixels = replicate 6 dark;
  mode = Mode.static;
  work_buf = replicate 6 0;
}

abbrev longer : Strip
longer = record strip { initialized = 0; segments = burning ∷ added ∷ []; num_segments = 2 }

adds : add_segment malloc (ok 0) strip burning ≡ some (ok 0, longer, added)
unfolding add_segment prepared appended next_number
adds = refl

add_segment_again_example : add_segment malloc (ok 0) longer burning ≡ none
add_segment_again_example =
    add_segment_again malloc malloc (ok 0) (ok 0) (ok 0) strip longer burning added burning
      (buffers (replicate 6 aqua) (replicate 6 dark) (replicate 6 0) refl refl refl refl refl refl)
      (buffers (replicate 6 aqua) (replicate 6 dark) (replicate 6 0) refl refl refl refl refl refl)
      (omega arith) adds

init-IsValid_example :
    (ret : Ret) × (strip' : Strip) × (seg' : Segment) × (init true
        (ok 0)
        malloc
        (ok 0)
        strip
        burning
        8
        20
      ≡ some (ret, strip', seg'))
    × (strip'.segments ≡ seg' ∷ [])
    × IsValid seg'
    × (seg'.start_idx ≡ 0)
    × (seg'.num_pixels ≡ 8)
    × (strip'.num_pixels ≡ 8)
init-IsValid_example =
    init-IsValid malloc (ok 0) strip burning 8 20
      (buffers (replicate 8 aqua) (replicate 8 dark) (replicate 8 0) refl refl refl refl refl refl)
      (omega arith) (omega arith)
