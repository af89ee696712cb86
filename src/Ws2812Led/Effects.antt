-- ===== src/Ws2812Led/Effects.antt =====
-- The timed effects of modules/WS2812Led and the loop of a segment's task. The `static` variables
-- of the effects are one record, which all segments share. Each effect is a part for the flag
-- `init`, a part for a step of the timer, and the method that joins them. The counters are `int`s
-- that do not overflow, and the color of `sparkle` is read where its pointer is stored.
pub mod Valid
pub mod Pixels
pub mod Timed
pub mod Fire
pub mod Pass
use zephyr_common.Common.{
  ℕ, zero, suc, ◌+◌, ◌-◌, ◌*◌, ◌/◌, Bool, true, false, not, ◌||◌, List, Option, none, some, ltb,
  leb, ◌==◌, if◌then◌else◌, get_elem?,
}
use zephyr_common.Common.Memory.{poke}
use zephyr_common.Common.World.{
  World, Eff, pure, lift, ◌>>=◌, random, cycles, rate, for_range, for_eff,
}
use zephyr_common.Random.{random_u8, random_uint, random_u8_range, scale_uint}
use zephyr_common.SwTimer.{SwTimer, set_ms, test}
use zephyr_common.SwTimer
use zephyr_common.Ws2812Led.Colour.{Chsv, Crgb, sub_safe, add8_safe, get_heatcolor, hsv2rgb}
use zephyr_common.Ws2812Led.Segment.{
  Segment, State, seg_off, seg_on, Mode, hsv_off, rgb_off, set_all, fill_solid, fill_solid_rgb,
  random_hsv, random_satval, is_seg_blank_rgb, fade_pixel, set_timer, test_timer,
}
use zephyr_common.Ws2812Led.Gradient.{blend_pass}

-- The `static` variables of `twinkle`, and of the others below it.
pub record TwinkleStatics : Type 0 where
  pub num : ℕ
  pub count : ℕ

pub record SparkleStatics : Type 0 where
  pub color : Option Chsv
  pub num : ℕ

pub record FireStatics : Type 0 where
  pub cool : ℕ
  pub spark : ℕ

pub record DissolveStatics : Type 0 where
  pub color : Crgb
  pub decay : ℕ
  pub prob : ℕ

pub record MeteorStatics : Type 0 where
  pub color : Crgb
  pub msize : ℕ
  pub mdecay : ℕ
  pub decayrandom : Bool
  pub count : ℕ

-- All of them.
pub record Statics : Type 0 where
  pub of_twinkle : TwinkleStatics
  pub of_sparkle : SparkleStatics
  pub of_fire : FireStatics
  pub of_dissolve : DissolveStatics
  pub of_meteor : MeteorStatics

-- What an effect does at a step of the segment's timer, which it starts again.
abbrev pub on_timer :
    (Segment → Statics → Eff (Segment × Statics))
    → Mode
    → Segment
    → Statics
    → Eff (Segment × Statics)
on_timer step mode seg st = test_timer seg >>= λ t. elim (t.0) [
  | false ↦ pure (record t.1 { mode = mode }, st)
  | true ↦ set_timer t.1 t.1.timer_period_ms >>= λ seg.
      step seg st >>= λ r. pure (record r.0 { mode = mode }, r.1)
]

abbrev pub when_init : Bool → Eff (Segment × Statics) → Segment → Statics → Eff (Segment × Statics)
when_init true start seg st = start
when_init false start seg st = pure (seg, st)

-- What the effects do first where `init` is set.
abbrev pub begin : Segment → Bool → ℕ → Segment
begin seg use_rgb delay_ms = record seg { timer_period_ms = delay_ms; use_rgb_pixels = use_rgb }

unfoldable pub twinkle_start : Segment → Statics → ℕ → ℕ → Eff (Segment × Statics)
unfolding fill_solid
twinkle_start seg st num_to_light delay_ms =
    set_timer (begin seg false delay_ms) delay_ms >>= λ seg.
    lift (fill_solid seg hsv_off) >>= λ seg.
    pure (seg, record st { of_twinkle = record { num = num_to_light; count = 0 } })

unfoldable pub twinkle_step : Segment → Statics → Eff (Segment × Statics)
unfolding fill_solid
twinkle_step seg st = random_uint 0x1_0000 seg.num_pixels >>= λ idx. random_hsv >>= λ c.
    lift (poke seg.pixels idx c) >>= λ ps. elim (st.of_twinkle.count + 1 == st.of_twinkle.num) [
      | false ↦ pure (
        record seg { pixels = ps },
        record st { of_twinkle = record st.of_twinkle { count = st.of_twinkle.count + 1 } },
      )
      | true ↦ lift (fill_solid (record seg { pixels = ps }) hsv_off) >>= λ seg.
          pure (seg, record st { of_twinkle = record st.of_twinkle { count = 0 } })
    ]

unfoldable pub twinkle : Bool → ℕ → ℕ → Segment → Statics → Eff (Segment × Statics)
unfolding twinkle_start twinkle_step
twinkle init num_to_light delay_ms seg st =
    when_init init (twinkle_start seg st num_to_light delay_ms) seg st >>= λ r.
    on_timer twinkle_step Mode.twinkle r.0 r.1

unfoldable pub sparkle_start : Segment → Statics → Option Chsv → ℕ → ℕ → Eff (Segment × Statics)
unfolding fill_solid
sparkle_start seg st color num_to_light delay_ms =
    set_timer (begin seg false delay_ms) delay_ms >>= λ seg.
    lift (fill_solid seg hsv_off) >>= λ seg.
    pure (seg, record st { of_sparkle = record { color = color; num = num_to_light } })

-- The body of the loop of `sparkle`.
unfoldable pub sparkle_pixel : ℕ → Option Chsv → ℕ → List Chsv → Eff (List Chsv)
sparkle_pixel num_pixels color i ps = random_uint 0x1_0000 num_pixels >>= λ idx.
    (elim color [ some c ↦ random_satval c.h | none ↦ random_hsv ]) >>= λ c. lift (poke ps idx c)

unfoldable pub sparkle_step : Segment → Statics → Eff (Segment × Statics)
unfolding fill_solid sparkle_pixel
sparkle_step seg st = lift (fill_solid seg hsv_off) >>= λ seg.
    for_eff st.of_sparkle.num 0 (sparkle_pixel seg.num_pixels st.of_sparkle.color) seg.pixels
    >>= λ ps. pure (record seg { pixels = ps }, st)

unfoldable pub sparkle : Bool → Option Chsv → ℕ → ℕ → Segment → Statics → Eff (Segment × Statics)
unfolding sparkle_start sparkle_step
sparkle init color num_to_light delay_ms seg st =
    when_init init (sparkle_start seg st color num_to_light delay_ms) seg st >>= λ r.
    on_timer sparkle_step Mode.sparkle r.0 r.1

unfoldable pub fire_start : Segment → Statics → ℕ → ℕ → ℕ → Eff (Segment × Statics)
unfolding fill_solid_rgb
fire_start seg st cooling sparking delay_ms =
    set_timer (begin seg true delay_ms) delay_ms >>= λ seg.
    lift (set_all seg.num_pixels 0 seg.work_buf) >>= λ heat.
    lift (fill_solid_rgb (record seg { work_buf = heat }) rgb_off) >>= λ seg.
    pure (seg, record st { of_fire = record { cool = cooling; spark = sparking } })

-- Cools a cell: `heat[i] = SUB_SAFE(heat[i], randu8)`.
unfoldable pub fire_cool : ℕ → ℕ → ℕ → List ℕ → Eff (List ℕ)
unfolding sub_safe
fire_cool cool num_pixels i heat = random_uint 0x100 (cool * 10 / num_pixels + 2) >>= λ randu8.
    lift (get_elem? heat i) >>= λ h. lift (poke heat i (sub_safe h randu8))

-- Heat drifts up: round `k` is that of the cell numPixels - 1 - k.
unfoldable pub fire_drift : ℕ → ℕ → List ℕ → Option (List ℕ)
fire_drift num_pixels k heat =
    let i = num_pixels - 1 - k in
    elim (get_elem? heat (i - 1)) [
      | none ↦ none
      | some a ↦ elim (get_elem? heat (i - 2)) [
        | none ↦ none
        | some b ↦ poke heat i ((a + b + b) / 3)
      ]
    ]

-- Ignites a spark.
unfoldable pub fire_ignite : ℕ → List ℕ → Eff (List ℕ)
unfolding add8_safe
fire_ignite spark heat = random_u8 >>= λ r. elim (ltb r spark) [
  | false ↦ pure heat
  | true ↦ random_uint 0x100 7 >>= λ randu8. random_u8_range 160 255 >>= λ randrange.
      lift (get_elem? heat randu8) >>= λ h. lift (poke heat randu8 (add8_safe h randrange))
]

-- `rgb_pixels[i] = color` for the heat of the cell.
unfoldable pub fire_map : List ℕ → ℕ → List Crgb → Option (List Crgb)
unfolding get_heatcolor
fire_map heat i ps = elim (get_elem? heat i) [ none ↦ none | some h ↦ poke ps i (get_heatcolor h) ]

unfoldable pub fire_step : Segment → Statics → Eff (Segment × Statics)
unfolding fire_cool fire_drift fire_ignite fire_map
fire_step seg st =
    for_eff seg.num_pixels 0 (fire_cool st.of_fire.cool seg.num_pixels) seg.work_buf >>= λ heat.
    lift (for_range (seg.num_pixels - 2) 0 (fire_drift seg.num_pixels) heat) >>= λ heat.
    fire_ignite st.of_fire.spark heat >>= λ heat.
    lift (for_range seg.num_pixels 0 (fire_map heat) seg.rgb_pixels) >>= λ ps.
    pure (record seg { work_buf = heat; rgb_pixels = ps }, st)

unfoldable pub fire : Bool → ℕ → ℕ → ℕ → Segment → Statics → Eff (Segment × Statics)
unfolding fire_start fire_step
fire init cooling sparking delay_ms seg st =
    when_init init (fire_start seg st cooling sparking delay_ms) seg st >>= λ r.
    on_timer fire_step Mode.fire r.0 r.1

unfoldable pub dissolve_start : Segment → Statics → Chsv → ℕ → ℕ → ℕ → Eff (Segment × Statics)
unfolding fill_solid_rgb hsv2rgb
dissolve_start seg st color decay_factor decay_prob delay_ms =
    let c = hsv2rgb color in
    set_timer (begin seg true delay_ms) delay_ms >>= λ seg.
    lift (fill_solid_rgb seg rgb_off) >>= λ seg.
    lift (set_all seg.num_pixels c seg.rgb_pixels) >>= λ ps. pure (
      record seg { rgb_pixels = ps },
      record st {
        of_dissolve = record {
          color = c;
          decay = decay_factor;
          prob = if ltb 100 decay_prob then 100 else decay_prob;
        };
      },
    )

-- The body of the loop of `dissolve`.
unfoldable pub dissolve_pixel : ℕ → ℕ → ℕ → List Crgb → Eff (List Crgb)
unfolding fade_pixel
dissolve_pixel prob decay j ps = random_uint 0x100 100 >>= λ r. elim (ltb (100 - prob) r) [
  | true ↦ lift (fade_pixel ps j decay)
  | false ↦ pure ps
]

unfoldable pub dissolve_step : Segment → Statics → Eff (Segment × Statics)
unfolding dissolve_pixel is_seg_blank_rgb
dissolve_step seg st =
    for_eff seg.num_pixels 0 (dissolve_pixel st.of_dissolve.prob st.of_dissolve.decay)
      seg.rgb_pixels
    >>= λ ps. lift (is_seg_blank_rgb (record seg { rgb_pixels = ps })) >>= λ blank. elim blank [
      | false ↦ pure (record seg { rgb_pixels = ps }, st)
      | true ↦ lift (set_all seg.num_pixels st.of_dissolve.color ps) >>= λ ps.
          pure (record seg { rgb_pixels = ps }, st)
    ]

unfoldable pub dissolve : Bool → Chsv → ℕ → ℕ → ℕ → Segment → Statics → Eff (Segment × Statics)
unfolding dissolve_start dissolve_step
dissolve init color decay_factor decay_prob delay_ms seg st =
    when_init init (dissolve_start seg st color decay_factor decay_prob delay_ms) seg st >>= λ r.
    on_timer dissolve_step Mode.dissolve r.0 r.1

unfoldable pub meteor_start : Segment → Statics → Chsv → ℕ → ℕ → Bool → ℕ → Eff (Segment × Statics)
unfolding fill_solid_rgb hsv2rgb
meteor_start seg st color meteor_size meteor_decay decay_random delay_ms =
    set_timer (begin seg true delay_ms) delay_ms >>= λ seg.
    lift (fill_solid_rgb seg rgb_off) >>= λ seg. pure (
      seg,
      record st {
        of_meteor = record {
          color = hsv2rgb color;
          msize = meteor_size;
          mdecay = meteor_decay;
          decayrandom = decay_random;
          count = 0;
        };
      },
    )

-- The body of the first loop of `meteor`, which draws a number only if the decay is random.
unfoldable pub meteor_fade : Bool → ℕ → ℕ → List Crgb → Eff (List Crgb)
unfolding fade_pixel
meteor_fade decayrandom mdecay j ps = elim decayrandom [
  | false ↦ lift (fade_pixel ps j mdecay)
  | true ↦ random_uint 0x100 100 >>= λ r. elim (ltb 60 r) [
    | true ↦ lift (fade_pixel ps j mdecay)
    | false ↦ pure ps
  ]
]

-- The body of the second loop: the pixel `count - j`, if there is one.
unfoldable pub meteor_draw : ℕ → Crgb → ℕ → ℕ → List Crgb → Option (List Crgb)
meteor_draw num_pixels c count j ps = elim (ltb count j) [
  | true ↦ some ps
  | false ↦ elim (ltb (count - j) num_pixels) [ true ↦ poke ps (count - j) c | false ↦ some ps ]
]

unfoldable pub meteor_step : Segment → Statics → Eff (Segment × Statics)
unfolding meteor_fade meteor_draw
meteor_step seg st =
    for_eff seg.num_pixels 0 (meteor_fade st.of_meteor.decayrandom st.of_meteor.mdecay)
      seg.rgb_pixels
    >>= λ ps.
        lift (
          for_range st.of_meteor.msize 0
            (meteor_draw seg.num_pixels st.of_meteor.color st.of_meteor.count) ps)
        >>= λ ps. pure (
          record seg { rgb_pixels = ps },
          record st {
            of_meteor = record st.of_meteor {
              count =
                  if st.of_meteor.count + 1 == 2 * seg.num_pixels
                  then 0
                  else st.of_meteor.count + 1;
            };
          },
        )

unfoldable pub meteor : Bool → Chsv → ℕ → ℕ → Bool → ℕ → Segment → Statics → Eff (Segment × Statics)
unfolding meteor_start meteor_step
meteor init color meteor_size meteor_decay decay_random delay_ms seg st =
    when_init init (meteor_start seg st color meteor_size meteor_decay decay_random delay_ms) seg st
    >>= λ r. on_timer meteor_step Mode.meteor r.0 r.1

-- `(seg->state == SEG_ON) ? SEG_OFF : SEG_ON`
abbrev pub toggle : State → State
toggle seg_on = seg_off
toggle seg_off = seg_on

unfoldable pub blink : ℕ → Segment → Eff Segment
blink period_ms seg =
    let seg' : Segment = record seg { timer_period_ms = period_ms } in
    (elim (seg'.timer.state) [
      | SwTimer.State.running ↦ test_timer seg' >>= λ t. elim (t.0) [
        | false ↦ pure t.1
        | true ↦ set_timer (record t.1 { state = toggle t.1.state }) (t.1.timer_period_ms / 2)
      ]
      | SwTimer.State.idle ↦ set_timer seg' period_ms
      | SwTimer.State.expired ↦ set_timer seg' period_ms
    ])
    >>= λ seg. pure (record seg { mode = Mode.blink })

-- The `switch` of `segment_loop`.
unfoldable pub mode_pass : Mode → Segment → Statics → Eff (Segment × Statics)
unfolding blink blend_pass twinkle sparkle meteor dissolve fire
mode_pass Mode.static seg st = pure (seg, st)
mode_pass Mode.blink seg st = blink seg.timer_period_ms seg >>= λ seg. pure (seg, st)
mode_pass Mode.blend seg st = blend_pass seg >>= λ seg. pure (seg, st)
mode_pass Mode.twinkle seg st = twinkle false 0 0 seg st
mode_pass Mode.sparkle seg st = sparkle false none 0 0 seg st
mode_pass Mode.meteor seg st = meteor false hsv_off 0 0 false 0 seg st
mode_pass Mode.dissolve seg st = dissolve false hsv_off 0 0 0 seg st
mode_pass Mode.fire seg st = fire false 0 0 0 seg st

-- A round of the loop of `segment_loop`, up to its sleep.
unfoldable pub segment_pass : Segment → Statics → Eff (Segment × Statics)
unfolding mode_pass
segment_pass seg st = mode_pass seg.mode seg st
