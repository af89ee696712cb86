-- ===== src/Ws2812Led/Segment.antt =====
-- The segments of modules/WS2812Led: their data and the methods that set pixels. A write outside
-- the pixel array is the fault `none`. The list anchor, the task and the method pointers are left
-- out; `number` is set where a segment is added.
pub mod Fill
use zephyr_common.Common.{
  ℕ, zero, suc, ◌+◌, Bool, true, false, not, ◌&&◌, ◌||◌, List, Option, none, some, ltb, leb, ◌==◌,
  if◌then◌else◌, get_elem?,
}
use zephyr_common.Common.Memory.{poke}
use zephyr_common.Common.World.{
  World, Eff, pure, lift, ◌>>=◌, random, cycles, rate, for_range, for_eff,
}
use zephyr_common.Random.{random_u8}
use zephyr_common.SwTimer.{SwTimer, set_ms, test}
use zephyr_common.Ws2812Led.Colour.{Chsv, Crgb, fade_color}

-- `enum WS2812Led_State`
pub data State : Type 0 where
  seg_off seg_on : State

-- `enum Mode`
pub data Mode : Type 0 where
  static blink blend twinkle sparkle meteor dissolve fire : Mode

-- `WS2812Led_GradientIter`
pub record GradientIter : Type 0 where
  pub initialized : ℕ
  pub num_steps : ℕ
  pub step_idx : ℕ
  pub hue_start : ℕ
  pub sat_start : ℕ
  pub val_start : ℕ
  pub hue_accum : ℕ
  pub sat_accum : ℕ
  pub val_accum : ℕ
  pub hue_delta : ℕ
  pub sat_delta : ℕ
  pub val_delta : ℕ

-- `WS2812Led_Segment`
pub record Segment : Type 0 where
  pub number : ℕ
  pub start_idx : ℕ
  pub end_idx : ℕ
  pub num_pixels : ℕ
  pub use_rgb_pixels : Bool
  pub pixels : List Chsv
  pub rgb_pixels : List Crgb
  pub timer : SwTimer
  pub timer_period_ms : ℕ
  pub state : State
  pub mode : Mode
  pub work_buf : List ℕ
  pub grad_iter : GradientIter

abbrev pub hsv_off : Chsv
hsv_off = record { h = 0; s = 0; v = 0 }

abbrev pub rgb_off : Crgb
rgb_off = record { r = 0; g = 0; b = 0 }

-- Every pixel of the segment is given one value.
abbrev pub set_all : {A : Type 0} → ℕ → A → List A → Option (List A)
set_all n color ps = for_range n 0 (λ i ps. poke ps i color) ps

unfoldable pub fill_solid : Segment → Chsv → Option Segment
fill_solid seg color = elim (set_all seg.num_pixels color seg.pixels) [
  | none ↦ none
  | some ps ↦ some (record seg { pixels = ps; mode = static })
]

unfoldable pub fill_solid_rgb : Segment → Crgb → Option Segment
fill_solid_rgb seg color = elim (set_all seg.num_pixels color seg.rgb_pixels) [
  | none ↦ none
  | some ps ↦ some (record seg { rgb_pixels = ps; mode = static })
]

-- The test of `single`, `single_rgb` and `single_random`, which else only log an error.
abbrev pub in_range : Segment → ℕ → Bool
in_range seg idx = leb seg.start_idx idx && leb idx seg.end_idx

unfoldable pub single : Segment → Chsv → ℕ → Option Segment
single seg color idx =
    if not (in_range seg idx) then some seg else elim (poke seg.pixels idx color) [
      | none ↦ none
      | some ps ↦ some (record seg { pixels = ps; mode = static })
    ]

unfoldable pub single_rgb : Segment → Crgb → ℕ → Option Segment
single_rgb seg color idx =
    if not (in_range seg idx) then some seg else elim (poke seg.rgb_pixels idx color) [
      | none ↦ none
      | some ps ↦ some (record seg { rgb_pixels = ps; mode = static })
    ]

-- `GET_RANDOM_HUE(s, v)`
abbrev pub random_hue : ℕ → ℕ → Eff Chsv
random_hue s v = random_u8 >>= λ h. pure (record { h = h; s = s; v = v })

-- `GET_RANDOM_HSV()`
abbrev pub random_hsv : Eff Chsv
random_hsv =
    random_u8 >>= λ h. random_u8 >>= λ s. random_u8 >>= λ v. pure (record { h = h; s = s; v = v })

-- `GET_RANDOM_SATVAL(h)`
abbrev pub random_satval : ℕ → Eff Chsv
random_satval h = random_u8 >>= λ s. random_u8 >>= λ v. pure (record { h = h; s = s; v = v })

unfoldable pub single_random : Segment → ℕ → ℕ → ℕ → Eff Segment
single_random seg sat val idx =
    if not (in_range seg idx)
    then pure seg
    else random_hue sat val >>= λ c.
        lift (poke seg.pixels idx c) >>= λ ps. pure (record seg { pixels = ps; mode = static })

unfoldable pub fill_random : Segment → ℕ → ℕ → Eff Segment
fill_random seg sat val =
    for_eff seg.num_pixels 0 (λ i ps. random_hue sat val >>= λ c. lift (poke ps i c)) seg.pixels
    >>= λ ps. pure (record seg { pixels = ps; mode = static })

unfoldable pub show : Segment → Segment
show seg = record seg { state = seg_on }

unfoldable pub hide : Segment → Segment
hide seg = record seg { state = seg_off }

unfoldable pub off : Segment → Option Segment
unfolding fill_solid
off seg = fill_solid seg hsv_off

-- `is_seg_blank_rgb`: the pixels from `i` on, with `left` of them left.
unfoldable pub blank_from : ℕ → ℕ → List Crgb → Option Bool
blank_from zero i ps = some true
blank_from (suc left) i ps = elim (get_elem? ps i) [
  | none ↦ none
  | some pix ↦ elim (ltb 0 pix.r || (ltb 0 pix.g || ltb 0 pix.b)) [
    | true ↦ some false
    | false ↦ blank_from left (i + 1) ps
  ]
]

unfoldable pub is_seg_blank_rgb : Segment → Option Bool
unfolding blank_from
is_seg_blank_rgb seg = blank_from seg.num_pixels 0 seg.rgb_pixels

unfoldable pub fade_pixel : List Crgb → ℕ → ℕ → Option (List Crgb)
unfolding fade_color
fade_pixel ps idx factor = elim (get_elem? ps idx) [
  | none ↦ none
  | some pix ↦ poke ps idx (fade_color pix factor)
]

-- `SwTimer_setMs(&seg->timer, ms)`
abbrev pub set_timer : Segment → ℕ → Eff Segment
set_timer seg ms =
    cycles >>= λ now. rate >>= λ hz. pure (record seg { timer = set_ms hz seg.timer now ms })

-- `SwTimer_test(&seg->timer)`
abbrev pub test_timer : Segment → Eff (Bool × Segment)
test_timer seg = cycles >>= λ now.
    let tested = test seg.timer now in pure (tested.0, record seg { timer = tested.1 })
