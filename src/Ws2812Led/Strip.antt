-- ===== src/Ws2812Led/Strip.antt =====
-- The strip of modules/WS2812Led: the task that shows the segments, and how segments are added. The
-- list of segments is a list, the last added at its end. Memory is what `malloc` returns, `none`
-- where it fails; the results of the kernel's calls are parameters.
pub mod Render
pub mod Paint
pub mod Add
use zephyr_common.Common.{
  ℕ, zero, suc, ◌+◌, ◌-◌, Bool, true, false, not, List, [], ◌∷◌, ◌++◌, Option, none, some, ◌==◌,
  if◌then◌else◌, u16, Errno, enomem, einval, enodev, Ret, ok, err, get_elem?, map, replicate,
}
use zephyr_common.Common.Memory.{poke}
use zephyr_common.Common.World.{for_range}
use zephyr_common.Ws2812Led.Colour.{Chsv, Crgb, hsv2rgb}
use zephyr_common.Ws2812Led.Segment.{
  Segment, State, seg_off, seg_on, Mode, static, show, rgb_off, hsv_off,
}

-- `WS2812Led_Strip`, with the count of its semaphore, whose limit is 1.
pub record Strip : Type 0 where
  pub num_pixels : ℕ
  pub loop_delay_ms : ℕ
  pub initialized : ℕ
  pub segments : List Segment
  pub num_segments : ℕ

-- The body of the inner loop of `led_main`: the light of pixel `k` of the segment.
unfoldable pub render_pixel : Segment → ℕ → List Crgb → Option (List Crgb)
unfolding hsv2rgb
render_pixel segment k leds = elim (segment.state) [
  | seg_off ↦ poke leds (k + segment.start_idx) rgb_off
  | seg_on ↦ elim (segment.use_rgb_pixels) [
    | true ↦ elim (get_elem? segment.rgb_pixels k) [
      | none ↦ none
      | some rgb ↦ poke leds (k + segment.start_idx) rgb
    ]
    | false ↦ elim (get_elem? segment.pixels k) [
      | none ↦ none
      | some hsv ↦ poke leds (k + segment.start_idx) (hsv2rgb hsv)
    ]
  ]
]

unfoldable pub render_segment : Segment → List Crgb → Option (List Crgb)
unfolding render_pixel
render_segment segment leds = for_range segment.num_pixels 0 (render_pixel segment) leds

-- The loop over the segments.
unfoldable pub render : List Segment → List Crgb → Option (List Crgb)
unfolding render_segment
render [] leds = some leds
render (segment ∷ segments) leds = elim (render_segment segment leds) [
  | none ↦ none
  | some leds' ↦ render segments leds'
]

-- `led_main` before its loop: the list is initialized, the semaphore given, and the lights are
-- dark. Without memory for them the task ends.
unfoldable pub led_main_start : Bool → Strip → Strip × Option (List Crgb)
led_main_start malloc strip = (
  record strip { segments = []; initialized = 1 },
  if malloc then some (replicate strip.num_pixels rgb_off) else none,
)

-- A round of the loop of `led_main`: the lights, and the time that the task sleeps then.
unfoldable pub led_main_round : (List Crgb → Bool) → Strip → List Crgb → Option (List Crgb × ℕ)
unfolding render
led_main_round update strip leds = elim (render strip.segments leds) [
  | none ↦ none
  | some leds' ↦ some (leds', if not (update leds') then 1000 else strip.loop_delay_ms)
]

-- `WS2812Led_single_update`: the driver's result is passed on.
unfoldable pub single_update : (List Crgb → Ret) → Chsv → Ret
unfolding hsv2rgb
single_update update hsv = elim (update (hsv2rgb hsv ∷ [])) [
  | err e ↦ err e
  | ok n ↦ if not (n == 0) then ok n else ok 0
]

unfoldable pub single_off : (List Crgb → Ret) → Ret
unfolding single_update
single_off update = single_update update hsv_off

-- `CList_tail`
abbrev pub tail : List Segment → Option Segment
tail [] = none
tail (s ∷ []) = some s
tail (s ∷ t ∷ ss) = tail (t ∷ ss)

-- The number that a segment gets: one more than that of the last one, or 0.
unfoldable pub next_number : List Segment → ℕ
next_number segments = elim (tail segments) [ none ↦ 0 | some last ↦ u16 (last.number + 1) ]

-- The three buffers of a segment, in the order of their allocation.
pub record Buffers : Type 0 where
  pub hsv_memory : Option (List Chsv)
  pub rgb_memory : Option (List Crgb)
  pub work_memory : Option (List ℕ)

-- `(segment->endIdx - segment->startIdx) + 1`
abbrev pub pixel_count : Segment → ℕ
pixel_count segment = u16 (segment.end_idx + 0x1_0000 - segment.start_idx + 1)

-- The segment with its buffers, and the strip with the segment at the end of its list and the
-- semaphore taken.
unfoldable pub prepared : Strip → Segment → List Chsv → List Crgb → List ℕ → Segment
unfolding next_number
prepared strip segment hsv rgb work = record segment {
  pixels = hsv;
  rgb_pixels = rgb;
  work_buf = work;
  mode = static;
  num_pixels = pixel_count segment;
  use_rgb_pixels = false;
  grad_iter = record segment.grad_iter { initialized = 0 };
  number = next_number strip.segments;
}

unfoldable pub appended : Strip → ℕ → Segment → Strip
appended strip count segment = record strip {
  initialized = count;
  segments = strip.segments ++ segment ∷ [];
  num_segments = u16 (strip.num_segments + 1);
}

-- `WS2812Led_addSegment`; `none` says that the call waits for the semaphore and does not return.
unfoldable pub add_segment : (ℕ → Buffers) → Ret → Strip → Segment → Option (Ret × Strip × Segment)
unfolding prepared appended
add_segment malloc task strip segment =
    let mem = malloc (pixel_count segment) in
    elim (mem.hsv_memory) [
      | none ↦ some (err enomem, strip, segment)
      | some hsv ↦ elim (mem.rgb_memory) [
        | none ↦ some (err enomem, strip, record segment { pixels = hsv })
        | some rgb ↦ elim (mem.work_memory) [
          | none ↦ some (err enomem, strip, record segment { pixels = hsv; rgb_pixels = rgb })
          | some work ↦ elim (strip.initialized) [
            | zero ↦ none
            | suc count ↦
                let segment' = prepared strip segment hsv rgb work in
                some (task, appended strip count segment', segment')
          ]
        ]
      ]
    ]

unfoldable pub show_all : Strip → Strip
unfolding show
show_all strip = record strip { segments = map show strip.segments }

-- `WS2812Led_init_strip`, up to the start of `led_main`.
unfoldable pub init_strip : Bool → Ret → Strip → Ret × Strip
init_strip ready task strip =
    if not ready then (err enodev, strip) else (task, record strip { initialized = 0 })

-- `WS2812Led_init`. The task that it creates runs `led_main` up to the semaphore, which
-- `WS2812Led_addSegment` waits for.
unfoldable pub init :
    Bool → Ret → (ℕ → Buffers) → Ret → Strip → Segment → ℕ → ℕ → Option (Ret × Strip × Segment)
unfolding led_main_start add_segment
init ready strip_task malloc seg_task strip seg num_pixels task_loop_ms =
    let strip' : Strip = record strip { num_pixels = num_pixels; loop_delay_ms = task_loop_ms } in
    let seg' : Segment = record seg { start_idx = 0; end_idx = u16 (num_pixels + 0xffff) } in
    if not ready then some (err enodev, strip', seg') else elim strip_task [
      | err e ↦ some (err e, record strip' { initialized = 0 }, seg')
      | ok n ↦
          if not (n == 0)
          then some (ok n, record strip' { initialized = 0 }, seg')
          else elim (add_segment malloc seg_task (led_main_start true strip').0 seg') [
            | none ↦ none
            | some (err e, strip'', seg'') ↦ some (err e, strip'', seg'')
            | some (ok m, strip'', seg'') ↦ some (ok 0, strip'', seg'')
          ]
    ]
