-- ===== src/Ws2812Led/Strip/Add.antt =====
-- Adding segments to a strip.
use zephyr_common.Common.{
  ℕ, zero, suc, ◌+◌, ◌≤◌, ◌<◌, ◌^◌, ◌≡◌, refl, sym, ap, ◌∙◌, subst, inl, inr, ◌⊎◌, true, List, [],
  ◌∷◌, ◌++◌, Option, none, some, arith, length, u16, Ret, ok, err,
}
use zephyr_common.Ws2812Led.Colour.{Chsv, Crgb}
use zephyr_common.Ws2812Led.Segment.{Segment}
use zephyr_common.Ws2812Led.Effects.Pass.{IsValid}
use zephyr_common.Ws2812Led.Strip.{
  Strip, Buffers, add_segment, prepared, appended, init, led_main_start, pixel_count,
}

-- The memory is there: what `malloc` returns are buffers of the size asked for.
pub data Allocated (n : ℕ) (mem : Buffers) : Type 0 where
  buffers :
      (hsv : List Chsv) (rgb : List Crgb) (work : List ℕ)
      → mem.hsv_memory ≡ some hsv
      → mem.rgb_memory ≡ some rgb
      → mem.work_memory ≡ some work
      → length hsv ≡ n
      → length rgb ≡ n
      → length work ≡ n
      → Allocated n mem

prepared-IsValid :
    (strip : Strip) (segment : Segment) (hsv : List Chsv) (rgb : List Crgb) (work : List ℕ)
    → length hsv ≡ pixel_count segment
    → length rgb ≡ pixel_count segment
    → length work ≡ pixel_count segment
    → 1 ≤ pixel_count segment
    → IsValid (prepared strip segment hsv rgb work)
unfolding prepared
prepared-IsValid strip segment hsv rgb work h r w one = record {
  sized = record { count = refl; hsv = h; rgb = r; work = w };
  enough = one;
  small = omega arith;
}

-- The call that has memory and the semaphore.
add_segment_done :
    (malloc : ℕ → Buffers) (task : Ret) (strip : Strip) (segment : Segment)
    → Allocated (pixel_count segment) (malloc (pixel_count segment))
    → strip.initialized ≡ 1
    → (hsv : List Chsv) × (rgb : List Crgb) × (work : List ℕ) × (length hsv ≡ pixel_count segment)
      × (length rgb ≡ pixel_count segment)
      × (length work ≡ pixel_count segment)
      × (add_segment malloc task strip segment
          ≡ some (
            task,
            appended strip 0 (prepared strip segment hsv rgb work),
            prepared strip segment hsv rgb work,
          ))
unfolding add_segment
add_segment_done malloc task strip segment (buffers hsv rgb work h r w lh lr lw) given =
    (hsv, rgb, work, lh, lr, lw, rw (add_segment, h, r, w, given) refl)

-- `WS2812Led_addSegment` with memory and with the semaphore given adds a valid segment of the
-- pixels from `startIdx` to `endIdx` at the end of the list, takes the semaphore, and returns what
-- the creation of the task does.
pub add_segment-IsValid :
    (malloc : ℕ → Buffers) (task : Ret) (strip : Strip) (segment : Segment)
    → Allocated (pixel_count segment) (malloc (pixel_count segment))
    → strip.initialized ≡ 1
    → segment.start_idx ≤ segment.end_idx
    → segment.end_idx + 1 < segment.start_idx + 2 ^ 16
    → (strip' : Strip) × (segment' : Segment) × (add_segment malloc task strip segment
        ≡ some (task, strip', segment'))
      × IsValid segment'
      × (segment'.num_pixels + segment.start_idx ≡ segment.end_idx + 1)
      × (strip'.segments ≡ strip.segments ++ segment' ∷ [])
      × (strip'.initialized ≡ 0)
unfolding prepared appended
add_segment-IsValid malloc task strip segment mem given order small =
    let (hsv, rgb, work, lh, lr, lw, e) = add_segment_done malloc task strip segment mem given in
    let segment' = prepared strip segment hsv rgb work in
    (
      appended strip 0 segment',
      segment',
      e,
      prepared-IsValid strip segment hsv rgb work lh lr lw (omega arith),
      omega arith,
      refl,
      refl,
    )

add_segment_blocks :
    (malloc : ℕ → Buffers) (task : Ret) (strip : Strip) (segment : Segment)
    → Allocated (pixel_count segment) (malloc (pixel_count segment))
    → strip.initialized ≡ 0
    → add_segment malloc task strip segment ≡ none
unfolding add_segment
add_segment_blocks malloc task strip segment (buffers hsv rgb work h r w lh lr lw) taken =
    rw (add_segment, h, r, w, taken) refl

add_segment_takes :
    (malloc : ℕ → Buffers) (task ret : Ret) (strip strip' : Strip) (segment segment' : Segment)
    → Allocated (pixel_count segment) (malloc (pixel_count segment))
    → strip.initialized ≡ 1
    → add_segment malloc task strip segment ≡ some (ret, strip', segment')
    → strip'.initialized ≡ 0
unfolding appended
add_segment_takes malloc task ret strip strip' segment segment' mem given done =
    let (hsv, rgb, work, lh, lr, lw, e) = add_segment_done malloc task strip segment mem given in
    ap
      (λ (o : Option (Ret × Strip × Segment)). elim o as (λ k. ℕ) [
        | none ↦ 0
        | some (ret, s, g) ↦ s.initialized
      ])
      (sym done ∙ e)

at_most_one : (n : ℕ) → n ≤ 1 → (n ≡ 0) ⊎ (n ≡ 1)
at_most_one zero h = inl refl
at_most_one (suc zero) h = inr refl
at_most_one (suc (suc n)) h = absurd (omega arith)

-- A second segment is never added: where the memory is there, a call of `WS2812Led_addSegment` on
-- the strip that a first call left waits for the semaphore forever, since only the start of the
-- strip's task gives it, once.
pub add_segment_again :
    (malloc malloc' : ℕ → Buffers) (task task' ret : Ret) (strip strip' : Strip)
    (segment segment' second : Segment)
    → Allocated (pixel_count segment) (malloc (pixel_count segment))
    → Allocated (pixel_count second) (malloc' (pixel_count second))
    → strip.initialized ≤ 1
    → add_segment malloc task strip segment ≡ some (ret, strip', segment')
    → add_segment malloc' task' strip' second ≡ none
add_segment_again malloc malloc' task task' ret strip strip' segment segment' second mem mem' limit
      done =
    elim (at_most_one strip.initialized limit) [
      | inl taken ↦ let never = add_segment_blocks malloc task strip segment mem taken in cc
      | inr given ↦
          add_segment_blocks malloc' task' strip' second mem'
            (add_segment_takes malloc task ret strip strip' segment segment' mem given done)
    ]

-- `WS2812Led_init` after `WS2812Led_addSegment` has returned.
init_returns :
    (task : Ret) (added : Option (Ret × Strip × Segment)) (strip : Strip) (segment : Segment)
    → added ≡ some (task, strip, segment)
    → (elim added as (λ o. Option (Ret × Strip × Segment)) [
      | none ↦ none
      | some (err e, strip', segment') ↦ some (err e, strip', segment')
      | some (ok m, strip', segment') ↦ some (ok 0, strip', segment')
    ])
      ≡ some (elim task as (λ t. Ret) [ ok m ↦ ok 0 | err e ↦ err e ], strip, segment)
init_returns (ok m) added strip segment e = rw e refl
init_returns (err c) added strip segment e = rw e refl

-- `WS2812Led_init` with the device ready, its task created, memory, and 1 to 65535 pixels returns,
-- with a strip of one valid segment of all its pixels.
pub init-IsValid :
    (malloc : ℕ → Buffers) (task : Ret) (strip : Strip) (seg : Segment) (num_pixels delay_ms : ℕ)
    → Allocated num_pixels (malloc num_pixels)
    → 1 ≤ num_pixels
    → num_pixels < 2 ^ 16
    → (ret : Ret) × (strip' : Strip) × (seg' : Segment) × (init true
          (ok 0)
          malloc
          task
          strip
          seg
          num_pixels
          delay_ms
        ≡ some (ret, strip', seg'))
      × (strip'.segments ≡ seg' ∷ [])
      × IsValid seg'
      × (seg'.start_idx ≡ 0)
      × (seg'.num_pixels ≡ num_pixels)
      × (strip'.num_pixels ≡ num_pixels)
unfolding init led_main_start prepared appended
init-IsValid malloc task strip seg num_pixels delay_ms mem one small =
    let strip1 : Strip = record strip { num_pixels = num_pixels; loop_delay_ms = delay_ms } in
    let started = (led_main_start true strip1).0 in
    let seg1 : Segment = record seg { start_idx = 0; end_idx = u16 (num_pixels + 0xffff) } in
    let size : pixel_count seg1 ≡ num_pixels = omega arith in
    let mem1 = subst (λ n. Allocated n (malloc n)) (sym size) mem in
    let (hsv, rgb, work, lh, lr, lw, e) = add_segment_done malloc task started seg1 mem1 refl in
    let new = prepared started seg1 hsv rgb work in
    (
      elim task as (λ t. Ret) [ ok m ↦ ok 0 | err e ↦ err e ],
      appended started 0 new,
      new,
      init_returns task (add_segment malloc task started seg1) (appended started 0 new) new e,
      refl,
      prepared-IsValid started seg1 hsv rgb work lh lr lw (omega arith),
      refl,
      size,
      refl,
    )
