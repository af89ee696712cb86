-- ===== src/Ws2812Led/Effects/Pass.antt =====
-- A round of a segment's task keeps the segment valid and stays inside its buffers.
use zephyr_common.Common.{ℕ, ◌≤◌, ◌<◌, ◌^◌, ◌≡◌, refl, ◌∙◌, true, false, arith, some, ◌/◌}
use zephyr_common.Common.World.{
  World, Eff, pure, ◌>>=◌, Safe, Safe-bind, Safe-lift, Safe-pure, Safe-cases,
}
use zephyr_common.SwTimer
use zephyr_common.SwTimer.{test, set_ms}
use zephyr_common.Ws2812Led.Segment.{Segment, Mode, set_timer, test_timer}
use zephyr_common.Ws2812Led.Gradient.{blend_pass}
use zephyr_common.Ws2812Led.Effects.{
  Statics, blink, toggle, twinkle, sparkle, meteor, dissolve, fire, mode_pass, segment_pass,
  twinkle_step, sparkle_step, meteor_step, dissolve_step, fire_step,
}
use zephyr_common.Ws2812Led.Effects.Valid.{Sized, set_timer-Safe, test_timer-Safe, on_timer-Safe}
use zephyr_common.Ws2812Led.Effects.Pixels.{twinkle_step-Safe, sparkle_step-Safe}
use zephyr_common.Ws2812Led.Effects.Timed.{
  meteor_step-Safe, dissolve_step-Safe, blend_step-Ensures, Blends,
}
use zephyr_common.Ws2812Led.Effects.Fire.{fire_step-Safe}

-- How many pixels an effect needs.
abbrev pub least : Mode → ℕ
least Mode.fire = 6
least Mode.static = 1
least Mode.blink = 1
least Mode.blend = 1
least Mode.twinkle = 1
least Mode.sparkle = 1
least Mode.meteor = 1
least Mode.dissolve = 1

-- A segment whose buffers have as many cells as it has pixels, enough for its effect.
pub record IsValid (seg : Segment) : Type 0 where
  pub sized : Sized seg.num_pixels seg
  pub enough : least seg.mode ≤ seg.num_pixels
  pub small : seg.num_pixels < 2 ^ 16

-- The round leaves a valid segment of the same size.
abbrev pub Keeps : ℕ → Segment × Statics → Type 0
Keeps n r = IsValid r.0 × (r.0.num_pixels ≡ n)

abbrev Moded : ℕ → Mode → Segment × Statics → Type 0
Moded n mode r = Sized n r.0 × (r.0.mode ≡ mode)

valid_of_sized :
    (n : ℕ) (seg : Segment) → Sized n seg → least seg.mode ≤ n → n < 2 ^ 16 → IsValid seg
valid_of_sized n seg v l h = record {
  sized = ground arith;
  enough = ground arith;
  small = ground arith;
}

keep_mode :
    (n : ℕ) (mode : Mode) (m : Eff (Segment × Statics))
    → n < 2 ^ 16
    → least mode ≤ n
    → Safe (Moded n mode) m
    → Safe (Keeps n) m
keep_mode n mode m small l h w =
    let (r, w1, e, k) = h w in (r, w1, e, (valid_of_sized n r.0 k.0 (rw (k.1) l) small, k.0.count))

blink-Safe :
    (n period_ms : ℕ) (seg : Segment)
    → Sized n seg
    → Safe (λ (s : Segment). Sized n s × (s.mode ≡ Mode.blink)) (blink period_ms seg)
unfolding blink
blink-Safe n period_ms seg v =
    let seg1 : Segment = record seg { timer_period_ms = period_ms } in
    let v1 : Sized n seg1 = ground arith in
    Safe-bind (Sized n) _ _ _ (by_state (seg.timer.state) seg1 v1) (λ seg v.
      Safe-pure (λ (s : Segment). Sized n s × (s.mode ≡ Mode.blink))
        (record seg { mode = Mode.blink }) (ground arith, refl))
  where
    by_state :
        (s : SwTimer.State) (seg1 : Segment)
        → Sized n seg1
        → Safe (Sized n) (elim s [
          | SwTimer.State.running ↦ test_timer seg1 >>= λ t. elim (t.0) [
            | false ↦ pure t.1
            | true ↦ set_timer (record t.1 { state = toggle t.1.state }) (t.1.timer_period_ms / 2)
          ]
          | SwTimer.State.idle ↦ set_timer seg1 period_ms
          | SwTimer.State.expired ↦ set_timer seg1 period_ms
        ])
    by_state SwTimer.State.idle seg1 v = set_timer-Safe n seg1 period_ms v
    by_state SwTimer.State.expired seg1 v = set_timer-Safe n seg1 period_ms v
    by_state SwTimer.State.running seg1 v =
        Safe-bind _ (Sized n) _ _ (test_timer-Safe n seg1 v) (λ t p.
          Safe-cases (Sized n) t.0 _ _
            (set_timer-Safe n (record t.1 { state = toggle t.1.state }) (t.1.timer_period_ms / 2)
              (ground (arith, p.0)))
            (Safe-pure (Sized n) t.1 p.0))

blend_pass-Safe : (n : ℕ) (seg : Segment) → Blends n seg → Safe (Blends n) (blend_pass seg)
unfolding blend_pass
blend_pass-Safe n seg (v, m) = Safe-bind _ (Blends n) _ _ (test_timer-Safe n seg v) (λ t p.
    Safe-cases (Blends n) t.0 _ _
      (Safe-bind (Blends n) (Blends n) (set_timer t.1 t.1.timer_period_ms) _
        (λ w. (_, _, refl, (ground (arith, p.0), p.1 ∙ m)))
        (λ seg v. Safe-lift _ _ (blend_step-Ensures n seg v)))
      (Safe-pure (Blends n) t.1 (p.0, p.1 ∙ m)))

-- What one method leaves, with the statics as they were.
with_statics :
    (n : ℕ) (mode : Mode) (m : Eff Segment) (st : Statics)
    → Safe (λ (s : Segment). Sized n s × (s.mode ≡ mode)) m
    → Safe (Moded n mode) (m >>= λ seg. pure (seg, st))
with_statics n mode m st h = Safe-bind _ _ _ _ h (λ seg v. Safe-pure (Moded n mode) (seg, st) v)

mode_pass-Safe :
    (n : ℕ) (mode : Mode) (seg : Segment) (st : Statics)
    → Sized n seg
    → seg.mode ≡ mode
    → n < 2 ^ 16
    → least mode ≤ n
    → Safe (Moded n mode) (mode_pass mode seg st)
unfolding mode_pass twinkle sparkle meteor dissolve fire
mode_pass-Safe n Mode.static seg st v e h l = Safe-pure (Moded n Mode.static) (seg, st) (v, e)
mode_pass-Safe n Mode.blink seg st v e h l =
    with_statics n Mode.blink _ st (blink-Safe n seg.timer_period_ms seg v)
mode_pass-Safe n Mode.blend seg st v e h l =
    with_statics n Mode.blend _ st (blend_pass-Safe n seg (v, e))
mode_pass-Safe n Mode.twinkle seg st v e h l =
    on_timer-Safe n twinkle_step Mode.twinkle (twinkle_step-Safe n l h) seg st v
mode_pass-Safe n Mode.sparkle seg st v e h l =
    on_timer-Safe n sparkle_step Mode.sparkle (sparkle_step-Safe n l h) seg st v
mode_pass-Safe n Mode.meteor seg st v e h l =
    on_timer-Safe n meteor_step Mode.meteor (meteor_step-Safe n) seg st v
mode_pass-Safe n Mode.dissolve seg st v e h l =
    on_timer-Safe n dissolve_step Mode.dissolve (dissolve_step-Safe n) seg st v
mode_pass-Safe n Mode.fire seg st v e h l =
    on_timer-Safe n fire_step Mode.fire (fire_step-Safe n l) seg st v

-- A round of the loop of `segment_loop` on a valid segment returns, whatever the generator and the
-- counter give, with a valid segment of as many pixels: no effect leaves the buffers. A segment is
-- valid if its three buffers have as many cells as it has pixels, below 2 ^ 16, and those are at
-- least 1, and 6 for `fire`.
pub segment_pass-IsValid :
    (seg : Segment) (st : Statics) (w : World)
    → IsValid seg
    → (r : Segment × Statics) × (w' : World) × (segment_pass seg st w ≡ some (r, w'))
      × (IsValid r.0 × (r.0.num_pixels ≡ seg.num_pixels))
unfolding segment_pass
segment_pass-IsValid seg st w v =
    keep_mode seg.num_pixels seg.mode _ v.small v.enough
      (mode_pass-Safe seg.num_pixels seg.mode seg st v.sized refl v.small v.enough) w
