-- ===== src/Ws2812Led/Strip/Paint.antt =====
-- All the segments of a strip on its lights, and a segment that does not lie on the strip.
use zephyr_common.Common.{
  ℕ, zero, suc, ◌+◌, ◌-◌, ◌≤◌, ◌<◌, ◌≡◌, refl, sym, ap, ◌∙◌, subst, inl, ◌⊎◌, inr, Bool, true,
  false, List, [], ◌∷◌, ◌++◌, Option, none, some, arith, length, take, drop, length-append,
  length-set, set, get_elem?, length-take, length-drop, Option-cases, ltb, if◌then◌else◌,
  Bool-cases,
}
use zephyr_common.Common.Memory.{poke}
use zephyr_common.Common.World.{for_range}
use zephyr_common.Ws2812Led.Colour.{Crgb, hsv2rgb}
use zephyr_common.Ws2812Led.Segment.{Segment, State, seg_off, seg_on, rgb_off}
use zephyr_common.Ws2812Led.Effects.Pass.{IsValid}
use zephyr_common.Ws2812Led.Strip.{Strip, render_pixel, render_segment, render, led_main_round}
use zephyr_common.Ws2812Led.Strip.Render.{shown, length-shown, render_segment-shown}

-- The lights with a segment on them.
unfoldable pub paint : Segment → List Crgb → List Crgb
paint seg leds =
    take seg.start_idx leds ++ (shown seg ++ drop (seg.start_idx + seg.num_pixels) leds)

-- One segment over the other, in the order in which they were added.
unfoldable pub paint_all : List Segment → List Crgb → List Crgb
unfolding paint
paint_all [] leds = leds
paint_all (seg ∷ segs) leds = paint_all segs (paint seg leds)

-- All segments are valid and lie on `n` lights.
abbrev pub AllOn : ℕ → List Segment → Type 0
AllOn n [] = Unit
AllOn n (seg ∷ segs) = IsValid seg × (seg.start_idx + seg.num_pixels ≤ n) × AllOn n segs

length-paint :
    (seg : Segment) (leds : List Crgb)
    → IsValid seg
    → seg.start_idx + seg.num_pixels ≤ length leds
    → length (paint seg leds) ≡ length leds
unfolding paint
length-paint seg leds v h =
    let tail = drop (seg.start_idx + seg.num_pixels) leds in
    omega (
      arith,
      length-append (take seg.start_idx leds) (shown seg ++ tail),
      length-append (shown seg) tail,
      length-shown seg.num_pixels seg v.sized,
      length-take seg.start_idx leds,
      length-drop (seg.start_idx + seg.num_pixels) leds,
    )

render-paint_all :
    (segs : List Segment) (leds : List Crgb)
    → AllOn (length leds) segs
    → render segs leds ≡ some (paint_all segs leds)
unfolding render paint_all
render-paint_all [] leds h = refl
render-paint_all (seg ∷ segs) leds (v, fits, h) =
    let size = length-paint seg leds v fits in
    let first : render_segment seg leds ≡ some (paint seg leds) =
      unfold paint in render_segment-shown seg leds v fits in
    rw (render, first)
      (render-paint_all segs (paint seg leds) (subst (λ n. AllOn n segs) (sym size) h))

-- A round of `led_main` gives the driver the lights with all segments on them, one over the other
-- in the order in which they were added, and then sleeps for the delay of the strip, or for a
-- second if the driver fails. This is for valid segments that lie on the lights.
pub led_main_round-paint_all :
    (update : List Crgb → Bool) (strip : Strip) (leds : List Crgb)
    → AllOn (length leds) strip.segments
    → led_main_round update strip leds
      ≡ some (
        paint_all strip.segments leds,
        if update (paint_all strip.segments leds) then strip.loop_delay_ms else 1000,
      )
unfolding led_main_round
led_main_round-paint_all update strip leds h =
    rw (led_main_round, render-paint_all strip.segments leds h)
      (elim (Bool-cases (update (paint_all strip.segments leds))) [
        | inl done ↦ rw done refl
        | inr failed ↦ rw failed refl
      ])

-- A loop whose last round faults does not return.
for_range_fault :
    {S : Type 0} (P : S → Type 0) (body : ℕ → S → Option S) (last : ℕ)
    → ((i : ℕ) (s s' : S) → P s → body i s ≡ some s' → P s')
    → ((s : S) → P s → body last s ≡ none)
    → (left i : ℕ) (s : S) → i + left ≡ suc last
    → 1 ≤ left
    → P s
    → for_range left i body s ≡ none
unfolding for_range
for_range_fault P body last keep fault zero i s e h p = absurd (omega arith)
for_range_fault P body last keep fault (suc zero) i s e h p =
    let at : i ≡ last = omega arith in rw (for_range, at, fault s p) refl
for_range_fault P body last keep fault (suc (suc left)) i s e h p = elim (Option-cases (body i s)) [
  | inl f ↦ rw (for_range, f) refl
  | inr (s', f) ↦
      rw (for_range, f)
        (for_range_fault P body last keep fault (suc left) (i + 1) s' (omega arith) (omega arith)
          (keep i s s' p f))
]

length-poke :
    {A : Type 0} (xs ys : List A) (i : ℕ) (v : A) → poke xs i v ≡ some ys → length ys ≡ length xs
length-poke xs ys i v h = elim (Bool-cases (ltb i (length xs))) [
  | inl inside ↦
      let e : poke xs i v ≡ some (set xs i v) = rw inside refl in
      let same : ys ≡ set xs i v = cc in ap length same ∙ length-set xs i v
  | inr beyond ↦ let e : poke xs i v ≡ none = rw beyond refl in cc
]

poke_beyond : {A : Type 0} (xs : List A) (i : ℕ) (v : A) → length xs ≤ i → poke xs i v ≡ none
poke_beyond xs i v h = let out : ltb i (length xs) ≡ false = ground arith in rw out refl

-- `render_pixel` writes one light or faults.
render_pixel-poke :
    (seg : Segment) (k : ℕ) (leds : List Crgb)
    → ((c : Crgb) × (render_pixel seg k leds ≡ poke leds (k + seg.start_idx) c))
      ⊎ (render_pixel seg k leds ≡ none)
unfolding render_pixel
render_pixel-poke seg k leds = by_state seg.state seg.use_rgb_pixels
  where
    by_state :
        (s : State) (u : Bool)
        → let r : Option (List Crgb) = elim s [
          | seg_off ↦ poke leds (k + seg.start_idx) rgb_off
          | seg_on ↦ elim u [
            | true ↦ elim (get_elem? seg.rgb_pixels k) [
              | none ↦ none
              | some rgb ↦ poke leds (k + seg.start_idx) rgb
            ]
            | false ↦ elim (get_elem? seg.pixels k) [
              | none ↦ none
              | some hsv ↦ poke leds (k + seg.start_idx) (hsv2rgb hsv)
            ]
          ]
        ] in
          ((c : Crgb) × (r ≡ poke leds (k + seg.start_idx) c)) ⊎ (r ≡ none)
    by_state seg_off u = inl (rgb_off, refl)
    by_state seg_on true = elim (Option-cases (get_elem? seg.rgb_pixels k)) [
      | inl e ↦ inr (rw e refl)
      | inr (c, e) ↦ inl (c, rw e refl)
    ]
    by_state seg_on false = elim (Option-cases (get_elem? seg.pixels k)) [
      | inl e ↦ inr (rw e refl)
      | inr (c, e) ↦ inl (hsv2rgb c, rw e refl)
    ]

-- `led_main` writes outside the lights for a segment that ends behind them: nothing checks a
-- segment against the strip where it is added.
pub render_segment_overrun :
    (seg : Segment) (leds : List Crgb)
    → 1 ≤ seg.num_pixels
    → length leds < seg.start_idx + seg.num_pixels
    → render_segment seg leds ≡ none
unfolding render_segment
render_segment_overrun seg leds one h =
    for_range_fault (λ xs. length xs ≡ length leds) (render_pixel seg) (seg.num_pixels - 1)
      (λ i s s' p e. elim (render_pixel-poke seg i s) [
        | inl (c, f) ↦ length-poke s s' (i + seg.start_idx) c (sym f ∙ e) ∙ p
        | inr f ↦ cc
      ])
      (λ s p. elim (render_pixel-poke seg (seg.num_pixels - 1) s) [
        | inl (c, f) ↦ f ∙ poke_beyond s (seg.num_pixels - 1 + seg.start_idx) c (omega arith)
        | inr f ↦ f
      ])
      seg.num_pixels 0 leds (omega arith) one refl
