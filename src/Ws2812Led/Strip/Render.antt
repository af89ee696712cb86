-- ===== src/Ws2812Led/Strip/Render.antt =====
-- What the task of the strip shows.
use zephyr_common.Common.{
  ℕ, zero, suc, ◌+◌, ◌≤◌, ◌≡◌, refl, sym, ap, ◌∙◌, Bool, true, false, List, [], ◌∷◌, ◌++◌, none,
  some, map, arith, length, take, drop, replicate, get_elem?, length-replicate, take-append-drop,
  length-take, length-drop, drop-drop,
}
use zephyr_common.Common.Memory.{poke}
use zephyr_common.Common.World.{for_range}
use zephyr_common.Ws2812Led.Colour.{Crgb, hsv2rgb}
use zephyr_common.Ws2812Led.Segment.{Segment, State, seg_off, seg_on, rgb_off}
use zephyr_common.Ws2812Led.Segment.Fill.{for_range-overwrite, get_elem?-replicate}
use zephyr_common.Ws2812Led.Effects.Valid.{Sized}
use zephyr_common.Ws2812Led.Effects.Pass.{IsValid}
use zephyr_common.Ws2812Led.Strip.{render_pixel, render_segment}

-- The lights of a segment: dark if it is off, else its colours.
unfoldable pub shown : Segment → List Crgb
shown seg = elim (seg.state) [
  | seg_off ↦ replicate seg.num_pixels rgb_off
  | seg_on ↦ elim (seg.use_rgb_pixels) [ true ↦ seg.rgb_pixels | false ↦ map hsv2rgb seg.pixels ]
]

get_elem?-map :
    {A B : Type 0} (f : A → B) (xs : List A) (k : ℕ) (b : B)
    → get_elem? (map f xs) k ≡ some b
    → (a : A) × (get_elem? xs k ≡ some a) × (b ≡ f a)
get_elem?-map f [] k b h = cc
get_elem?-map f (x ∷ xs) zero b h = (x, refl, cc)
get_elem?-map f (x ∷ xs) (suc k) b h = get_elem?-map f xs k b h

length-map : {A B : Type 0} (f : A → B) (xs : List A) → length (map f xs) ≡ length xs
length-map f [] = refl
length-map f (x ∷ xs) = ap suc (length-map f xs)

pub length-shown : (n : ℕ) (seg : Segment) → Sized n seg → length (shown seg) ≡ n
unfolding shown
length-shown n seg v = by_state seg.state seg.use_rgb_pixels
  where
    by_state :
        (s : State) (u : Bool)
        → length (elim s [
          | seg_off ↦ replicate seg.num_pixels rgb_off
          | seg_on ↦ elim u [ true ↦ seg.rgb_pixels | false ↦ map hsv2rgb seg.pixels ]
        ])
          ≡ n
    by_state seg_off u = length-replicate seg.num_pixels rgb_off ∙ v.count
    by_state seg_on true = v.rgb
    by_state seg_on false = length-map hsv2rgb seg.pixels ∙ v.hsv

render_pixel-shown :
    (seg : Segment) (k : ℕ) (c : Crgb) (leds : List Crgb)
    → get_elem? (shown seg) k ≡ some c
    → render_pixel seg k leds ≡ poke leds (k + seg.start_idx) c
unfolding shown render_pixel
render_pixel-shown seg k c leds = by_state seg.state seg.use_rgb_pixels
  where
    by_state :
        (s : State) (u : Bool)
        → get_elem?
            (elim s [
              | seg_off ↦ replicate seg.num_pixels rgb_off
              | seg_on ↦ elim u [ true ↦ seg.rgb_pixels | false ↦ map hsv2rgb seg.pixels ]
            ])
            k
          ≡ some c
        → (elim s [
          | seg_off ↦ poke leds (k + seg.start_idx) rgb_off
          | seg_on ↦ elim u [
            | true ↦ elim (get_elem? seg.rgb_pixels k) [
              | none ↦ none
              | some rgb ↦ poke leds (k + seg.start_idx) rgb
            ]
            | false ↦ elim (get_elem? seg.pixels k) [
              | none ↦ none
              | some hsv ↦ poke leds (k + seg.start_idx) (hsv2rgb hsv)
            ]
          ]
        ])
          ≡ poke leds (k + seg.start_idx) c
    by_state seg_off u h =
        ap (poke leds (k + seg.start_idx)) (get_elem?-replicate seg.num_pixels rgb_off k c h)
    by_state seg_on true h = rw h refl
    by_state seg_on false h =
        let (a, g, e) = get_elem?-map hsv2rgb seg.pixels k c h in
        rw g (ap (poke leds (k + seg.start_idx)) (sym e))

-- `led_main` writes the lights of a segment from its start index on: dark if it is off, its RGB
-- pixels if it uses those, and else its pixels turned to RGB; the other lights are left. This is
-- for a valid segment that lies on the strip.
pub render_segment-shown :
    (seg : Segment) (leds : List Crgb)
    → IsValid seg
    → seg.start_idx + seg.num_pixels ≤ length leds
    → render_segment seg leds
      ≡ some (take seg.start_idx leds ++ (shown seg ++ drop (seg.start_idx + seg.num_pixels) leds))
unfolding render_segment
render_segment-shown seg leds v fits =
    let n = seg.num_pixels in
    let start = seg.start_idx in
    let size = length-shown n seg v.sized in
    let rest = drop start leds in
    let whole : take start leds ++ (take n rest ++ drop n rest) ≡ leds =
      ap (λ t. take start leds ++ t) (take-append-drop n rest) ∙ take-append-drop start leds in
    let body = render_pixel seg in
    ap (for_range n 0 body) (sym whole)
    ∙ (ap (λ k. for_range k 0 body (take start leds ++ (take n rest ++ drop n rest))) (sym size)
        ∙ (for_range-overwrite body start (shown seg) 0 (take start leds) (take n rest)
              (drop n rest) (omega (arith, length-take n rest, length-drop start leds))
              (omega (arith, length-take start leds))
              (λ k c leds h.
                let j : 0 + k ≡ k = omega arith in rw j (render_pixel-shown seg k c leds h))
            ∙ ap (λ t. some (take start leds ++ (shown seg ++ t))) (drop-drop start n leds)))
