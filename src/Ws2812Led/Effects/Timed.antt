-- ===== src/Ws2812Led/Effects/Timed.antt =====
-- The effects on lights, `dissolve` and `meteor`, and `blend` stay inside the pixels.
use zephyr_common.Common.{
  ℕ, zero, suc, ◌+◌, ◌-◌, ◌≤◌, ◌<◌, ◌≡◌, refl, Bool, true, false, List, arith, length, ◌==◌, ltb,
  Bool-cases, inl, inr, ltb→lt, u16, ◌||◌,
}
use zephyr_common.Common.World.{
  Ensures, Ensures-bind, Ensures-for_range, Safe, Safe-bind, Safe-lift, Safe-pure, Safe-for_eff,
  Ensures-cases, Safe-cases,
}
use zephyr_common.Random.Range.{random_uint-Safe}
use zephyr_common.Ws2812Led.Colour.{Crgb}
use zephyr_common.Ws2812Led.Segment.{Segment, Mode, fade_pixel, is_seg_blank_rgb, blank_from}
use zephyr_common.Ws2812Led.Segment.Fill.{Long, poke-Ensures, get_elem?-Ensures, set_all-Ensures}
use zephyr_common.Ws2812Led.Gradient.{advance, accum_color, start_color, blend_step}
use zephyr_common.Ws2812Led.Effects.{
  Statics, dissolve_pixel, dissolve_step, meteor_fade, meteor_draw, meteor_step,
}
use zephyr_common.Ws2812Led.Effects.Valid.{Sized, Pair, fill_solid-Ensures}

pub fade_pixel-Ensures :
    (n : ℕ) (ps : List Crgb) (j factor : ℕ)
    → length ps ≡ n
    → j < n
    → Ensures (Long n) (fade_pixel ps j factor)
unfolding fade_pixel
fade_pixel-Ensures n ps j factor l h =
    Ensures-bind (λ c. Unit) (Long n) _ _ (get_elem?-Ensures ps j (omega arith))
      (λ pix t. poke-Ensures n ps j _ l h)

dissolve_pixel-Safe :
    (n prob decay j : ℕ) (ps : List Crgb)
    → length ps ≡ n
    → j < n
    → Safe (Long n) (dissolve_pixel prob decay j ps)
unfolding dissolve_pixel
dissolve_pixel-Safe n prob decay j ps l h =
    Safe-bind _ _ _ _ (random_uint-Safe 0x100 100 (omega arith) (omega arith) (omega arith)) (λ r t.
      Safe-cases (Long n) (ltb (100 - prob) r) _ _
        (Safe-lift _ _ (fade_pixel-Ensures n ps j decay l h)) (Safe-pure (Long n) ps l))

blank_from-Ensures :
    (left i : ℕ) (ps : List Crgb)
    → i + left ≤ length ps
    → Ensures (λ b. Unit) (blank_from left i ps)
unfolding blank_from
blank_from-Ensures zero i ps h = (true, refl, tt)
blank_from-Ensures (suc left) i ps h =
    let later = blank_from-Ensures left (i + 1) ps (omega arith) in
    Ensures-bind (λ c. Unit) (λ b. Unit) _ _ (get_elem?-Ensures ps i (omega arith))
      (λ pix t.
        Ensures-cases (λ (b : Bool). Unit) (ltb 0 pix.r || (ltb 0 pix.g || ltb 0 pix.b)) _ _
          (false, refl, tt) later)

pub dissolve_step-Safe :
    (n : ℕ) (seg : Segment) (st : Statics) → Sized n seg → Safe (Pair n) (dissolve_step seg st)
unfolding dissolve_step is_seg_blank_rgb
dissolve_step-Safe n seg st v =
    Safe-bind (Long n) (Pair n) _ _
      (Safe-for_eff (Long n) seg.num_pixels _
        (λ j ps h l.
          dissolve_pixel-Safe n st.of_dissolve.prob st.of_dissolve.decay j ps l (ground arith))
        seg.rgb_pixels v.rgb)
      (λ ps l.
        let fits : 0 + seg.num_pixels ≤ length ps = ground arith in
        Safe-bind (λ b. Unit) (Pair n) _ _
          (Safe-lift _ _ (blank_from-Ensures seg.num_pixels 0 ps fits))
          (λ blank t.
            Safe-cases (Pair n) blank _ _
              (Safe-bind (Long seg.num_pixels) (Pair n) _ _
                (Safe-lift _ _
                  (set_all-Ensures seg.num_pixels st.of_dissolve.color ps (ground arith)))
                (λ ps l. Safe-pure (Pair n) (record seg { rgb_pixels = ps }, st) (ground arith)))
              (Safe-pure (Pair n) (record seg { rgb_pixels = ps }, st) (ground arith))))

meteor_fade-Safe :
    (n : ℕ) (decayrandom : Bool) (mdecay j : ℕ) (ps : List Crgb)
    → length ps ≡ n
    → j < n
    → Safe (Long n) (meteor_fade decayrandom mdecay j ps)
unfolding meteor_fade
meteor_fade-Safe n false mdecay j ps l h = Safe-lift _ _ (fade_pixel-Ensures n ps j mdecay l h)
meteor_fade-Safe n true mdecay j ps l h =
    Safe-bind _ _ _ _ (random_uint-Safe 0x100 100 (omega arith) (omega arith) (omega arith)) (λ r t.
      Safe-cases (Long n) (ltb 60 r) _ _ (Safe-lift _ _ (fade_pixel-Ensures n ps j mdecay l h))
        (Safe-pure (Long n) ps l))

meteor_draw-Ensures :
    (n : ℕ) (c : Crgb) (count j : ℕ) (ps : List Crgb)
    → length ps ≡ n
    → Ensures (Long n) (meteor_draw n c count j ps)
unfolding meteor_draw
meteor_draw-Ensures n c count j ps l = elim (Bool-cases (ltb count j)) [
  | inl before ↦ rw (meteor_draw, before) (ps, refl, l)
  | inr at ↦ elim (Bool-cases (ltb (count - j) n)) [
    | inl inside ↦
        rw (meteor_draw, at, inside) (poke-Ensures n ps (count - j) c l (ltb→lt _ _ inside))
    | inr beyond ↦ rw (meteor_draw, at, beyond) (ps, refl, l)
  ]
]

pub meteor_step-Safe :
    (n : ℕ) (seg : Segment) (st : Statics) → Sized n seg → Safe (Pair n) (meteor_step seg st)
unfolding meteor_step
meteor_step-Safe n seg st v =
    Safe-bind (Long n) (Pair n) _ _
      (Safe-for_eff (Long n) seg.num_pixels _
        (λ j ps h l.
          meteor_fade-Safe n st.of_meteor.decayrandom st.of_meteor.mdecay j ps l (ground arith))
        seg.rgb_pixels v.rgb)
      (λ ps l.
        Safe-bind (Long seg.num_pixels) (Pair n) _ _
          (Safe-lift _ _ (
            Ensures-for_range (Long seg.num_pixels) st.of_meteor.msize _
              (λ j ps h l.
                meteor_draw-Ensures seg.num_pixels st.of_meteor.color st.of_meteor.count j ps l)
              st.of_meteor.msize 0 ps (omega arith) (ground arith)))
          (λ ps l. Safe-pure _ _ (ground arith)))

abbrev pub Blends : ℕ → Segment → Type 0
Blends n seg = Sized n seg × (seg.mode ≡ Mode.blend)

pub blend_step-Ensures :
    (n : ℕ) (seg : Segment) → Blends n seg → Ensures (Blends n) (blend_step seg)
unfolding blend_step
blend_step-Ensures n seg (v, m) =
    let iter = advance seg.grad_iter in
    Ensures-bind (Long n) (Blends n) _ _
      (Ensures-for_range (Long n) seg.num_pixels _
        (λ i ps h l. poke-Ensures n ps i (accum_color iter) l (ground arith)) seg.num_pixels 0
        seg.pixels (omega arith) v.hsv)
      (λ ps l.
        let seg' : Segment = record seg {
          pixels = ps;
          grad_iter = record iter { step_idx = u16 (iter.step_idx + 1) };
        } in
        Ensures-cases (Blends n) (u16 (iter.step_idx + 1) == iter.num_steps) _ _
          (Ensures-bind (Sized n) (Blends n) _ _
            (fill_solid-Ensures n seg' (start_color iter) (ground arith))
            (λ seg'' v. (_, refl, (ground arith, refl))))
          (seg', refl, (ground arith, m)))
