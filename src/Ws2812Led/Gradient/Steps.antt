-- ===== src/Ws2812Led/Gradient/Steps.antt =====
-- The colours that a gradient steps through.
use zephyr_common.Common.{
  ℕ, zero, suc, ◌+◌, ◌*◌, ◌<◌, ◌^◌, ◌≡◌, refl, sym, ap, ◌∙◌, List, [], ◌∷◌, ◌++◌, some, arith,
  length, length-append, append_assoc, get_elem?, u16,
}
use zephyr_common.Common.Memory.{poke-append}
use zephyr_common.Common.World.{for_range}
use zephyr_common.Ws2812Led.Colour.{Chsv}
use zephyr_common.Ws2812Led.Segment.{GradientIter}
use native.Mathlib.Nat.{suc-mul}
use zephyr_common.Ws2812Led.Gradient.{accum_color, advance, gradient_pixel}

unfoldable pub steps : ℕ → GradientIter → GradientIter
unfolding advance
steps zero iter = iter
steps (suc n) iter = steps n (advance iter)

-- The colours of `n` steps.
unfoldable pub colours : ℕ → GradientIter → List Chsv
unfolding accum_color advance
colours zero iter = []
colours (suc n) iter = accum_color iter ∷ colours n (advance iter)

pub length-colours : (n : ℕ) (iter : GradientIter) → length (colours n iter) ≡ n
unfolding colours
length-colours zero iter = refl
length-colours (suc n) iter = ap suc (length-colours n (advance iter))

pub get_elem?-colours :
    (n : ℕ) (iter : GradientIter) (k : ℕ)
    → k < n
    → get_elem? (colours n iter) k ≡ some (accum_color (steps k iter))
unfolding colours steps
get_elem?-colours zero iter k h = absurd (omega arith)
get_elem?-colours (suc n) iter zero h = refl
get_elem?-colours (suc n) iter (suc k) h = get_elem?-colours n (advance iter) k (omega arith)

-- The loop of `fill_gradient` puts them down.
pub gradient_pixel-colours :
    (n i : ℕ) (pre mid post : List Chsv) (iter : GradientIter)
    → length mid ≡ n
    → i ≡ length pre
    → for_range n i gradient_pixel (pre ++ (mid ++ post), iter)
      ≡ some (pre ++ (colours n iter ++ post), steps n iter)
unfolding for_range colours steps gradient_pixel
gradient_pixel-colours zero i pre [] post iter l e = refl
gradient_pixel-colours zero i pre (m ∷ mid) post iter l e = absurd (omega arith)
gradient_pixel-colours (suc n) i pre [] post iter l e = absurd (omega arith)
gradient_pixel-colours (suc n) i pre (m ∷ mid) post iter l e =
    let c = accum_color iter in
    let next : GradientIter = advance iter in
    let first = poke-append pre (mid ++ post) m i c e in
    let later =
      gradient_pixel-colours n (i + 1) (pre ++ c ∷ []) mid post next (omega arith)
        (omega (arith, length-append pre (c ∷ []))) in
    rw (for_range, gradient_pixel, first)
      (ap (λ t. for_range n (i + 1) gradient_pixel (t, next))
          (sym (append_assoc pre (c ∷ []) (mid ++ post)))
        ∙ (later
            ∙ ap (λ t. some (t, steps n next))
                (append_assoc pre (c ∷ []) (colours n next ++ post))))

-- An accumulator after some steps.
abbrev pub after : ℕ → ℕ → ℕ → ℕ
after accum delta k = u16 (accum + k * delta)

after-suc : (accum delta k : ℕ) → after (u16 (accum + delta)) delta k ≡ after accum delta (suc k)
after-suc accum delta k = omega (arith, suc-mul k delta)

-- The fields that a gradient moves after `k` steps.
pub steps_lem :
    (k : ℕ) (iter : GradientIter)
    → iter.hue_accum < 2 ^ 16
    → iter.sat_accum < 2 ^ 16
    → iter.val_accum < 2 ^ 16
    → ((steps k iter).hue_accum ≡ after iter.hue_accum iter.hue_delta k)
      × ((steps k iter).sat_accum ≡ after iter.sat_accum iter.sat_delta k)
      × ((steps k iter).val_accum ≡ after iter.val_accum iter.val_delta k)
unfolding steps advance
steps_lem zero iter h s v = (omega arith, omega arith, omega arith)
steps_lem (suc k) iter h s v =
    let (ih, is, iv) = steps_lem k (advance iter) (omega arith) (omega arith) (omega arith) in
    (
      ih ∙ after-suc iter.hue_accum iter.hue_delta k,
      is ∙ after-suc iter.sat_accum iter.sat_delta k,
      iv ∙ after-suc iter.val_accum iter.val_delta k,
    )
