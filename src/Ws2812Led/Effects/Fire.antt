-- ===== src/Ws2812Led/Effects/Fire.antt =====
-- `fire` stays inside the buffers of a segment of 6 pixels or more, and not of fewer.
use zephyr_common.Common.{
  ℕ, zero, suc, ◌+◌, ◌-◌, ◌*◌, ◌/◌, ◌%◌, ◌≤◌, ◌<◌, ◌^◌, ◌≡◌, refl, ◌∙◌, List, [], ◌∷◌, none, arith,
  length, ltb, lt→ltb, get_elem?,
}
use zephyr_common.Common.World.{
  World, Ensures, Ensures-bind, Ensures-for_range, Safe, Safe-bind, Safe-lift, Safe-pure,
  Safe-for_eff, Safe-cases, Eff-cases_true,
}
use zephyr_common.Random.{random_uint, random_u8, random_u8_range, scale_uint}
use zephyr_common.Random.Range.{random_uint-Safe_below}
use zephyr_common.Ws2812Led.Colour.{Crgb, sub_safe, add8_safe, get_heatcolor}
use zephyr_common.Ws2812Led.Segment.{Segment}
use zephyr_common.Ws2812Led.Segment.Fill.{Long, poke-Ensures, get_elem?-Ensures}
use zephyr_common.Ws2812Led.Effects.{
  Statics, fire_cool, fire_drift, fire_ignite, fire_map, fire_step,
}
use zephyr_common.Ws2812Led.Effects.Valid.{Sized, Pair}

fire_cool-Safe :
    (n cool num_pixels i : ℕ) (heat : List ℕ)
    → length heat ≡ n
    → i < n
    → Safe (Long n) (fire_cool cool num_pixels i heat)
unfolding fire_cool
fire_cool-Safe n cool num_pixels i heat l h =
    Safe-bind (λ r. Unit) (Long n) (random_uint 0x100 (cool * 10 / num_pixels + 2)) _
      (λ w. (_, _, refl, tt))
      (λ r t.
        Safe-bind (λ c. Unit) (Long n) _ _ (Safe-lift _ _ (get_elem?-Ensures heat i (omega arith)))
          (λ c t. Safe-lift _ _ (poke-Ensures n heat i (sub_safe c r) l h)))

fire_drift-Ensures :
    (n k : ℕ) (heat : List ℕ) → length heat ≡ n → k < n → Ensures (Long n) (fire_drift n k heat)
unfolding fire_drift
fire_drift-Ensures n k heat l h =
    Ensures-bind (λ c. Unit) (Long n) _ _ (get_elem?-Ensures heat (n - 1 - k - 1) (omega arith))
      (λ a t.
        Ensures-bind (λ c. Unit) (Long n) _ _ (get_elem?-Ensures heat (n - 1 - k - 2) (omega arith))
          (λ b t. poke-Ensures n heat (n - 1 - k) ((a + b + b) / 3) l (omega arith)))

fire_ignite-Safe :
    (n spark : ℕ) (heat : List ℕ) → length heat ≡ n → 6 ≤ n → Safe (Long n) (fire_ignite spark heat)
unfolding fire_ignite
fire_ignite-Safe n spark heat l six =
    Safe-bind (λ r. Unit) (Long n) random_u8 _ (λ w. (_, _, refl, tt))
      (λ r t.
        Safe-cases (Long n) (ltb r spark) _ _
          (Safe-bind _ (Long n) _ _
            (random_uint-Safe_below 0x100 7 (omega arith) (omega arith) (omega arith))
            (λ idx h.
              Safe-bind (λ r. Unit) (Long n) (random_u8_range 160 255) _ (λ w. (_, _, refl, tt))
                (λ range t.
                  Safe-bind (λ c. Unit) (Long n) _ _
                    (Safe-lift _ _ (get_elem?-Ensures heat idx (omega arith)))
                    (λ c t.
                      Safe-lift _ _
                        (poke-Ensures n heat idx (add8_safe c range) l (omega arith))))))
          (Safe-pure (Long n) heat l))

fire_map-Ensures :
    (n : ℕ) (heat : List ℕ) (i : ℕ) (ps : List Crgb)
    → length heat ≡ n
    → length ps ≡ n
    → i < n
    → Ensures (Long n) (fire_map heat i ps)
unfolding fire_map
fire_map-Ensures n heat i ps l m h =
    Ensures-bind (λ c. Unit) (Long n) _ _ (get_elem?-Ensures heat i (omega arith))
      (λ c t. poke-Ensures n ps i (get_heatcolor c) m h)

pub fire_step-Safe :
    (n : ℕ)
    → 6 ≤ n
    → (seg : Segment) (st : Statics) → Sized n seg
    → Safe (Pair n) (fire_step seg st)
unfolding fire_step
fire_step-Safe n six seg st v =
    let m = seg.num_pixels in
    Safe-bind (Long m) (Pair n) _ _
      (Safe-for_eff (Long m) m _
        (λ i heat h l. fire_cool-Safe m st.of_fire.cool m i heat l (omega arith)) seg.work_buf
        (ground arith))
      (λ heat l.
        Safe-bind (Long m) (Pair n) _ _
          (Safe-lift _ _ (
            Ensures-for_range (Long m) (m - 2) _
              (λ k heat h l. fire_drift-Ensures m k heat l (omega arith)) (m - 2) 0 heat
              (omega arith) l))
          (λ heat l.
            Safe-bind (Long m) (Pair n) _ _
              (fire_ignite-Safe m st.of_fire.spark heat l (ground arith))
              (λ heat l.
                Safe-bind (Long m) (Pair n) _ _
                  (Safe-lift _ _ (
                    Ensures-for_range (Long m) m _
                      (λ i ps h k. fire_map-Ensures m heat i ps l k (omega arith)) m 0
                      seg.rgb_pixels (omega arith) (ground arith)))
                  (λ ps k. Safe-pure _ _ (ground arith)))))

get_elem?_beyond : (xs : List ℕ) (i : ℕ) → length xs ≤ i → get_elem? xs i ≡ none
get_elem?_beyond [] i h = refl
get_elem?_beyond (x ∷ xs) zero h = absurd (omega arith)
get_elem?_beyond (x ∷ xs) (suc i) h = get_elem?_beyond xs i (omega arith)

-- In a segment of at most 5 pixels a spark leaves the buffer for some values of the generator: one
-- below `spark` and then the greatest one.
pub fire_ignite_overrun :
    (spark : ℕ) (heat : List ℕ) (w : World)
    → length heat ≤ 5
    → w.rand w.drawn % 2 ^ 8 < spark
    → w.rand (w.drawn + 1) % 2 ^ 32 ≡ 0xffff_ffff
    → fire_ignite spark heat w ≡ none
unfolding fire_ignite scale_uint
fire_ignite_overrun spark heat w short low top =
    let test = lt→ltb (w.rand w.drawn % 2 ^ 8) spark low in
    let out = get_elem?_beyond heat 5 short in
    Eff-cases_true (ltb (w.rand w.drawn % 2 ^ 8) spark) _ _ (record w { drawn = w.drawn + 1 }) test
    ∙ rw (top, out) refl
