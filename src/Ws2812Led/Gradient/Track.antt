-- ===== src/Ws2812Led/Gradient/Track.antt =====
-- What `fill_gradient` puts into each pixel.
use zephyr_common.Common.{
  ℕ, zero, suc, ◌+◌, ◌-◌, ◌*◌, ◌/◌, ◌≤◌, ◌<◌, ◌^◌, ◌≡◌, refl, sym, ap, subst, ◌∙◌, inl, inr, Bool,
  true, false, Bool-cases, [], some, arith, length, append-nil, get_elem?, u8, u16, min, max, leb,
  leb→le, ltb, ltb→lt, ◌==◌, if◌then◌else◌,
}
use zephyr_common.Common.World.{for_range}
use zephyr_common.Ws2812Led.Colour.{Chsv}
use zephyr_common.Ws2812Led.Segment.{Segment, GradientIter, Mode}
use zephyr_common.Ws2812Led.Gradient.{
  GradientDir, grad_fwd, grad_bwd, grad_shortest, grad_longest, dist_7, is_fwd, hue_dist_7, delta_8,
  get_gradient_iter, accum_color, gradient_pixel, fill_gradient,
}
use zephyr_common.Ws2812Led.Gradient.Steps.{
  steps, colours, get_elem?-colours, gradient_pixel-colours, after, steps_lem,
}
use zephyr_common.Ws2812Led.Gradient.Line.{way, CloseTo, rising, falling}
use native.Mathlib.Nat.{div-le_self, mul-add}

-- The upper byte of an accumulator that starts at the byte `a`.
abbrev track : ℕ → ℕ → ℕ → ℕ
track a delta i = u8 (after (a * 256) delta i / 256)

-- An accumulator that moves down by `q` at each step, with a turn of the byte ahead: the delta is
-- 2 ^ 16 - q, or 0 for 0.
down_after :
    (a i q : ℕ)
    → i * q ≤ 2 ^ 16
    → 1 ≤ q
    → q ≤ 2 ^ 16
    → after (a * 256) (0x1_0000 - q) i ≡ u16 ((a + 256) * 256 - i * q)
down_after a i q small one l =
    let parts = mul-add i (0x1_0000 - q) q in
    let sum : 0x1_0000 - q + q ≡ 0x1_0000 = omega arith in
    let whole = ap (λ t. i * t) sum in omega arith

down_lem :
    (a i q : ℕ)
    → i * q ≤ 2 ^ 16
    → q ≤ 2 ^ 16
    → after (a * 256) (u16 (0x1_0000 - q)) i ≡ u16 ((a + 256) * 256 - i * q)
down_lem a i zero small l =
    let none_left : u16 (0x1_0000 - 0) ≡ 0 = omega arith in rw none_left (omega arith)
down_lem a i (suc q) small l =
    let whole : u16 (0x1_0000 - suc q) ≡ 0x1_0000 - suc q = omega arith in
    rw whole (down_after a i (suc q) small (omega arith) l)

-- `x` is between `a` and `b`, whichever is less.
abbrev pub Between : ℕ → ℕ → ℕ → Type 0
Between a b x = (min a b ≤ x) × (x ≤ max a b)

-- A saturation or a value.
track-CloseTo :
    (a b n i : ℕ)
    → a < 256
    → b < 256
    → 1 ≤ n
    → i ≤ n
    → CloseTo a b n i (track a (delta_8 (dist_7 a b) n) i)
      × Between a b (track a (delta_8 (dist_7 a b) n) i)
unfolding dist_7 delta_8
track-CloseTo a b n i ha hb one h = elim (Bool-cases (leb a b)) [
  | inl rises ↦
      let d = b - a in
      let q = d * 128 / n in
      let le : a ≤ b = leb→le a b rises in
      let size = div-le_self (d * 128) n in
      let moved = way (d * 128) n i h in
      let delta : u16 (q * 2) ≡ q * 2 = omega arith in
      let e : u8 (after (a * 256) (q * 2) i / 256) ≡ (a * 256 + i * (q * 2)) / 256 = omega arith in
      let eb : a + d ≡ b = omega arith in
      rw (dist_7, rises, delta, e)
        (
          subst (λ t. CloseTo a t n i ((a * 256 + i * (q * 2)) / 256)) eb (rising a d n i one h),
          omega arith,
        )
  | inr falls ↦
      let d = a - b in
      let q = d * 128 / n in
      let lt : b < a = ground arith in
      let size = div-le_self (d * 128) n in
      let moved = way (d * 128) n i h in
      let after_i = down_lem a i (q * 2) (omega arith) (omega arith) in
      let e : u8 (u16 ((a + 256) * 256 - i * (q * 2)) / 256) ≡ (a * 256 - i * (q * 2)) / 256 =
        omega arith in
      let ea : b + d ≡ a = omega arith in
      rw (dist_7, falls, after_i, e)
        (
          subst (λ t. CloseTo t b n i ((t * 256 - i * (q * 2)) / 256)) ea (falling b d n i one h),
          omega arith,
        )
]

-- Whether the hue may go forwards, where that way has the length `ahead` and the other `back`.
abbrev pub Chosen : GradientDir → Bool → ℕ → ℕ → Type 0
Chosen grad_fwd fwd ahead back = fwd ≡ true
Chosen grad_bwd fwd ahead back = fwd ≡ false
Chosen grad_shortest true ahead back = ahead ≤ back
Chosen grad_shortest false ahead back = back ≤ ahead
Chosen grad_longest true ahead back = back ≤ ahead
Chosen grad_longest false ahead back = ahead ≤ back

is_fwd-Chosen :
    (dir : GradientDir) (a b : ℕ)
    → a < 256
    → b < 256
    → Chosen dir (is_fwd dir (u8 (b + 256 - a))) (u8 (b + 256 - a)) (u8 (a + 256 - b))
unfolding is_fwd
is_fwd-Chosen grad_fwd a b ha hb = refl
is_fwd-Chosen grad_bwd a b ha hb = refl
is_fwd-Chosen grad_shortest a b ha hb = elim (Bool-cases (ltb 127 (u8 (b + 256 - a)))) [
  | inl far ↦ let lt = ltb→lt _ _ far in rw far (omega arith)
  | inr near ↦ let le : u8 (b + 256 - a) ≤ 127 = ground arith in rw near (omega arith)
]
is_fwd-Chosen grad_longest a b ha hb = elim (Bool-cases (ltb (u8 (b + 256 - a)) 128)) [
  | inl near ↦ let lt = ltb→lt _ _ near in rw near (omega arith)
  | inr far ↦ let le : 128 ≤ u8 (b + 256 - a) = ground arith in rw far (omega arith)
]

-- The hue, one turn ahead.
track-hue :
    (fwd : Bool) (a b n i : ℕ)
    → a < 256
    → b < 256
    → 1 ≤ n
    → i ≤ n
    → let ahead = u8 (b + 256 - a) in
      let back = u8 (a + 256 - b) in
      (x : ℕ) × (track a (delta_8 (hue_dist_7 fwd ahead) n) i ≡ u8 x)
      × CloseTo (a + 256) (if fwd then a + 256 + ahead else a + 256 - back) n i x
unfolding hue_dist_7 delta_8
track-hue true a b n i ha hb one h =
    let d = u8 (b + 256 - a) in
    let q = d * 128 / n in
    let size = div-le_self (d * 128) n in
    let delta : u16 (q * 2) ≡ q * 2 = omega arith in
    (((a + 256) * 256 + i * (q * 2)) / 256, rw delta (omega arith), rising (a + 256) d n i one h)
track-hue false a b n i ha hb one h =
    let d = u8 (a + 256 - b) in
    let q = d * 128 / n in
    let way_back : u8 (256 - u8 (b + 256 - a)) ≡ d = omega arith in
    let size = div-le_self (d * 128) n in
    let moved = way (d * 128) n i h in
    let after_i = down_lem a i (q * 2) (omega arith) (omega arith) in
    let ea : a + 256 - d + d ≡ a + 256 = omega arith in
    (
      ((a + 256) * 256 - i * (q * 2)) / 256,
      rw (way_back, after_i) (omega arith),
      subst (λ t. CloseTo t (a + 256 - d) n i ((t * 256 - i * (q * 2)) / 256)) ea
          (falling (a + 256 - d) d n i one h),
    )

-- The iterator that `get_gradient_iter` gives for `n` steps, 1 or more.
iter_of : GradientIter → Chsv → Chsv → GradientDir → ℕ → GradientIter
iter_of iter a b dir n =
    let hue_delta = u8 (b.h + 256 - a.h) in
    record iter {
      num_steps = n;
      step_idx = 0;
      hue_delta = delta_8 (hue_dist_7 (is_fwd dir hue_delta) hue_delta) n;
      sat_delta = delta_8 (dist_7 a.s b.s) n;
      val_delta = delta_8 (dist_7 a.v b.v) n;
      hue_accum = u16 (a.h * 256);
      sat_accum = u16 (a.s * 256);
      val_accum = u16 (a.v * 256);
      hue_start = u16 (a.h * 256);
      sat_start = u16 (a.s * 256);
      val_start = u16 (a.v * 256);
    }

upper :
    (a delta i x : ℕ) → a < 256 → x ≡ after (u16 (a * 256)) delta i → u8 (x / 256) ≡ track a delta i
upper a delta i x h e =
    let whole : u16 (a * 256) ≡ a * 256 = omega arith in
    ap (λ t. u8 (t / 256)) (e ∙ ap (λ t. after t delta i) whole)

get_gradient_iter_lem :
    (iter : GradientIter) (a b : Chsv) (dir : GradientDir) (n : ℕ)
    → 1 ≤ n
    → get_gradient_iter a b dir n iter ≡ some (iter_of iter a b dir n)
unfolding get_gradient_iter iter_of
get_gradient_iter_lem iter a b dir n one =
    let test : (n == 0) ≡ false = ground arith in rw (get_gradient_iter, test) refl

-- `fill_gradient` draws a straight line between two colours: the saturation and the value of each
-- pixel `i` of `n` are, within 1 and 1 / 128 for each pixel before it, those of the line that would
-- reach the end colour at pixel `n`, and lie between those of the two colours. The hue does the
-- same on the circle of 256 hues: forwards, backwards, the way that is not the longer one, or the
-- one that is not the shorter one, as the direction says. This is for colours of bytes and a
-- segment of fewer than 2 ^ 16 pixels whose array has a cell for each index from its start to its
-- end.
pub fill_gradient-track :
    (iter : GradientIter) (seg : Segment) (start_color end_color : Chsv) (dir : GradientDir)
    (n i : ℕ)
    → length seg.pixels ≡ n
    → n + seg.start_idx ≡ seg.end_idx + 1
    → n < 2 ^ 16
    → i < n
    → start_color.h < 256
    → start_color.s < 256
    → start_color.v < 256
    → end_color.h < 256
    → end_color.s < 256
    → end_color.v < 256
    → let ahead = u8 (end_color.h + 256 - start_color.h) in
      let back = u8 (start_color.h + 256 - end_color.h) in
      let turn = start_color.h + 256 in
      (seg' : Segment) × (c : Chsv) × (fill_gradient iter seg start_color end_color dir ≡ some seg')
      × (get_elem? seg'.pixels i ≡ some c)
      × ((fwd : Bool) × (x : ℕ) × Chosen dir fwd ahead back
          × (c.h ≡ u8 x)
          × CloseTo turn (if fwd then turn + ahead else turn - back) n i x)
      × CloseTo start_color.s end_color.s n i c.s
      × Between start_color.s end_color.s c.s
      × CloseTo start_color.v end_color.v n i c.v
      × Between start_color.v end_color.v c.v
unfolding fill_gradient accum_color iter_of
fill_gradient-track iter seg a b dir n i l size small h ha sa va hb sb vb =
    let iter' = iter_of iter a b dir n in
    let count : u16 (seg.end_idx + 0x1_0000 - seg.start_idx + 1) ≡ n = omega arith in
    let got = get_gradient_iter_lem iter a b dir n (omega arith) in
    let put : for_range n 0 gradient_pixel (seg.pixels, iter')
        ≡ some (colours n iter', steps n iter') =
      ap (λ t. for_range n 0 gradient_pixel (t, iter')) (sym (append-nil seg.pixels))
      ∙ (gradient_pixel-colours n 0 [] seg.pixels [] iter' l refl
          ∙ ap (λ t. some (t, steps n iter')) (append-nil (colours n iter'))) in
    let (hue, sat, val) = steps_lem i iter' (omega arith) (omega arith) (omega arith) in
    let fwd = is_fwd dir (u8 (b.h + 256 - a.h)) in
    let (x, eh, hue_line) = track-hue fwd a.h b.h n i ha hb (omega arith) (omega arith) in
    let (sat_line, sat_in) = track-CloseTo a.s b.s n i sa sb (omega arith) (omega arith) in
    let (val_line, val_in) = track-CloseTo a.v b.v n i va vb (omega arith) (omega arith) in
    (
      record seg { pixels = colours n iter'; mode = Mode.static },
      accum_color (steps i iter'),
      rw (fill_gradient, count, got, put) refl,
      get_elem?-colours n iter' i h,
      (fwd, x, is_fwd-Chosen dir a.h b.h ha hb, upper a.h _ i _ ha hue ∙ eh, hue_line),
      rw (upper a.s _ i _ sa sat) sat_line,
      rw (upper a.s _ i _ sa sat) sat_in,
      rw (upper a.v _ i _ va val) val_line,
      rw (upper a.v _ i _ va val) val_in,
    )
