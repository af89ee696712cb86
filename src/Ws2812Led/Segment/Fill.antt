-- ===== src/Ws2812Led/Segment/Fill.antt =====
-- What the methods that set pixels leave, and where they leave the pixel array.
use zephyr_common.Common.{
  ℕ, zero, suc, ◌+◌, ◌≤◌, ◌<◌, ◌≡◌, refl, sym, ap, ap₂, ◌∙◌, true, false, List, [], ◌∷◌, ◌++◌,
  Option, none, some, arith, length, set, replicate, ltb, leb, length-set, get_elem?, lt→ltb,
  length-append, append_assoc, append-nil, length-replicate,
}
use zephyr_common.Common.Memory.{poke, poke-append}
use zephyr_common.Common.World.{for_range, Ensures, Ensures-for_range}
use zephyr_common.Ws2812Led.Colour.{Chsv}
use zephyr_common.Ws2812Led.Segment.{Segment, static, set_all, fill_solid, single}

-- The length of an array, as a property of a result.
abbrev pub Long : {A : Type 0} → ℕ → List A → Type 0
Long n xs = length xs ≡ n

pub poke-Ensures :
    {A : Type 0} (n : ℕ) (xs : List A) (i : ℕ) (v : A)
    → length xs ≡ n
    → i < n
    → Ensures (Long n) (poke xs i v)
poke-Ensures n xs i v e h =
    let room : ltb i (length xs) ≡ true = lt→ltb _ _ (omega arith) in
    (set xs i v, rw (room) refl, length-set xs i v ∙ e)

pub get_elem?-Ensures :
    {A : Type 0} (xs : List A) (i : ℕ) → i < length xs → Ensures (λ x. Unit) (get_elem? xs i)
get_elem?-Ensures [] i h = absurd (omega arith)
get_elem?-Ensures (x ∷ xs) zero h = (x, refl, tt)
get_elem?-Ensures (x ∷ xs) (suc i) h = get_elem?-Ensures xs i (omega arith)

pub set_all-Ensures :
    {A : Type 0} (n : ℕ) (color : A) (ps : List A)
    → length ps ≡ n
    → Ensures (Long n) (set_all n color ps)
set_all-Ensures n color ps e =
    Ensures-for_range (Long n) n (λ i ps. poke ps i color)
      (λ i ps h l. poke-Ensures n ps i color l (omega arith)) n 0 ps (omega arith) e

-- A loop that writes the cells `cs` one after another replaces as many cells by them.
pub for_range-overwrite :
    {A : Type 0} (body : ℕ → List A → Option (List A)) (start : ℕ) (cs : List A) (i : ℕ)
    (pre mid post : List A)
    → length mid ≡ length cs
    → i + start ≡ length pre
    → ((k : ℕ) (c : A) (leds : List A)
        → get_elem? cs k ≡ some c
        → body (i + k) leds ≡ poke leds (i + k + start) c)
    → for_range (length cs) i body (pre ++ (mid ++ post)) ≡ some (pre ++ (cs ++ post))
unfolding for_range
for_range-overwrite body start [] i pre [] post l e h = refl
for_range-overwrite body start [] i pre (m ∷ mid) post l e h = absurd (omega arith)
for_range-overwrite body start (c ∷ cs) i pre [] post l e h = absurd (omega arith)
for_range-overwrite body start (c ∷ cs) i pre (m ∷ mid) post l e h =
    let at : i + 0 ≡ i = omega arith in
    let first : body i (pre ++ m ∷ (mid ++ post)) ≡ some (pre ++ c ∷ (mid ++ post)) =
      ap (λ j. body j (pre ++ m ∷ (mid ++ post))) (sym at)
      ∙ (h 0 c (pre ++ m ∷ (mid ++ post)) refl
          ∙ poke-append pre (mid ++ post) m (i + 0 + start) c (omega arith)) in
    let later =
      for_range-overwrite body start cs (i + 1) (pre ++ c ∷ []) mid post (omega arith)
        (omega (arith, length-append pre (c ∷ [])))
        (λ k d leds g. let j : i + 1 + k ≡ i + suc k = omega arith in rw j (h (suc k) d leds g)) in
    rw (for_range, first)
      (ap (for_range (length cs) (i + 1) body) (sym (append_assoc pre (c ∷ []) (mid ++ post)))
        ∙ (later ∙ ap some (append_assoc pre (c ∷ []) (cs ++ post))))

pub get_elem?-replicate :
    {A : Type 0} (n : ℕ) (a : A) (k : ℕ) (b : A) → get_elem? (replicate n a) k ≡ some b → a ≡ b
get_elem?-replicate zero a k b h = cc
get_elem?-replicate (suc n) a zero b h = cc
get_elem?-replicate (suc n) a (suc k) b h = get_elem?-replicate n a k b h

set_all-replicate :
    {A : Type 0} (n : ℕ) (color : A) (ps : List A)
    → length ps ≡ n
    → set_all n color ps ≡ some (replicate n color)
set_all-replicate {A} n color ps e =
    let body : ℕ → List A → Option (List A) = λ i ps. poke ps i color in
    let size = length-replicate n color in
    let end : ps ++ [] ≡ ps = append-nil ps in
    ap (λ k. for_range k 0 body ps) (sym size)
    ∙ (ap (for_range (length (replicate n color)) 0 body) (sym end)
        ∙ (for_range-overwrite body 0 (replicate n color) 0 [] ps [] (e ∙ sym size) (omega arith)
              (λ k c leds h.
                let j : 0 + k + 0 ≡ 0 + k = omega arith in
                ap₂ (λ i c. poke leds i c) (sym j) (get_elem?-replicate n color k c h))
            ∙ ap some (append-nil (replicate n color))))

-- `fill_solid` gives every pixel of a segment the colour and changes nothing else but the mode, to
-- static; for a segment whose array has as many cells as it has pixels.
pub fill_solid-replicate :
    (seg : Segment) (color : Chsv)
    → length seg.pixels ≡ seg.num_pixels
    → fill_solid seg color
      ≡ some (record seg { pixels = replicate seg.num_pixels color; mode = static })
unfolding fill_solid
fill_solid-replicate seg color e =
    let done = set_all-replicate seg.num_pixels color seg.pixels e in rw (fill_solid, done) refl

-- `single` takes the index for one on the strip in its test and for one in the segment in the
-- array: in a segment that does not start at 0, the index of its last pixel leaves the array, and
-- index 0 is refused.
pub single_overrun :
    (seg : Segment) (color : Chsv)
    → length seg.pixels ≡ seg.num_pixels
    → seg.num_pixels + seg.start_idx ≡ seg.end_idx + 1
    → 1 ≤ seg.num_pixels
    → 1 ≤ seg.start_idx
    → (single seg color seg.end_idx ≡ none) × (single seg color 0 ≡ some seg)
unfolding single
single_overrun seg color e n one start =
    let low : leb seg.start_idx seg.end_idx ≡ true = ground arith in
    let high : leb seg.end_idx seg.end_idx ≡ true = ground arith in
    let out : ltb seg.end_idx (length seg.pixels) ≡ false = ground arith in
    let zero_low : leb seg.start_idx 0 ≡ false = ground arith in
    (rw (single, low, high, out) refl, rw (single, zero_low) refl)
