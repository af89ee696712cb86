-- ===== src/SwFifo/Wide.antt =====
-- `circWrite` at items of several bytes, and `SwFifo_init`.
use zephyr_common.Common.{
  ℕ, zero, suc, ◌+◌, ◌-◌, ◌*◌, ◌≤◌, ◌<◌, ◌^◌, ◌≡◌, ◌≢◌, ◌⊎◌, refl, sym, ap, ◌∙◌, inl, inr, List, [],
  ◌∷◌, none, Option, ◌++◌, some, arith, ltb, ◌==◌, true, Bool, Bool-cases, length, take, drop,
  length-append, u32, add32, sub32, get_elem?, length-take, length-drop, ok, err, einval, enomem,
  Option-cases, ==_iff,
}
use zephyr_common.Common.Memory.{memcpy, ◌>>=◌}
use zephyr_common.Ring.{window-zero}
use zephyr_common.SwFifo.{SwFifo, count, mem_size, circ_write, init}
use zephyr_common.SwFifo.Valid.{IsValid, contents, count-span}

get_elem?-take-drop :
    (xs ys : List ℕ) (w n : ℕ)
    → 0 < n
    → w < length xs
    → get_elem? (take n (drop w xs) ++ ys) 0 ≡ get_elem? xs w
get_elem?-take-drop [] ys w n h k = absurd (omega arith)
get_elem?-take-drop (x ∷ xs) ys w zero h k = absurd (omega arith)
get_elem?-take-drop (x ∷ xs) ys zero (suc n) h k = refl
get_elem?-take-drop (x ∷ xs) ys (suc w) (suc n) h k =
    get_elem?-take-drop xs ys w (suc n) h (omega arith)

-- A copy into the start of the memory puts the byte at `from` into its first cell.
memcpy_first :
    (mem src : List ℕ) (from n : ℕ)
    → 0 < n
    → from + n ≤ length src
    → n ≤ length mem
    → (out : List ℕ) × (memcpy mem 0 src from n ≡ some out) × (get_elem? out 0 ≡ get_elem? src from)
memcpy_first mem src from n h k l =
    let ys = take n (drop from src) in
    let ly : length ys ≡ n = omega (arith, length-take n (drop from src), length-drop from src) in
    (
      ys ++ drop (0 + length ys) mem,
      ground (arith, ly),
      get_elem?-take-drop src (drop (0 + length ys) mem) from n h (omega arith),
    )

memcpy-length :
    (mem src : List ℕ) (at n : ℕ)
    → n ≤ length src
    → at + n ≤ length mem
    → (out : List ℕ) × (memcpy mem at src 0 n ≡ some out) × (length out ≡ length mem)
memcpy-length mem src at n k l =
    let ly : length (take n src) ≡ n = omega (arith, length-take n src) in
    let tail = drop (at + length (take n src)) mem in
    (
      take at mem ++ (take n src ++ tail),
      ground (arith, ly),
      omega (
        arith,
        ly,
        length-append (take at mem) (take n src ++ tail),
        length-append (take n src) tail,
        length-take at mem,
        length-drop (at + length (take n src)) mem,
      ),
    )

-- Where a write of items of `s` bytes goes round the end of the memory after `w` items, the first
-- cell of the memory gets the byte at index `w` of the source, a count of items, and so not the
-- byte at `w * s`, the start of the item that belongs there, if those two bytes differ.
pub circ_write_wide :
    (f : SwFifo) (bytes : List ℕ) (num : ℕ)
    → 2 ≤ f.item_size
    → length f.mem ≡ (f.depth + 1) * f.item_size
    → length f.mem < 2 ^ 31
    → f.wr_idx ≤ f.depth
    → num ≤ f.depth
    → f.depth + 1 < f.wr_idx + num
    → num * f.item_size ≤ length bytes
    → let w = f.depth - f.wr_idx + 1 in
      get_elem? bytes w ≢ get_elem? bytes (w * f.item_size)
      → (mem : List ℕ) × (circ_write f bytes num ≡ some mem)
        × (get_elem? mem 0 ≡ get_elem? bytes w)
        × (get_elem? mem 0 ≢ get_elem? bytes (w * f.item_size))
circ_write_wide f bytes num wide len small wr fit wraps src differ =
    let s = f.item_size in
    let w = f.depth - f.wr_idx + 1 in
    let r = num - w in
    let depth_small : f.depth < 2 ^ 30 = grind arith in
    let ew : add32 (sub32 f.depth f.wr_idx) 1 ≡ w = omega arith in
    let er : sub32 num w ≡ r = omega arith in
    let sum : add32 f.wr_idx num ≡ f.wr_idx + num = omega arith in
    let turn : ltb f.depth (f.wr_idx + num) ≡ true = ground arith in
    let parts : f.wr_idx * s + w * s ≡ (f.depth + 1) * s =
      let e : f.wr_idx + w ≡ f.depth + 1 = omega arith in omega (arith, ap (λ (t : ℕ). t * s) e) in
    let halves : w * s + r * s ≡ num * s =
      let e : w + r ≡ num = omega arith in omega (arith, ap (λ (t : ℕ). t * s) e) in
    let le_rs : r * s ≤ (f.depth + 1) * s = grind arith in
    let le_ws : w ≤ w * s = grind arith in
    let pos : 0 < r * s = grind arith in
    let p : u32 (f.wr_idx * s) ≡ f.wr_idx * s = omega arith in
    let a : u32 (w * s) ≡ w * s = omega arith in
    let b : u32 (r * s) ≡ r * s = omega arith in
    let (m1, e1, l1) =
      memcpy-length f.mem bytes (f.wr_idx * s) (w * s) (omega arith) (omega arith) in
    let (m2, e2, first) = memcpy_first m1 bytes w (r * s) pos (omega arith) (omega arith) in
    let calls : circ_write f bytes num
        ≡ (memcpy f.mem (f.wr_idx * s) bytes 0 (w * s) >>= λ m. memcpy m 0 bytes w (r * s)) =
      unfold circ_write mem_size in rw (sum, turn, ew, er, p, a, b) in
    (
      m2,
      calls ∙ (ap (λ o. o >>= λ m. memcpy m 0 bytes w (r * s)) e1 ∙ e2),
      first,
      λ same. differ (sym first ∙ same),
    )

module _ (f : SwFifo) (depth : ℕ) (m : List ℕ) (safe : Bool) (small : depth < 2 ^ 31)
    (block : length m ≡ depth + 1) where
  abbrev fresh : SwFifo
  fresh = record f {
    depth = depth;
    item_size = 1;
    threadsafe = safe;
    wr_idx = 0;
    rd_idx = 0;
    mem = m;
  }

  fresh-IsValid : IsValid fresh
  fresh-IsValid = omega arith

  fresh-contents : contents fresh ≡ []
  fresh-contents =
      let c : count fresh ≡ 0 = count-span fresh-IsValid ∙ ground arith in rw c (window-zero m 0)

-- `SwFifo_init` of a fifo of bytes, given a `malloc` that returns blocks of the size asked for or
-- nothing, and a caller whose static memory has the size that it declares: it fails with -EINVAL
-- exactly when there is static memory of another size than `depth + 1`, fails with -ENOMEM exactly
-- when there is none and `malloc` finds none, and otherwise leaves a valid, empty fifo of that
-- depth.
pub init_lem :
    (malloc : ℕ → Option (List ℕ)) (f : SwFifo) (depth : ℕ) (static_mem : Option (List ℕ))
    (size : ℕ) (safe : Bool)
    → ((n : ℕ) (m : List ℕ) → malloc n ≡ some m → length m ≡ n)
    → ((m : List ℕ) → static_mem ≡ some m → length m ≡ size)
    → depth < 2 ^ 31
    → let made = init malloc f depth 1 static_mem size safe in
      (((m : List ℕ) × (static_mem ≡ some m) × (size ≢ depth + 1) × (made.0 ≡ err einval))
        ⊎ ((static_mem ≡ none) × (malloc (depth + 1) ≡ none) × (made.0 ≡ err enomem)))
      ⊎ ((made.0 ≡ ok 0) × IsValid made.1 × (contents made.1 ≡ []) × (made.1.depth ≡ depth))
unfolding init
init_lem malloc f depth (some m) size safe blocks static small =
    let bytes : u32 (add32 depth 1 * 1) ≡ depth + 1 = omega arith in
    elim (Bool-cases (size == (depth + 1))) [
      | inl right ↦
          let es : size ≡ depth + 1 = (==_iff _ _).0 right in
          rw (bytes, right)
            (inr (
              refl,
              fresh-IsValid f depth m safe small (static m refl ∙ es),
              fresh-contents f depth m safe small (static m refl ∙ es),
              refl,
            ))
      | inr wrong ↦ rw (bytes, wrong) (inl (inl (m, refl, ground arith, refl)))
    ]
init_lem malloc f depth none size safe blocks static small =
    let bytes : u32 (add32 depth 1 * 1) ≡ depth + 1 = omega arith in
    elim (Option-cases (malloc (depth + 1))) [
      | inl out ↦ rw (bytes, out, init) (inl (inr (refl, refl, refl)))
      | inr (m, got) ↦
          rw (bytes, got, init)
            (inr (
              refl,
              fresh-IsValid f depth m safe small (blocks (depth + 1) m got),
              fresh-contents f depth m safe small (blocks (depth + 1) m got),
              refl,
            ))
    ]
