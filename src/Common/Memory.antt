-- ===== src/Common/Memory.antt =====
-- The block copies of the sources over arrays with a known size. A copy that would leave its array
-- is a fault, `none`.
use zephyr_common.Common.Tests.{leb, ltb, lt→ltb, if◌then◌else◌}
use zephyr_common.Common.Lists.{
  length, take, drop, set, length-append, set-append, length-take, length-drop,
}
use Prim.Native.Nat.{ℕ, ◌+◌, ◌≤◌}
use mathlib.Core.List.{List, ◌∷◌, ◌++◌}
use mathlib.Core.Bool.{true}
use mathlib.Core.Path.{◌≡◌, ap, ◌∙◌}
use native.Mathlib.Omega.{arith}
use mathlib.Core.Option.{Option, none, some}

module _ {ℓ} {A : Type ℓ} where
  -- Reads `n` cells of `xs` from `off` on.
  abbrev pub slice : List A → ℕ → ℕ → Option (List A)
  slice xs off n = if leb (off + n) (length xs) then some (take n (drop off xs)) else none

  -- Overwrites the cells of `xs` from `off` on by `ys`.
  abbrev pub store : List A → ℕ → List A → Option (List A)
  store xs off ys =
      if leb (off + length ys) (length xs)
      then some (take off xs ++ (ys ++ drop (off + length ys) xs))
      else none

  -- memcpy(dst + at, src + from, n)
  abbrev pub memcpy : List A → ℕ → List A → ℕ → ℕ → Option (List A)
  memcpy dst at src from n = elim (slice src from n) [ none ↦ none | some ys ↦ store dst at ys ]

  -- A copy within the arrays.
  pub memcpy_lem :
      (dst : List A) (at : ℕ) (src : List A) (from n : ℕ)
      → from + n ≤ length src
      → at + n ≤ length dst
      → memcpy dst at src from n
        ≡ some (take at dst ++ (take n (drop from src) ++ drop (at + n) dst))
  memcpy_lem dst at src from n h k =
      let in_src : leb (from + n) (length src) ≡ true = ground arith in
      let size : length (take n (drop from src)) ≡ n =
        omega (arith, length-take n (drop from src), length-drop from src) in
      let in_dst : leb (at + length (take n (drop from src))) (length dst) ≡ true = ground arith in
      rw (memcpy, in_src, in_dst, size)

  -- xs[i] = v
  abbrev pub poke : List A → ℕ → A → Option (List A)
  poke xs i v = if ltb i (length xs) then some (set xs i v) else none

  pub poke-append :
      (pre rest : List A) (r : A) (i : ℕ) (v : A)
      → i ≡ length pre
      → poke (pre ++ r ∷ rest) i v ≡ some (pre ++ v ∷ rest)
  poke-append pre rest r i v e =
      let room : ltb i (length (pre ++ r ∷ rest)) ≡ true =
        lt→ltb _ _ (omega (arith, length-append pre (r ∷ rest))) in
      rw room (ap some (ap (λ i. set (pre ++ r ∷ rest) i v) e ∙ set-append pre rest r v))

-- A step that may fault, then the rest.
infixl 5 ◌>>=◌
abbrev pub ◌>>=◌ {ℓ κ} : {A : Type ℓ} {B : Type κ} → Option A → (A → Option B) → Option B
none >>= f = none
some a >>= f = f a

-- What holds of the result where there is no fault.
abbrev pub AllSome {ℓ} : {A : Type ℓ} → (A → Type 0) → Option A → Type 0
AllSome P none = Unit
AllSome P (some a) = P a

pub bind-AllSome {ℓ κ} :
    {A : Type ℓ} {B : Type κ} (P : A → Type 0) (Q : B → Type 0) (o : Option A) (f : A → Option B)
    → AllSome P o
    → ((a : A) → P a → AllSome Q (f a))
    → AllSome Q (o >>= f)
bind-AllSome P Q none f h k = tt
bind-AllSome P Q (some a) f h k = k a h
