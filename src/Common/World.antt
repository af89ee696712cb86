-- ===== src/Common/World.antt =====
-- What the kernel answers: the values of its random generator and of its cycle counter, one after
-- another, and the counter's rate. An effect is given the kernel's state and may fault, `none`.
use Prim.Native.Nat.{ℕ, zero, suc, ◌+◌, ◌≤◌, ◌%◌, ◌^◌}
use mathlib.Core.Path.{◌≡◌, refl, subst}
use mathlib.Core.Bool.{Bool, true, false}
use mathlib.Core.Option.{Option, none, some}
use native.Mathlib.Omega.{arith}

pub record World : Type 0 where
  pub rand : ℕ → ℕ
  pub drawn : ℕ
  pub clock : ℕ → ℕ
  pub reads : ℕ
  pub hz : ℕ

abbrev pub Eff : Type 0 → Type 0
Eff A = World → Option (A × World)

abbrev pub pure : {A : Type 0} → A → Eff A
pure a w = some (a, w)

infixl 5 ◌>>=◌
abbrev pub ◌>>=◌ : {A B : Type 0} → Eff A → (A → Eff B) → Eff B
◌>>=◌ m f w = elim (m w) [ none ↦ none | some (a, w') ↦ f a w' ]

-- A step that does not ask the kernel.
abbrev pub lift : {A : Type 0} → Option A → Eff A
lift none w = none
lift (some a) w = some (a, w)

-- The next value of the generator.
abbrev pub random : Eff ℕ
random w = some (w.rand w.drawn, record w { drawn = w.drawn + 1 })

-- `k_cycle_get_32()`, a uint32_t.
abbrev pub cycles : Eff ℕ
cycles w = some (w.clock w.reads % 2 ^ 32, record w { reads = w.reads + 1 })

abbrev pub rate : Eff ℕ
rate w = some (w.hz, w)

-- for (i = 0; i < n; i++) s = body i s, from `i` on with `left` rounds left.
unfoldable pub for_range : {S : Type 0} → ℕ → ℕ → (ℕ → S → Option S) → S → Option S
for_range zero i body s = some s
for_range (suc left) i body s = elim (body i s) [
  | none ↦ none
  | some s' ↦ for_range left (i + 1) body s'
]

unfoldable pub for_eff : {S : Type 0} → ℕ → ℕ → (ℕ → S → Eff S) → S → Eff S
unfolding for_range
for_eff left i body s w = for_range left i (λ i r. body i r.0 r.1) (s, w)

-- A result that is no fault and has a property.
abbrev pub Ensures : {A : Type 0} → (A → Type 0) → Option A → Type 0
Ensures {A} P o = (a : A) × (o ≡ some a) × P a

-- An effect that never faults, whatever the kernel answers.
abbrev pub Safe : {A : Type 0} → (A → Type 0) → Eff A → Type 0
Safe {A} P m = (w : World) → (a : A) × (w' : World) × (m w ≡ some (a, w')) × P a

pub Safe-bind :
    {A B : Type 0} (P : A → Type 0) (Q : B → Type 0) (m : Eff A) (f : A → Eff B)
    → Safe P m
    → ((a : A) → P a → Safe Q (f a))
    → Safe Q (m >>= f)
Safe-bind P Q m f h k w =
    let (a, w1, e, p) = h w in let (b, w2, d, q) = k a p w1 in (b, w2, rw (e, ◌>>=◌) d, q)

pub Safe-lift : {A : Type 0} (P : A → Type 0) (o : Option A) → Ensures P o → Safe P (lift o)
Safe-lift P o (a, e, p) w = (a, w, rw e refl, p)

pub Safe-random : Safe (λ n. Unit) random
Safe-random w = (w.rand w.drawn, _, refl, tt)

pub Safe-cycles : Safe (λ n. Unit) cycles
Safe-cycles w = (w.clock w.reads % 2 ^ 32, _, refl, tt)

pub Safe-rate : Safe (λ n. Unit) rate
Safe-rate w = (w.hz, w, refl, tt)

-- The rule for a loop with an invariant.
pub Ensures-for_range :
    {S : Type 0} (P : S → Type 0) (n : ℕ) (body : ℕ → S → Option S)
    → ((i : ℕ) (s : S) → suc i ≤ n → P s → Ensures P (body i s))
    → (left i : ℕ) (s : S) → i + left ≤ n
    → P s
    → Ensures P (for_range left i body s)
unfolding for_range
Ensures-for_range P n body keep zero i s h p = (s, refl, p)
Ensures-for_range P n body keep (suc left) i s h p =
    let (s1, e, p1) = keep i s (omega arith) p in
    let (s2, d, p2) = Ensures-for_range P n body keep left (i + 1) s1 (omega arith) p1 in
    (s2, rw (for_range, e) d, p2)

pub Safe-for_eff :
    {S : Type 0} (P : S → Type 0) (n : ℕ) (body : ℕ → S → Eff S)
    → ((i : ℕ) (s : S) → suc i ≤ n → P s → Safe P (body i s))
    → (s : S) → P s
    → Safe P (for_eff n 0 body s)
unfolding for_eff
Safe-for_eff {S} P n body keep s p w =
    let (r, e, q) =
      Ensures-for_range (λ (r : S × World). P r.0) n (λ i r. body i r.0 r.1)
        (λ i r h q. let (a, w1, d, q1) = keep i r.0 h q r.1 in ((a, w1), d, q1)) n 0 (s, w)
        (omega arith) p in
    (r.0, r.1, e, q)

pub Ensures-bind :
    {A B : Type 0} (P : A → Type 0) (Q : B → Type 0) (o : Option A) (f : A → Option B)
    → Ensures P o
    → ((a : A) → P a → Ensures Q (f a))
    → Ensures Q (elim o [ none ↦ none | some a ↦ f a ])
Ensures-bind P Q none f (a, e, p) k = cc
Ensures-bind P Q (some b) f (a, e, p) k = k b (subst P (cc) p)

pub Safe-pure : {A : Type 0} (P : A → Type 0) (a : A) → P a → Safe P (pure a)
Safe-pure P a p w = (a, w, refl, p)

-- Both branches of a test.
pub Ensures-cases :
    {A : Type 0} (P : A → Type 0) (b : Bool) (x y : Option A)
    → Ensures P x
    → Ensures P y
    → Ensures P (elim b [ true ↦ x | false ↦ y ])
Ensures-cases P true x y p q = p
Ensures-cases P false x y p q = q

pub Safe-cases :
    {A : Type 0} (P : A → Type 0) (b : Bool) (x y : Eff A)
    → Safe P x
    → Safe P y
    → Safe P (elim b [ true ↦ x | false ↦ y ])
Safe-cases P true x y p q = p
Safe-cases P false x y p q = q

pub Eff-cases_true :
    {A : Type 0} (b : Bool) (x y : Eff A) (w : World)
    → b ≡ true
    → (elim b as (λ c. Eff A) [ true ↦ x | false ↦ y ]) w ≡ x w
Eff-cases_true b x y w e = rw e refl
