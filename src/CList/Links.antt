-- ===== src/CList/Links.antt =====
-- Nodes that stand one behind the other, and what keeps them so.
use zephyr_common.Common.{ℕ, ◌≡◌, ◌∙◌, true, false, List, [], ◌∷◌, ◌++◌, ◌==◌, arith}
use zephyr_common.CList.{Heap, put}

-- `a`, the nodes of the list, and `b` are linked both ways.
unfoldable pub Linked : Heap → ℕ → List ℕ → ℕ → Type 0
Linked h a [] b = (h.next a ≡ b) × (h.prev b ≡ a)
Linked h a (x ∷ xs) b = (h.next a ≡ x) × (h.prev x ≡ a) × Linked h x xs b

unfoldable pub NotIn : ℕ → List ℕ → Type 0
NotIn x [] = Unit
NotIn x (y ∷ ys) = ((y == x) ≡ false) × NotIn x ys

unfoldable pub Distinct : List ℕ → Type 0
unfolding NotIn
Distinct [] = Unit
Distinct (x ∷ xs) = NotIn x xs × Distinct xs

abbrev pub last_of : ℕ → List ℕ → ℕ
last_of a [] = a
last_of a (x ∷ xs) = last_of x xs

abbrev pub first_of : List ℕ → ℕ → ℕ
first_of [] b = b
first_of (x ∷ xs) b = x

pub flip : (x y : ℕ) → (x == y) ≡ false → (y == x) ≡ false
flip x y h = ground arith

pub NotIn-last_of :
    (a x : ℕ) (xs ys : List ℕ) → NotIn a (x ∷ (xs ++ ys)) → (last_of x xs == a) ≡ false
unfolding NotIn
NotIn-last_of a x [] ys (h, k) = h
NotIn-last_of a x (z ∷ xs) ys (h, k) = NotIn-last_of a z xs ys k

pub NotIn-first_of :
    (x b : ℕ) (xs ys : List ℕ)
    → NotIn x (xs ++ ys)
    → (b == x) ≡ false
    → (first_of ys b == x) ≡ false
unfolding NotIn
NotIn-first_of x b [] [] h k = k
NotIn-first_of x b [] (y ∷ ys) h k = h.0
NotIn-first_of x b (z ∷ xs) ys h k = NotIn-first_of x b xs ys h.1 k

-- The two nodes where a run is cut.
pub cut_links :
    (h : Heap) (a : ℕ) (xs ys : List ℕ) (b : ℕ)
    → Linked h a (xs ++ ys) b
    → (h.next (last_of a xs) ≡ first_of ys b) × (h.prev (first_of ys b) ≡ last_of a xs)
unfolding Linked
cut_links h a [] [] b e = e
cut_links h a [] (y ∷ ys) b (e, f, g) = (e, f)
cut_links h a (x ∷ xs) ys b (e, f, g) = cut_links h x xs ys b g

-- No link of the run is the link from `p` or the link to `s`.
unfoldable pub Off : ℕ → ℕ → ℕ → List ℕ → Type 0
Off p s a [] = Unit
Off p s a (x ∷ xs) = ((a == p) ≡ false) × ((x == s) ≡ false) × Off p s x xs

-- Before the cut, and behind it.
pub prefix-Off :
    (a : ℕ) (xs ys : List ℕ) (b : ℕ)
    → Distinct (a ∷ (xs ++ ys))
    → NotIn b (xs ++ ys)
    → Off (last_of a xs) (first_of ys b) a xs
unfolding Off NotIn Distinct
prefix-Off a [] ys b d n = tt
prefix-Off a (x ∷ xs) ys b (da, d) n = (
  flip _ _ (NotIn-last_of a x xs ys da),
  flip _ _ (NotIn-first_of x b xs ys d.0 (flip _ _ n.0)),
  prefix-Off x xs ys b d n.1,
)

pub suffix-Off :
    (p s y : ℕ) (ys : List ℕ) (b : ℕ)
    → NotIn p (y ∷ ys)
    → NotIn s (ys ++ b ∷ [])
    → Off p s y (ys ++ b ∷ [])
unfolding Off NotIn
suffix-Off p s y [] b h k = (h.0, k.0, tt)
suffix-Off p s y (z ∷ ys) b h k = (h.0, k.0, suffix-Off p s z ys b h.1 k.1)

pub new-Off : (new a : ℕ) (xs : List ℕ) → NotIn new (a ∷ xs) → Off new new a xs
unfolding Off NotIn
new-Off new a [] h = tt
new-Off new a (x ∷ xs) h = (h.0, h.1.0, new-Off new x xs h.1)

-- The links of a run are the same in both stores.
unfoldable pub Keep : Heap → Heap → ℕ → List ℕ → Type 0
Keep h k a [] = Unit
Keep h k a (x ∷ xs) = (k.next a ≡ h.next a) × (k.prev x ≡ h.prev x) × Keep h k x xs

pub Linked-Keep :
    (h k : Heap) (a : ℕ) (xs : List ℕ) (b : ℕ)
    → Keep h k a (xs ++ b ∷ [])
    → Linked h a xs b
    → Linked k a xs b
unfolding Linked Keep
Linked-Keep h k a [] b (n, p, t) (e, f) = (n ∙ e, p ∙ f)
Linked-Keep h k a (x ∷ xs) b (n, p, t) (e, f, g) = (n ∙ e, p ∙ f, Linked-Keep h k x xs b t g)

-- Only what stands behind a run changes.
pub Linked-prefix :
    (h k : Heap) (a : ℕ) (xs ys zs : List ℕ) (b : ℕ)
    → Keep h k a xs
    → (Linked h (last_of a xs) ys b → Linked k (last_of a xs) zs b)
    → Linked h a (xs ++ ys) b
    → Linked k a (xs ++ zs) b
unfolding Linked Keep
Linked-prefix h k a [] ys zs b keep change e = change e
Linked-prefix h k a (x ∷ xs) ys zs b (n, p, t) change (e, f, g) =
    (n ∙ e, p ∙ f, Linked-prefix h k x xs ys zs b t change g)

pub put_same : (f : ℕ → ℕ) (at v : ℕ) → put f at v at ≡ v
unfolding put
put_same f at v = let same : (at == at) ≡ true = ground arith in rw (put, same)

pub put_other : (f : ℕ → ℕ) (at v a : ℕ) → (a == at) ≡ false → put f at v a ≡ f a
unfolding put
put_other f at v a h = rw (put, h)
