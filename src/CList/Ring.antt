-- ===== src/CList/Ring.antt =====
-- A list and its head: nodes are put in and taken out at any place.
use zephyr_common.Common.{ℕ, ◌≡◌, ◌∙◌, false, List, [], ◌∷◌, ◌++◌, ◌==◌}
use zephyr_common.CList.{Heap, put}
use zephyr_common.CList.Links.{
  Linked, NotIn, Distinct, last_of, first_of, flip, Off, suffix-Off, new-Off, Keep, Linked-Keep,
  put_same, put_other,
}

-- The nodes of the list with this head, in their order.
abbrev pub IsList : Heap → ℕ → List ℕ → Type 0
IsList h list nodes = Linked h list nodes list × Distinct (list ∷ nodes)

pub NotIn-right : (x : ℕ) (xs ys : List ℕ) → NotIn x (xs ++ ys) → NotIn x ys
unfolding NotIn
NotIn-right x [] ys h = h
NotIn-right x (z ∷ xs) ys h = NotIn-right x xs ys h.1

pub NotIn-left : (x : ℕ) (xs ys : List ℕ) → NotIn x (xs ++ ys) → NotIn x xs
unfolding NotIn
NotIn-left x [] ys h = tt
NotIn-left x (z ∷ xs) ys h = (h.0, NotIn-left x xs ys h.1)

NotIn-end : (x b : ℕ) (xs : List ℕ) → NotIn x xs → (b == x) ≡ false → NotIn x (xs ++ b ∷ [])
unfolding NotIn
NotIn-end x b [] h k = (k, tt)
NotIn-end x b (y ∷ xs) h k = (h.0, NotIn-end x b xs h.1 k)

NotIn-insert :
    (x new : ℕ) (xs ys : List ℕ)
    → NotIn x (xs ++ ys)
    → (new == x) ≡ false
    → NotIn x (xs ++ new ∷ ys)
unfolding NotIn
NotIn-insert x new [] ys h k = (k, h)
NotIn-insert x new (z ∷ xs) ys h k = (h.0, NotIn-insert x new xs ys h.1 k)

pub NotIn-remove : (x y : ℕ) (xs ys : List ℕ) → NotIn x (xs ++ y ∷ ys) → NotIn x (xs ++ ys)
unfolding NotIn
NotIn-remove x y [] ys h = h.1
NotIn-remove x y (z ∷ xs) ys h = (h.0, NotIn-remove x y xs ys h.1)

pub Distinct-right : (xs ys : List ℕ) → Distinct (xs ++ ys) → Distinct ys
unfolding Distinct
Distinct-right [] ys d = d
Distinct-right (x ∷ xs) ys d = Distinct-right xs ys d.1

pub Distinct-insert :
    (new : ℕ) (xs ys : List ℕ)
    → NotIn new (xs ++ ys)
    → Distinct (xs ++ ys)
    → Distinct (xs ++ new ∷ ys)
unfolding Distinct NotIn
Distinct-insert new [] ys n d = (n, d)
Distinct-insert new (x ∷ xs) ys n d =
    (NotIn-insert x new xs ys d.0 (flip _ _ n.0), Distinct-insert new xs ys n.1 d.1)

pub Distinct-remove : (y : ℕ) (xs ys : List ℕ) → Distinct (xs ++ y ∷ ys) → Distinct (xs ++ ys)
unfolding Distinct
Distinct-remove y [] ys d = d.1
Distinct-remove y (x ∷ xs) ys d = (NotIn-remove x y xs ys d.0, Distinct-remove y xs ys d.1)

pub last_of-NotIn : (a : ℕ) (xs ys : List ℕ) → Distinct (a ∷ (xs ++ ys)) → NotIn (last_of a xs) ys
unfolding Distinct
last_of-NotIn a [] ys d = d.0
last_of-NotIn a (x ∷ xs) ys d = last_of-NotIn x xs ys d.1

-- The store with `new` between `p` and `s`, and with `p` and `s` side by side.
abbrev pub between : Heap → ℕ → ℕ → ℕ → Heap
between h p s new = record {
  next = put (put h.next p new) new s;
  prev = put (put h.prev new p) s new;
}

abbrev pub beside : Heap → ℕ → ℕ → Heap
beside h p s = record { next = put h.next p s; prev = put h.prev s p }

pub between-Keep :
    (h : Heap) (p s new a : ℕ) (xs : List ℕ)
    → Off p s a xs
    → Off new new a xs
    → Keep h (between h p s new) a xs
unfolding Off Keep
between-Keep h p s new a [] o n = tt
between-Keep h p s new a (x ∷ xs) (op, os, o) (na, nx, n) = (
  put_other _ new s a na ∙ put_other h.next p new a op,
  put_other _ s new x os ∙ put_other h.prev new p x nx,
  between-Keep h p s new x xs o n,
)

pub beside-Keep : (h : Heap) (p s a : ℕ) (xs : List ℕ) → Off p s a xs → Keep h (beside h p s) a xs
unfolding Off Keep
beside-Keep h p s a [] o = tt
beside-Keep h p s a (x ∷ xs) (op, os, o) =
    (put_other h.next p s a op, put_other h.prev s p x os, beside-Keep h p s x xs o)

-- The links at the new node.
module _ (h : Heap) (p s new : ℕ) (not_p : (p == new) ≡ false) (not_s : (s == new) ≡ false) where
  to_new : ((between h p s new).next p ≡ new) × ((between h p s new).prev new ≡ p)
  to_new = (
    put_other _ new s p not_p ∙ put_same h.next p new,
    put_other _ s new new (flip s new not_s) ∙ put_same h.prev new p,
  )

  from_new : ((between h p s new).next new ≡ s) × ((between h p s new).prev s ≡ new)
  from_new = (put_same _ new s, put_same _ s new)

pub between-Linked :
    (h : Heap) (p new : ℕ) (ys : List ℕ) (b : ℕ)
    → NotIn p ys
    → NotIn b ys
    → Distinct ys
    → NotIn new (p ∷ ys)
    → (b == new) ≡ false
    → Linked h p ys b
    → Linked (between h p (first_of ys b) new) p (new ∷ ys) b
unfolding Linked NotIn Distinct
between-Linked h p new [] b np nb d n k e =
    let (t, u) = to_new h p b new n.0 k in let (v, w) = from_new h p b new n.0 k in (t, u, (v, w))
between-Linked h p new (y ∷ ys) b np nb d n k (e, f, g) =
    let (t, u) = to_new h p y new n.0 n.1.0 in
    let (v, w) = from_new h p y new n.0 n.1.0 in
    let keep : Keep h (between h p y new) y (ys ++ b ∷ []) =
      between-Keep h p y new y (ys ++ b ∷ [])
        (suffix-Off p y y ys b np (NotIn-end y b ys d.0 (flip _ _ nb.0)))
        (new-Off new y (ys ++ b ∷ []) (NotIn-end new b (y ∷ ys) n.1 k)) in
    (t, u, (v, w, Linked-Keep h (between h p y new) y ys b keep g))

pub beside-Linked :
    (h : Heap) (p x : ℕ) (ys : List ℕ) (b : ℕ)
    → NotIn p ys
    → NotIn b ys
    → Distinct ys
    → Linked h p (x ∷ ys) b
    → Linked (beside h p (first_of ys b)) p ys b
unfolding Linked NotIn Distinct
beside-Linked h p x [] b np nb d e = (put_same h.next p b, put_same h.prev b p)
beside-Linked h p x (y ∷ ys) b np nb d (e, f, g) =
    let keep : Keep h (beside h p y) y (ys ++ b ∷ []) =
      beside-Keep h p y y (ys ++ b ∷ [])
        (suffix-Off p y y ys b np (NotIn-end y b ys d.0 (flip _ _ nb.0))) in
    (put_same h.next p y, put_same h.prev y p, Linked-Keep h (beside h p y) y ys b keep g.2)
