-- ===== src/CList/Edit.antt =====
-- Inserting into a list and removing from it.
use zephyr_common.Common.{ℕ, ◌≡◌, subst, sym, List, [], ◌∷◌, ◌++◌}
use zephyr_common.CList.{Heap, insert_before, insert_after, remove}
use zephyr_common.CList.Links.{
  Linked, NotIn, Distinct, last_of, first_of, NotIn-last_of, cut_links, prefix-Off, new-Off,
  Linked-prefix,
}
use zephyr_common.CList.Ring.{
  IsList, between, beside, between-Keep, beside-Keep, between-Linked, beside-Linked, NotIn-right,
  Distinct-right, Distinct-insert, Distinct-remove, last_of-NotIn, NotIn-left,
}

between-IsList :
    (h : Heap) (list new : ℕ) (front back : List ℕ)
    → IsList h list (front ++ back)
    → NotIn new (list ∷ (front ++ back))
    → IsList (between h (last_of list front) (first_of back list) new) list (front ++ new ∷ back)
unfolding NotIn Distinct
between-IsList h list new front back (e, d) n =
    let p = last_of list front in
    let s = first_of back list in
    let new_p = NotIn-last_of new list front back n in
    (
      Linked-prefix h (between h p s new) list front back (new ∷ back) list
          (between-Keep h p s new list front (prefix-Off list front back list d d.0)
            (new-Off new list front (n.0, NotIn-left new front back n.1)))
          (between-Linked h p new back list (last_of-NotIn list front back d)
            (NotIn-right list front back d.0) (Distinct-right front back d.1)
            (new_p, NotIn-right new front back n.1) n.0)
          e,
      Distinct-insert new (list ∷ front) back n d,
    )

-- Where the store holds a list, `CList_insertBefore` puts a node that is not in it before any node
-- of it or, before the head, at its end, and `CList_insertAfter` puts it behind any node or, behind
-- the head, at its start: the store then holds the list with the new node at that place, linked
-- both ways.
pub insert-IsList :
    (h : Heap) (list new : ℕ) (front back : List ℕ)
    → IsList h list (front ++ back)
    → NotIn new (list ∷ (front ++ back))
    → IsList (insert_before h (first_of back list) new) list (front ++ new ∷ back)
      × IsList (insert_after h (last_of list front) new) list (front ++ new ∷ back)
unfolding insert_before insert_after
insert-IsList h list new front back l n =
    let (to, from) = cut_links h list front back list l.0 in
    let done = between-IsList h list new front back l n in
    (
      subst (λ p. IsList (between h p (first_of back list) new) list (front ++ new ∷ back))
          (sym from) done,
      subst (λ s. IsList (between h (last_of list front) s new) list (front ++ new ∷ back)) (sym to)
          done,
    )

cut_node :
    (h : Heap) (a : ℕ) (xs : List ℕ) (x : ℕ) (ys : List ℕ) (b : ℕ)
    → Linked h a (xs ++ x ∷ ys) b
    → (h.prev x ≡ last_of a xs) × (h.next x ≡ first_of ys b)
unfolding Linked
cut_node h a [] x [] b (e, f, g) = (f, g.0)
cut_node h a [] x (y ∷ ys) b (e, f, g) = (f, g.0)
cut_node h a (z ∷ xs) x ys b (e, f, g) = cut_node h z xs x ys b g

-- Where the store holds a list, `CList_remove` of any node of it leaves the list without that node,
-- linked both ways.
pub remove-IsList :
    (h : Heap) (list x : ℕ) (front back : List ℕ)
    → IsList h list (front ++ x ∷ back)
    → IsList (remove h x) list (front ++ back)
unfolding remove Distinct
remove-IsList h list x front back (e, d) =
    let p = last_of list front in
    let s = first_of back list in
    let (from, to) = cut_node h list front x back list e in
    let d' : Distinct (list ∷ (front ++ back)) = Distinct-remove x (list ∷ front) back d in
    let done : IsList (beside h p s) list (front ++ back) = (
      Linked-prefix h (beside h p s) list front (x ∷ back) back list
          (beside-Keep h p s list front (prefix-Off list front back list d' d'.0))
          (beside-Linked h p x back list (last_of-NotIn list front back d')
            (NotIn-right list front back d'.0) (Distinct-right front back d'.1))
          e,
      d',
    ) in
    subst (λ a. IsList (beside h a (h.next x)) list (front ++ back)) (sym from)
      (subst (λ b. IsList (beside h p b) list (front ++ back)) (sym to) done)
