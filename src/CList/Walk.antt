-- ===== src/CList/Walk.antt =====
-- What is read off a list, and the flush of a list.
use zephyr_common.Common.{
  ℕ, suc, ◌≡◌, ap, ◌∙◌, Bool, true, false, Option, none, some, List, [], ◌∷◌, ◌==◌, arith, length,
}
use zephyr_common.Common.Memory.{◌>>=◌}
use zephyr_common.CList.{Heap, init, is_empty, head, tail, iter_from, visited, flush_from, flush}
use zephyr_common.CList.Links.{
  Linked, NotIn, Distinct, last_of, first_of, flip, put_same, put_other,
}
use zephyr_common.CList.Ring.{IsList}

-- The links from each node on.
unfoldable Chain : Heap → List ℕ → ℕ → Type 0
Chain h [] b = Unit
Chain h (x ∷ xs) b = (h.next x ≡ first_of xs b) × Chain h xs b

Linked-Chain :
    (h : Heap) (a : ℕ) (xs : List ℕ) (b : ℕ)
    → Linked h a xs b
    → (h.next a ≡ first_of xs b) × (h.prev b ≡ last_of a xs) × Chain h xs b
unfolding Linked Chain
Linked-Chain h a [] b (e, f) = (e, f, tt)
Linked-Chain h a (x ∷ xs) b (e, f, g) = let (n, p, c) = Linked-Chain h x xs b g in (e, p, (n, c))

abbrev go_on : ℕ → Option (List ℕ) → Option (List ℕ)
go_on x rest = rest >>= λ xs. some (x ∷ xs)

iter_from_next :
    (fuel : ℕ) (h : Heap) (iter list : ℕ)
    → (iter == list) ≡ false
    → iter_from (suc fuel) h iter list ≡ go_on iter (iter_from fuel h (h.next iter) list)
unfolding iter_from
iter_from_next fuel h iter list other = rw (iter_from, other)

iter_from-Chain :
    (h : Heap) (xs : List ℕ) (b : ℕ)
    → NotIn b xs
    → Chain h xs b
    → iter_from (suc (length xs)) h (first_of xs b) b ≡ some xs
unfolding iter_from Chain NotIn
iter_from-Chain h [] b n c = let same : (b == b) ≡ true = ground arith in rw (iter_from, same)
iter_from-Chain h (x ∷ xs) b (n, ns) (e, c) =
    iter_from_next (suc (length xs)) h x b n
    ∙ (ap (λ y. go_on x (iter_from (suc (length xs)) h y b)) e
        ∙ ap (go_on x) (iter_from-Chain h xs b ns c))

-- What the list shows: whether it is empty, its ends, and its nodes in order.
abbrev pub first_node : List ℕ → Option ℕ
first_node [] = none
first_node (x ∷ xs) = some x

abbrev pub last_node : List ℕ → Option ℕ
last_node [] = none
last_node (x ∷ xs) = some (last_of x xs)

abbrev pub no_nodes : List ℕ → Bool
no_nodes [] = true
no_nodes (x ∷ xs) = false

-- Where the store holds a list, `CList_isEmpty` tells whether it has no node, `CList_head` and
-- `CList_tail` give its first and its last node or `NULL`, and `CLIST_ITER` ends after as many
-- rounds as there are nodes and visits them in their order.
pub visited-IsList :
    (h : Heap) (list : ℕ) (nodes : List ℕ)
    → IsList h list nodes
    → (is_empty h list ≡ no_nodes nodes)
      × (head h list ≡ first_node nodes)
      × (tail h list ≡ last_node nodes)
      × (visited (suc (length nodes)) h list ≡ some nodes)
unfolding is_empty head tail visited Distinct
visited-IsList h list nodes (e, d) =
    let (n, p, c) = Linked-Chain h list nodes list e in
    let walk = iter_from-Chain h nodes list d.0 c in
    let (empty, first, last) = ends nodes n p d.0 in (empty, first, last, rw n walk)
  where
    ends :
        (nodes : List ℕ)
        → h.next list ≡ first_of nodes list
        → h.prev list ≡ last_of list nodes
        → NotIn list nodes
        → (is_empty h list ≡ no_nodes nodes)
          × (head h list ≡ first_node nodes)
          × (tail h list ≡ last_node nodes)
    ends [] n p d =
        let same : (list == list) ≡ true = ground arith in
        unfold is_empty head tail in (rw (n, same), rw (n, same), rw (n, same))
    ends (x ∷ xs) n p d =
        let other : (x == list) ≡ false = unfold NotIn in d.0 in
        unfold is_empty head tail in (rw (n, other), rw (n, other), rw (n, other, p))

-- A node that is the list of itself alone.
abbrev pub IsAlone : Heap → ℕ → Type 0
IsAlone h x = IsList h x []

unfoldable pub AllAlone : Heap → List ℕ → Type 0
AllAlone h [] = Unit
AllAlone h (x ∷ xs) = IsAlone h x × AllAlone h xs

Chain-init :
    (h : Heap) (x : ℕ) (xs : List ℕ) (b : ℕ) → NotIn x xs → Chain h xs b → Chain (init h x) xs b
unfolding Chain NotIn init
Chain-init h x [] b n c = tt
Chain-init h x (y ∷ xs) b (n, ns) (e, c) = (put_other h.next x x y n ∙ e, Chain-init h x xs b ns c)

init-Alone : (h : Heap) (x : ℕ) → ((init h x).next x ≡ x) × ((init h x).prev x ≡ x)
unfolding init
init-Alone h x = (put_same h.next x x, put_same h.prev x x)

init_other :
    (h : Heap) (x y : ℕ)
    → (x == y) ≡ false
    → ((init h x).next y ≡ h.next y) × ((init h x).prev y ≡ h.prev y)
unfolding init
init_other h x y n = (put_other h.next x x y (flip x y n), put_other h.prev x x y (flip x y n))

flush_from_end :
    (fuel : ℕ) (h : Heap) (safe list : ℕ)
    → flush_from (suc fuel) h list safe list ≡ some (init h list)
unfolding flush_from
flush_from_end fuel h safe list =
    let same : (list == list) ≡ true = ground arith in rw (flush_from, same)

flush_from_next :
    (fuel : ℕ) (h : Heap) (iter safe list : ℕ)
    → (iter == list) ≡ false
    → flush_from (suc fuel) h iter safe list
      ≡ flush_from fuel (init h iter) safe ((init h iter).next safe) list
unfolding flush_from
flush_from_next fuel h iter safe list other = rw (flush_from, other)

-- A store that holds the nodes of the list alone, and all others as before.
abbrev Flushed : Heap → ℕ → List ℕ → Option Heap → Type 0
Flushed h list nodes result =
    (h' : Heap) × (result ≡ some h')
    × AllAlone h' (list ∷ nodes)
    × ((y : ℕ) → NotIn y (list ∷ nodes) → (h'.next y ≡ h.next y) × (h'.prev y ≡ h.prev y))

Alone-IsList : (h : Heap) (x : ℕ) → (h.next x ≡ x) × (h.prev x ≡ x) → IsAlone h x
unfolding Linked Distinct NotIn
Alone-IsList h x e = (e, (tt, tt))

flush_from-Chain :
    (h : Heap) (xs : List ℕ) (b : ℕ)
    → Distinct (b ∷ xs)
    → Chain h xs b
    → let first = first_of xs b in
      Flushed h b xs (flush_from (suc (length xs)) h first (h.next first) b)
unfolding Chain Distinct NotIn AllAlone
flush_from-Chain h [] b d c = (
  init h b,
  flush_from_end 0 h (h.next b) b,
  (Alone-IsList (init h b) b (init-Alone h b), tt),
  λ y n. init_other h b y n.0,
)
flush_from-Chain h (x ∷ xs) b ((n, ns), (dx, d)) (e, c) =
    let (h', run, (alone, rest), frame) =
      flush_from-Chain (init h x) xs b (ns, d) (Chain-init h x xs b dx c) in
    let (next_x, prev_x) = frame x (flip x b n, dx) in
    let (own_next, own_prev) = init-Alone h x in
    (
      h',
      flush_from_next (suc (length xs)) h x (h.next x) b n
          ∙ (ap (λ s. flush_from (suc (length xs)) (init h x) s ((init h x).next s) b) e ∙ run),
      (alone, (Alone-IsList h' x (next_x ∙ own_next, prev_x ∙ own_prev), rest)),
      λ y (ny : NotIn y (b ∷ x ∷ xs)).
          let (f, g) = frame y (ny.0, ny.1.1) in
          let (k, l) = init_other h x y ny.1.0 in (f ∙ k, g ∙ l),
    )

-- Where the store holds a list, `CLIST_FLUSH` ends after as many rounds as there are nodes, leaves
-- the list empty and each node a list of itself alone, and changes no node `y` that is not in it.
pub flush-IsList :
    (h : Heap) (list : ℕ) (nodes : List ℕ) (y : ℕ)
    → IsList h list nodes
    → NotIn y (list ∷ nodes)
    → (h' : Heap) × (flush (suc (length nodes)) h list ≡ some h')
      × AllAlone h' (list ∷ nodes)
      × (h'.next y ≡ h.next y)
      × (h'.prev y ≡ h.prev y)
unfolding flush
flush-IsList h list nodes y (e, d) apart =
    let (n, p, c) = Linked-Chain h list nodes list e in
    let (h', run, alone, frame) = flush_from-Chain h nodes list d c in
    (
      h',
      ap (λ s. flush_from (suc (length nodes)) h s (h.next s) list) n ∙ run,
      alone,
      (frame y apart).0,
      (frame y apart).1,
    )
