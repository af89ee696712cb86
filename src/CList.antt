-- ===== src/CList.antt =====
-- modules/CList: circular lists with two links. The store is the two fields of all nodes, by their
-- address; every node that is reached can be read and written.
pub mod Links
pub mod Ring
pub mod Edit
pub mod Walk
mod Tests
use zephyr_common.Common.{
  ℕ, zero, suc, Bool, true, false, Option, none, some, List, [], ◌∷◌, ◌==◌, if◌then◌else◌,
}
use zephyr_common.Common.Memory.{◌>>=◌}

-- `CList`, at each address.
pub record Heap : Type 0 where
  pub next : ℕ → ℕ
  pub prev : ℕ → ℕ

-- One field with a new value at one address.
unfoldable pub put : (ℕ → ℕ) → ℕ → ℕ → ℕ → ℕ
put field at v a = if a == at then v else field a

unfoldable pub init : Heap → ℕ → Heap
unfolding put
init h list = record h { next = put h.next list list; prev = put h.prev list list }

unfoldable pub is_empty : Heap → ℕ → Bool
is_empty h list = h.next list == list

unfoldable pub insert_before : Heap → ℕ → ℕ → Heap
unfolding put
insert_before h target new =
    let prev = h.prev target in
    let h = record h { next = put h.next prev new } in
    let h = record h { prev = put h.prev new prev } in
    let h = record h { next = put h.next new target } in record h { prev = put h.prev target new }

unfoldable pub insert_after : Heap → ℕ → ℕ → Heap
unfolding put
insert_after h target new =
    let next = h.next target in
    let h = record h { next = put h.next target new } in
    let h = record h { prev = put h.prev new target } in
    let h = record h { next = put h.next new next } in record h { prev = put h.prev next new }

unfoldable pub remove : Heap → ℕ → Heap
unfolding put
remove h target =
    let prev = h.prev target in
    let next = h.next target in
    let h = record h { next = put h.next prev next } in record h { prev = put h.prev next prev }

unfoldable pub prepend : Heap → ℕ → ℕ → Heap
prepend h list new = insert_after h list new

unfoldable pub append : Heap → ℕ → ℕ → Heap
append h list new = insert_before h list new

-- The first and the last node, or `NULL`.
unfoldable pub head : Heap → ℕ → Option ℕ
unfolding is_empty
head h list = if is_empty h list then none else some (h.next list)

unfoldable pub tail : Heap → ℕ → Option ℕ
unfolding is_empty
tail h list = if is_empty h list then none else some (h.prev list)

-- The nodes that `CLIST_ITER` visits from `iter` on, with fuel.
unfoldable pub iter_from : ℕ → Heap → ℕ → ℕ → Option (List ℕ)
iter_from zero h iter list = none
iter_from (suc fuel) h iter list = elim (iter == list) [
  | true ↦ some []
  | false ↦ iter_from fuel h (h.next iter) list >>= λ rest. some (iter ∷ rest)
]

unfoldable pub visited : ℕ → Heap → ℕ → Option (List ℕ)
unfolding iter_from
visited fuel h list = iter_from fuel h (h.next list) list

-- The loop of `CLIST_FLUSH` from its condition on, with fuel.
unfoldable pub flush_from : ℕ → Heap → ℕ → ℕ → ℕ → Option Heap
unfolding init
flush_from zero h iter safe list = none
flush_from (suc fuel) h iter safe list =
    let h = init h iter in
    elim (iter == list) [ true ↦ some h | false ↦ flush_from fuel h safe (h.next safe) list ]

unfoldable pub flush : ℕ → Heap → ℕ → Option Heap
unfolding flush_from
flush fuel h list = flush_from fuel h (h.next list) (h.next (h.next list)) list
