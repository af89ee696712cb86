-- ===== src/CList/Tests.antt =====
-- Tests of lists, and their theorems at a list of two nodes.
use zephyr_common.Common.{◌≡◌, refl, [], ◌∷◌, some, false}
use zephyr_common.CList.{
  Heap, put, init, insert_before, insert_after, remove, prepend, append, is_empty, head, tail,
  visited, flush, iter_from,
}
use zephyr_common.CList.Links.{Linked, NotIn, Distinct}
use zephyr_common.CList.Ring.{IsList}
use zephyr_common.CList.Edit.{insert-IsList, remove-IsList}
use zephyr_common.CList.Walk.{AllAlone, visited-IsList, flush-IsList}

abbrev blank : Heap
blank = record { next = λ a. 0; prev = λ a. 0 }

-- The head at 9, and the nodes 1 and 2.
unfoldable two : Heap
unfolding init prepend append insert_before insert_after put
two = append (prepend (init blank 9) 9 1) 9 2

two-IsList : IsList two 9 (1 ∷ 2 ∷ [])
unfolding two Linked Distinct NotIn init prepend append insert_before insert_after put
two-IsList =
    ((refl, refl, (refl, refl, (refl, refl))), ((refl, (refl, tt)), ((refl, tt), (tt, tt))))

backwards : visited 3 (insert_before (remove two 1) 9 1) 9 ≡ some (2 ∷ 1 ∷ [])
unfolding visited iter_from two remove init prepend append insert_before insert_after put
backwards = refl

insert-IsList_example :
    IsList (insert_before two 2 5) 9 (1 ∷ 5 ∷ 2 ∷ [])
    × IsList (insert_after two 1 5) 9 (1 ∷ 5 ∷ 2 ∷ [])
insert-IsList_example =
    insert-IsList two 9 5 (1 ∷ []) (2 ∷ []) two-IsList (unfold NotIn in (refl, (refl, (refl, tt))))

remove-IsList_example : IsList (remove two 1) 9 (2 ∷ [])
remove-IsList_example = remove-IsList two 9 1 [] (2 ∷ []) two-IsList

visited-IsList_example :
    (is_empty two 9 ≡ false)
    × (head two 9 ≡ some 1)
    × (tail two 9 ≡ some 2)
    × (visited 3 two 9 ≡ some (1 ∷ 2 ∷ []))
visited-IsList_example = visited-IsList two 9 (1 ∷ 2 ∷ []) two-IsList

flush-IsList_example :
    (h' : Heap) × (flush 3 two 9 ≡ some h')
    × AllAlone h' (9 ∷ 1 ∷ 2 ∷ [])
    × (h'.next 4 ≡ two.next 4)
    × (h'.prev 4 ≡ two.prev 4)
flush-IsList_example =
    flush-IsList two 9 (1 ∷ 2 ∷ []) 4 two-IsList (unfold NotIn in (refl, (refl, (refl, tt))))
