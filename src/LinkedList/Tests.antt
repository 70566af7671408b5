-- ===== src/LinkedList/Tests.antt =====
-- A list of three nodes, and the theorems at it.
use bubackos.Prelude.{
  ℕ, ◌+◌, ◌≡◌, refl, false, none, some, [], ◌∷◌, arith, ◌==◌, inr, if◌then◌else◌,
}
use bubackos.LinkedList.Heap.{Heap, done, fault}
use bubackos.LinkedList.{
  Linkedlist, remove_and_next, remove_and_return, go_next, Callback, iter_with_action, append, get,
  find, remove, pop, remove_element, destroy,
}
use bubackos.LinkedList.Chain.{Cells, stop, link, IsList, Succeeds, values}
use bubackos.LinkedList.Reading.{get-value, find-position, position}
use bubackos.LinkedList.Append.{Appended, append-cells, append-fails}
use bubackos.LinkedList.Walk.{Acted, walk, iter_with_action-walk}
use bubackos.LinkedList.Removal.{Removed, Erased, remove-at, pop-last, remove_element-erase}
use bubackos.LinkedList.Destroy.{Without, but_second, destroy-Without, iter_with_action-fault}

-- Nodes 1, 2 and 3 with the values 10, 20 and 30.
abbrev three : Cells
three = (1, 10) ∷ (2, 20) ∷ (3, 30) ∷ []

abbrev heap : Heap
heap p =
    if p == 1
    then some (record { val = 10; next = 2 })
    else if p == 2
    then some (record { val = 20; next = 3 })
    else if p == 3
    then some (record { val = 30; next = 0 })
    else none

abbrev header : Linkedlist
header = record { first = 1; size = 3 }

three-IsList : IsList heap header three
three-IsList = record {
  chain =
      link (record { ne_null = omega arith; content = refl }) refl
        (link (record { ne_null = omega arith; content = refl }) refl
          (link (record { ne_null = omega arith; content = refl }) refl stop));
  counted = refl;
}

get-value_example : get (some header) 1 heap ≡ done 20 heap
get-value_example = get-value 1 three-IsList

find-position_example : find (some header) 30 heap ≡ done (position 30 (values three) 0) heap
find-position_example = find-position 30 three-IsList

append-cells_example : Succeeds (Appended heap three 4 40) (append 4 (some header) 40 heap)
append-cells_example = append-cells 4 40 three-IsList (omega arith) refl (omega arith)

append-fails_example : append 0 (some header) 40 heap ≡ done (false, some header) heap
append-fails_example = append-fails heap (some header) 0 40 (inr refl)

remove-at_example :
    Succeeds (Removed heap three 20 ((1, 10) ∷ (3, 30) ∷ [])) (remove (some header) 1 heap)
remove-at_example = remove-at three-IsList 1 (omega arith) (omega arith)

pop-last_example :
    Succeeds (Removed heap three 30 ((1, 10) ∷ (2, 20) ∷ [])) (pop (some header) heap)
pop-last_example = pop-last three-IsList (omega arith) (omega arith)

remove_element-erase_example :
    Succeeds (Erased heap three 10) (remove_element (some header) 10 heap)
remove_element-erase_example = remove_element-erase 10 three-IsList (omega arith)

destroy-Without_example :
    Succeeds (λ _ g. Without (but_second three) heap g) (destroy (some header) heap)
destroy-Without_example = destroy-Without three-IsList

-- A callback that stops at the value 30, and one that drops every element.
abbrev take_thirty : Callback ℕ
take_thirty n v = if v == 30 then (remove_and_return, n) else (go_next, n + 1)

abbrev drop_all : Callback ℕ
drop_all n v = (remove_and_next, n)

iter_with_action-walk_example :
    Succeeds
      (Acted take_thirty heap three (walk take_thirty 0 three))
      (iter_with_action take_thirty header 0 heap)
iter_with_action-walk_example =
    iter_with_action-walk take_thirty 0 (λ d v. ground arith) three-IsList (omega arith)

iter_with_action-fault_example : iter_with_action drop_all header 0 heap ≡ fault
iter_with_action-fault_example =
    iter_with_action-fault drop_all 0 (record { ne_null = omega arith; content = refl })
      (record { ne_null = omega arith; content = refl }) (omega arith) refl refl (omega arith)
