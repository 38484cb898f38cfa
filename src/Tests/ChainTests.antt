-- ===== src/Tests/ChainTests.antt =====
-- Lists of nodes in a store.
use sunspec.Prelude.{ℕ, List, ltb, some, none, [], ◌∷◌, ◌≡◌, refl, arith, ok, if◌then◌else◌, ◌==◌}
use mathlib.Core.List.{Perm}
use sunspec.Prelude.Int.{ℤ, pos, negsuc}
use sunspec.Chain.Order.{InOrder, IsOneWay}
use sunspec.Chain.Sorted.{list_insertion_sort}
use sunspec.Chain.Sort.{list_insertion_sort-sorts}
use sunspec.Chain.{ListNode, Store, LinkedList, list_node_new, list_reverse}
use sunspec.Chain.Add.{Added, list_node_add-Added}
use sunspec.Chain.Reverse.{list_reverse-Holds}
use sunspec.Chain.Held.{Holds}
use sunspec.Chain.Pop.{Popped, list_pop-Popped}

-- A node at 10, which is in a list, and one at 20, which is not.
abbrev nodes : Store
nodes = list_node_new (list_node_new (λ a. none) 10 7) 20 8

abbrev one_node : LinkedList
one_node = record { head = some 10; tail = some 10; count = 1 }

one_node-Holds : Holds nodes one_node ((10, 7) ∷ [])
unfolding list_node_new
one_node-Holds = record {
  head_is = refl;
  tail_is = refl;
  count_is = refl;
  linked = (refl, tt);
  distinct = (tt, tt);
}

list_node_add-Added_example : Added nodes one_node ((10, 7) ∷ []) 20 8
unfolding list_node_new
list_node_add-Added_example =
    list_node_add-Added nodes one_node 20 8 none none refl ((10, 7) ∷ []) one_node-Holds
      ((λ e. omega arith), tt)

list_pop-Popped_example : Popped nodes one_node 10 7 []
list_pop-Popped_example = list_pop-Popped nodes one_node 10 7 [] one_node-Holds

-- Both nodes, linked.
abbrev pair_nodes : Store
pair_nodes a =
    if a == 10
    then some (record { data_at = 7; next = some 20; prev = none })
    else if a == 20
    then some (record { data_at = 8; next = none; prev = some 10 })
    else none

abbrev two_nodes : LinkedList
two_nodes = record { head = some 10; tail = some 20; count = 2 }

two_nodes-Holds : Holds pair_nodes two_nodes ((10, 7) ∷ (20, 8) ∷ [])
two_nodes-Holds = record {
  head_is = refl;
  tail_is = refl;
  count_is = refl;
  linked = (refl, (refl, tt));
  distinct = (((λ e. omega arith), tt), (tt, tt));
}

list_reverse-Holds_example :
    (t : Store) × (list : LinkedList) × (list_reverse 2 pair_nodes two_nodes ≡ ok (some (t, list)))
    × Holds t list ((20, 8) ∷ (10, 7) ∷ [])
list_reverse-Holds_example =
    list_reverse-Holds pair_nodes two_nodes ((10, 7) ∷ (20, 8) ∷ []) 2 two_nodes-Holds (omega arith)

-- The smaller number goes first.
abbrev by_number : ℕ → ℕ → ℤ
by_number x y = if ltb y x then pos 1 else negsuc 0

abbrev compare_data : ListNode → ListNode → ℤ
compare_data m n = by_number m.data_at n.data_at

by_number-IsOneWay : IsOneWay by_number
by_number-IsOneWay x y up = ground (arith, up)

-- 8, then 7.
abbrev unsorted_nodes : Store
unsorted_nodes a =
    if a == 20
    then some (record { data_at = 8; next = some 10; prev = none })
    else if a == 10
    then some (record { data_at = 7; next = none; prev = some 20 })
    else none

abbrev unsorted : LinkedList
unsorted = record { head = some 20; tail = some 10; count = 2 }

unsorted-Holds : Holds unsorted_nodes unsorted ((20, 8) ∷ (10, 7) ∷ [])
unsorted-Holds = record {
  head_is = refl;
  tail_is = refl;
  count_is = refl;
  linked = (refl, (refl, tt));
  distinct = (((λ e. omega arith), tt), (tt, tt));
}

list_insertion_sort-sorts_example :
    (t : Store) × (list : LinkedList) × (ys : List (ℕ × ℕ)) × (list_insertion_sort 2 compare_data
        unsorted_nodes unsorted
      ≡ ok (some (2, t, list)))
    × Holds t list ys
    × InOrder by_number ys
    × Perm ys ((20, 8) ∷ (10, 7) ∷ [])
list_insertion_sort-sorts_example =
    list_insertion_sort-sorts compare_data by_number (λ m n. refl) unsorted_nodes unsorted
      ((20, 8) ∷ (10, 7) ∷ []) 2 unsorted-Holds by_number-IsOneWay (omega arith)
