-- ===== src/Chain/Sorted.antt =====
-- The sorted insertion and the insertion sort of lib/trx/list.c. The comparison is an argument, as in the code.
use sunspec.Prelude.{ℕ, zero, suc, Bool, Option, some, none, if◌then◌else◌, Run, ok, fault, ◌>>=◌}
use sunspec.Prelude.Int.{ℤ, pos, ltb_ℤ}
use sunspec.Chain.{
  ListNode, Pointer, LinkedList, Store, load_node, list_node_add, list_node_insert_after,
  list_node_insert_before, list_node_del, list_new,
}

abbrev pub Compare : Type 0
Compare = ListNode → ListNode → ℤ

abbrev pub is_above : ℤ → Bool
is_above r = ltb_ℤ (pos 0) r

-- What a call leaves in the store and the list; its return value is not used.
abbrev pub kept : ℤ × Store × LinkedList → Option (Store × LinkedList)
kept (_, s, l) = some (s, l)

abbrev pub goes_on :
    Pointer
    → (here behind further : Run (Option (Store × LinkedList))) → (above : Bool)
    → Run (Option (Store × LinkedList))
goes_on none here behind further above = if above then here else behind
goes_on (some _) here behind further above = if above then here else further

abbrev pub insert_here : Store → LinkedList → (c new : ℕ) → Run (Option (Store × LinkedList))
insert_here s l c new = do r ← list_node_insert_before s l (some c) (some new); ok (kept r)

abbrev pub insert_behind : Store → LinkedList → (c new : ℕ) → Run (Option (Store × LinkedList))
insert_behind s l c new = do r ← list_node_insert_after s l (some c) (some new); ok (kept r)

-- The loop from the node `c` on: `none` when the rounds are used up.
unfoldable pub insert_from :
    (fuel : ℕ)
    → Compare
    → Store
    → LinkedList
    → (c : Pointer) → (new : ℕ) → Run (Option (Store × LinkedList))
insert_from zero compare s l c new = ok none
insert_from (suc fuel) compare s l none new = fault
insert_from (suc fuel) compare s l (some c) new = do
  n ← load_node (s c)
  m ← load_node (s new)
  let further = insert_from fuel compare s l n.next new in
      goes_on n.next (insert_here s l c new) (insert_behind s l c new) further
        (is_above (compare n m))

abbrev pub insert_into :
    (fuel : ℕ)
    → Compare
    → Store
    → LinkedList
    → (head : Pointer) → (new : ℕ) → Run (Option (Store × LinkedList))
insert_into fuel compare s l none new = do r ← list_node_add s l (some new); ok (kept r)
insert_into fuel compare s l (some c) new = insert_from fuel compare s l (some c) new

unfoldable pub list_node_insert_sorted :
    (fuel : ℕ) → Compare → Store → LinkedList → (new : ℕ) → Run (Option (Store × LinkedList))
list_node_insert_sorted fuel compare s l new = insert_into fuel compare s l l.head new

-- The list after an insertion goes to the rest of the loop.
abbrev pub sort_on :
    Option (Store × LinkedList)
    → (Store → LinkedList → Run (Option (Store × LinkedList)))
    → Run (Option (Store × LinkedList))
sort_on none rest = ok none
sort_on (some (s, l)) rest = rest s l

-- The loop over the nodes that are left, from the node `head` on; `rounds` are for each insertion.
unfoldable pub sort_nodes :
    (rounds fuel : ℕ)
    → Compare
    → Store
    → (tmplist : LinkedList) → (head : Pointer) → LinkedList
    → Run (Option (Store × LinkedList))
sort_nodes rounds fuel compare s tmplist none l = ok (some (s, l))
sort_nodes rounds zero compare s tmplist (some c) l = ok none
sort_nodes rounds (suc fuel) compare s tmplist (some c) l = do
  (s₁, rest) ← list_node_del s tmplist (some c)
  r ← list_node_insert_sorted rounds compare s₁ l c
  sort_on r (λ s₂ l₂. sort_nodes rounds fuel compare s₂ rest rest.head l₂)

-- The count, the store and the list.
abbrev pub list_counted : Option (Store × LinkedList) → Option (ℕ × Store × LinkedList)
list_counted none = none
list_counted (some (s, l)) = some (l.count, s, l)

abbrev pub sort_from :
    (fuel : ℕ)
    → Compare
    → Store
    → LinkedList
    → (head : Pointer) → Run (Option (ℕ × Store × LinkedList))
sort_from fuel compare s l none = ok (some (0, s, l))
sort_from fuel compare s l (some c) = do
  r ← sort_nodes fuel fuel compare s l (some c) list_new
  ok (list_counted r)

unfoldable pub list_insertion_sort :
    (fuel : ℕ) → Compare → Store → LinkedList → Run (Option (ℕ × Store × LinkedList))
list_insertion_sort fuel compare s l = sort_from fuel compare s l l.head
