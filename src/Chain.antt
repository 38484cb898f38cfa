-- ===== src/Chain.antt =====
-- The doubly linked lists of lib/trx/list.c and lib/trx/list.h, on a store of nodes. The iterator
-- `current` of a list is left out: only the iteration by callback, which is not modelled, has it.
pub mod Add
pub mod AddFirst
pub mod Held
pub mod Pop
pub mod Reverse
pub mod Sorted
pub mod Between
pub mod InsertSorted
pub mod Order
pub mod Sort
use sunspec.Prelude.{
  ℕ, zero, suc, ◌+◌, ◌-◌, Bool, true, false, Option, some, none, List, [], ◌∷◌, ◌==◌, if◌then◌else◌,
  Run, ok, fault, ◌>>=◌,
}
use sunspec.Prelude.Int.{ℤ, pos, negsuc}

-- An address, or null.
abbrev pub Pointer : Type 0
Pointer = Option ℕ

pub record ListNode : Type 0 where
  pub data_at : ℕ
  pub next : Pointer
  pub prev : Pointer

abbrev pub node : (d : ℕ) (next prev : Pointer) → ListNode
node d n p = record { data_at = d; next = n; prev = p }

pub record LinkedList : Type 0 where
  pub head : Pointer
  pub tail : Pointer
  pub count : ℕ

-- The nodes that are allocated.
abbrev pub Store : Type 0
Store = ℕ → Option ListNode

abbrev pub write : Store → ℕ → ListNode → Store
write s a n b = if b == a then some n else s b

abbrev pub same_pointer : Pointer → Pointer → Bool
same_pointer none none = true
same_pointer (some a) (some b) = a == b
same_pointer _ _ = false

abbrev pub load_node : Option ListNode → Run ListNode
load_node none = fault
load_node (some n) = ok n

-- Reading through a pointer.
abbrev pub load : Store → Pointer → Run ListNode
load s none = fault
load s (some a) = load_node (s a)

-- `p->next = q` and `p->prev = q`
abbrev pub set_next : Store → Pointer → Pointer → Run Store
set_next s none q = fault
set_next s (some a) q = do n ← load_node (s a); ok (write s a (record n { next = q }))

abbrev pub set_prev : Store → Pointer → Pointer → Run Store
set_prev s none q = fault
set_prev s (some a) q = do n ← load_node (s a); ok (write s a (record n { prev = q }))

abbrev pub list_new : LinkedList
list_new = record { head = none; tail = none; count = 0 }

-- The node at an address that the allocation gives.
unfoldable pub list_node_new : Store → (addr data_at : ℕ) → Store
list_node_new s a d = write s a (record { data_at = d; next = none; prev = none })

-- The links behind the new node.
abbrev pub link_next : Store → LinkedList → (where_at new : Pointer) → Run (Store × LinkedList)
link_next s l w new =
    let last = (do s₁ ← set_next s new none; ok (s₁, record l { tail = new })) in
    let inner = (do
      n ← load s w
      s₁ ← set_next s new n.next
      s₂ ← set_prev s₁ n.next new
      ok (s₂, l)) in
    if same_pointer l.tail w then last else inner

-- The link in front of the new node.
abbrev pub link_where : Store → LinkedList → (where_at new : Pointer) → Run (Store × LinkedList)
link_where s l none new = ok (s, record l { head = new })
link_where s l (some w) new = do s₁ ← set_next s (some w) new; ok (s₁, l)

-- The count, or -1 for a null node.
unfoldable pub list_node_insert_after :
    Store → LinkedList → (where_at new : Pointer) → Run (ℤ × Store × LinkedList)
list_node_insert_after s l w none = ok (negsuc 0, s, l)
list_node_insert_after s l w (some a) = do
  (s₁, l₁) ← link_next s l w (some a)
  (s₂, l₂) ← link_where s₁ l₁ w (some a)
  s₃ ← set_prev s₂ (some a) w
  ok (pos (l₂.count + 1), s₃, record l₂ { count = l₂.count + 1 })

-- The macro `list_node_add`.
unfoldable pub list_node_add : Store → LinkedList → (new : Pointer) → Run (ℤ × Store × LinkedList)
list_node_add s l new = list_node_insert_after s l l.tail new

-- The links in front of the new node, and behind it.
abbrev pub link_prev : Store → LinkedList → (where_at new : Pointer) → Run (Store × LinkedList)
link_prev s l w new =
    let first = (do s₁ ← set_prev s new none; ok (s₁, record l { head = new })) in
    let inner = (do
      n ← load s w
      s₁ ← set_next s n.prev new
      s₂ ← set_prev s₁ new n.prev
      ok (s₂, l)) in
    if same_pointer l.head w then first else inner

abbrev pub link_behind : Store → LinkedList → (where_at new : Pointer) → Run (Store × LinkedList)
link_behind s l none new = ok (s, record l { tail = new })
link_behind s l (some w) new = do s₁ ← set_prev s (some w) new; ok (s₁, l)

unfoldable pub list_node_insert_before :
    Store → LinkedList → (where_at new : Pointer) → Run (ℤ × Store × LinkedList)
list_node_insert_before s l w new = do
  (s₁, l₁) ← link_prev s l w new
  (s₂, l₂) ← link_behind s₁ l₁ w new
  s₃ ← set_next s₂ new w
  ok (pos (l₂.count + 1), s₃, record l₂ { count = l₂.count + 1 })

-- The macro `list_node_add_first`.
unfoldable pub list_node_add_first :
    Store → LinkedList → (new : Pointer) → Run (ℤ × Store × LinkedList)
list_node_add_first s l new = list_node_insert_before s l l.head new

abbrev pub unlink_front :
    Store → LinkedList → (goner : Pointer) → ListNode → Run (Store × LinkedList)
unlink_front s l goner n =
    let rest = (do s₁ ← set_next s n.prev n.next; ok (s₁, l)) in
    if same_pointer l.head goner then ok (s, record l { head = n.next }) else rest

abbrev pub unlink_back :
    Store → LinkedList → (goner : Pointer) → ListNode → Run (Store × LinkedList)
unlink_back s l goner n =
    let rest = (do s₁ ← set_prev s n.next n.prev; ok (s₁, l)) in
    if same_pointer l.tail goner then ok (s, record l { tail = n.prev }) else rest

unfoldable pub list_node_del : Store → LinkedList → (goner : Pointer) → Run (Store × LinkedList)
list_node_del s l goner = do
  n ← load s goner
  (s₁, l₁) ← unlink_front s l goner n
  n₁ ← load s₁ goner
  (s₂, l₂) ← unlink_back s₁ l₁ goner n₁
  s₃ ← set_next s₂ goner none
  s₄ ← set_prev s₃ goner none
  ok (s₄, record l₂ { count = l₂.count - 1 })

-- The head, and what is left.
unfoldable pub list_pop : Store → LinkedList → Run (Pointer × Store × LinkedList)
list_pop s l = do (s₁, l₁) ← list_node_del s l l.head; ok (l.head, s₁, l₁)

abbrev push : ℕ → Option (List ℕ) → Option (List ℕ)
push d none = none
push d (some ds) = some (d ∷ ds)

-- The macro `list_for_each`, collecting the data from a node on: `none` when the rounds are used
-- up.
unfoldable pub list_for_each : (fuel : ℕ) → Store → Pointer → Run (Option (List ℕ))
list_for_each fuel s none = ok (some [])
list_for_each zero s (some a) = ok none
list_for_each (suc fuel) s (some a) = do
  n ← load_node (s a)
  rest ← list_for_each fuel s n.next
  ok (push n.data_at rest)

abbrev pub swap_ends : LinkedList → Option Store → Option (Store × LinkedList)
swap_ends l none = none
swap_ends l (some s) = some (s, record l { head = l.tail; tail = l.head })

-- The loop of `list_reverse` from a node on: `none` when the rounds are used up.
unfoldable pub reverse_nodes : (fuel : ℕ) → Store → (current : Pointer) → Run (Option Store)
reverse_nodes fuel s none = ok (some s)
reverse_nodes zero s (some a) = ok none
reverse_nodes (suc fuel) s (some a) = do
  n ← load_node (s a)
  s₁ ← set_prev s (some a) n.next
  s₂ ← set_next s₁ (some a) n.prev
  reverse_nodes fuel s₂ n.next

unfoldable pub list_reverse : (fuel : ℕ) → Store → LinkedList → Run (Option (Store × LinkedList))
list_reverse fuel s l = do r ← reverse_nodes fuel s l.head; ok (swap_ends l r)
