-- ===== src/Chain/Held.antt =====
-- A store that holds a list, and what reading it gives.
use mathlib.Core.Option.{some-injective}
use sunspec.Prelude.{
  ℕ, zero, suc, ◌≤◌, some, none, List, [], ◌∷◌, ◌≡◌, ◌≢◌, refl, ◌∙◌, arith, length, ok, ne→==,
}
use sunspec.Chain.{Pointer, ListNode, LinkedList, Store, write, list_for_each}

-- Where a list of nodes, each an address and its data, starts.
abbrev pub first : List (ℕ × ℕ) → Pointer
first [] = none
first ((a, _) ∷ xs) = some a

-- Where it ends, behind the node `before`.
abbrev pub final : Pointer → List (ℕ × ℕ) → Pointer
final before [] = before
final before ((a, _) ∷ xs) = final (some a) xs

-- The nodes are linked in this order, in both directions, behind `before`.
abbrev pub Linked : Store → (before : Pointer) → List (ℕ × ℕ) → Type 0
Linked s before [] = Unit {0}
Linked s before ((a, d) ∷ xs) =
    (s a ≡ some (record { data_at = d; next = first xs; prev = before })) × Linked s (some a) xs

-- No node of these stands at the address.
abbrev pub NotIn : ℕ → List (ℕ × ℕ) → Type 0
NotIn a [] = Unit {0}
NotIn a ((b, _) ∷ xs) = (b ≢ a) × NotIn a xs

abbrev pub AllDistinct : List (ℕ × ℕ) → Type 0
AllDistinct [] = Unit {0}
AllDistinct ((a, _) ∷ xs) = NotIn a xs × AllDistinct xs

-- The list at `l` has these nodes.
pub record Holds (s : Store) (l : LinkedList) (xs : List (ℕ × ℕ)) : Type 0 where
  pub head_is : l.head ≡ first xs
  pub tail_is : l.tail ≡ final none xs
  pub count_is : l.count ≡ length xs
  pub linked : Linked s none xs
  pub distinct : AllDistinct xs

abbrev pub values : List (ℕ × ℕ) → List ℕ
values [] = []
values ((_, d) ∷ xs) = d ∷ values xs

-- The rounds of the iteration give the data in order.
pub list_for_each-values :
    (s : Store) (before : Pointer) (xs : List (ℕ × ℕ)) (fuel : ℕ)
    → Linked s before xs
    → length xs ≤ fuel
    → list_for_each fuel s (first xs) ≡ ok (some (values xs))
unfolding list_for_each
list_for_each-values s before [] zero h k = refl
list_for_each-values s before [] (suc fuel) h k = refl
list_for_each-values s before ((a, d) ∷ xs) zero h k = absurd (omega arith)
list_for_each-values s before ((a, d) ∷ xs) (suc fuel) h k =
    rw (h.0, list_for_each-values s (some a) xs fuel h.1 (omega arith)) refl

-- The iteration over a list that the store holds has no fault, gives the data of its
-- nodes in order, and ends within as many rounds as there are nodes.
pub list_for_each-Holds :
    (s : Store) (l : LinkedList) (xs : List (ℕ × ℕ)) (fuel : ℕ)
    → Holds s l xs
    → length xs ≤ fuel
    → list_for_each fuel s l.head ≡ ok (some (values xs))
list_for_each-Holds s l xs fuel held h =
    rw held.head_is (list_for_each-values s none xs fuel held.linked h)

-- A write elsewhere keeps the links.
pub write-Linked :
    (s : Store) (before : Pointer) (xs : List (ℕ × ℕ)) (a : ℕ) (n : ListNode)
    → NotIn a xs
    → Linked s before xs
    → Linked (write s a n) before xs
write-Linked s before [] a n h k = tt
write-Linked s before ((b, d) ∷ xs) a n h k =
    (rw (ne→== b a h.0) k.0, write-Linked s (some b) xs a n h.1 k.1)

pub final-some : (b : ℕ) (xs : List (ℕ × ℕ)) → (w : ℕ) × (final (some b) xs ≡ some w)
final-some b [] = (b, refl)
final-some b ((c, _) ∷ xs) = final-some c xs

pub last_in :
    (a b db w : ℕ) (xs : List (ℕ × ℕ)) → NotIn a ((b, db) ∷ xs) → final (some b) xs ≡ some w → w ≢ a
last_in a b db w [] h e = λ p. h.0 (some-injective b w e ∙ p)
last_in a b db w ((c, dc) ∷ xs) h e = last_in a c dc w xs h.1 e
