-- ===== src/Chain/Sort.antt =====
-- `list_insertion_sort` sorts a list in place.
use mathlib.Core.List.{Perm, perm_middle, append-nil}
use mathlib.Core.List.Perm
use mathlib.Core.Path.{subst}
use sunspec.Prelude.{
  ℕ, zero, suc, ◌+◌, ◌≤◌, some, none, List, [], ◌∷◌, ◌++◌, ◌≡◌, ◌≢◌, refl, sym, ap, ◌∙◌, arith,
  length, ok,
}
use sunspec.Prelude.Int.{ℤ}
use sunspec.Chain.{Pointer, LinkedList, ListNode, Store, list_new}
use sunspec.Chain.Held.{first, Linked, NotIn, Holds}
use sunspec.Chain.Pop.{list_pop-Popped}
use sunspec.Chain.Reverse.{Apart, Apart-cons, Apart-nil}
use sunspec.Chain.Order.{
  insert_by, InOrder, IsOneWay, insert_by-InOrder, insert_by-Perm, length-insert_by,
  insert_by-NotIn,
}
use sunspec.Chain.InsertSorted.{list_node_insert_sorted-Holds}
use sunspec.Chain.Sorted.{Compare, sort_nodes, sort_from, list_insertion_sort}

-- The nodes `xs`, each inserted into `ys`.
abbrev pub inserted : (order : ℕ → ℕ → ℤ) → (ys xs : List (ℕ × ℕ)) → List (ℕ × ℕ)
inserted order ys [] = ys
inserted order ys ((a, d) ∷ xs) = inserted order (insert_by order a d ys) xs

inserted-InOrder :
    (order : ℕ → ℕ → ℤ) (ys xs : List (ℕ × ℕ))
    → IsOneWay order
    → InOrder order ys
    → InOrder order (inserted order ys xs)
inserted-InOrder order ys [] one h = h
inserted-InOrder order ys ((a, d) ∷ xs) one h =
    inserted-InOrder order (insert_by order a d ys) xs one (insert_by-InOrder order a d ys one h)

inserted-Perm : (order : ℕ → ℕ → ℤ) (ys xs : List (ℕ × ℕ)) → Perm (inserted order ys xs) (xs ++ ys)
inserted-Perm order ys [] = Perm.rfl
inserted-Perm order ys ((a, d) ∷ xs) =
    Perm.trans (inserted-Perm order (insert_by order a d ys) xs)
      (Perm.trans (Perm.append_left xs (insert_by-Perm order a d ys)) (perm_middle xs ys))

length-inserted :
    (order : ℕ → ℕ → ℤ) (ys xs : List (ℕ × ℕ))
    → length (inserted order ys xs) ≡ length xs + length ys
length-inserted order ys [] = omega arith
length-inserted order ys ((a, d) ∷ xs) =
    omega (arith, length-inserted order (insert_by order a d ys) xs, length-insert_by order a d ys)

-- Writes to the nodes of one list and to `a` keep a list that is apart from it.
unwritten-Linked :
    (s t : Store) (a d : ℕ) (before : Pointer) (ys zs : List (ℕ × ℕ))
    → ((c : ℕ) → c ≢ a → NotIn c zs → t c ≡ s c)
    → Apart ((a, d) ∷ zs) ys
    → Linked s before ys
    → Linked t before ys
unwritten-Linked s t a d before [] zs same h k = tt
unwritten-Linked s t a d before ((y, e) ∷ ys) zs same h k =
    (same y (λ i. h.0.0 (sym i)) h.0.1 ∙ k.0, unwritten-Linked s t a d (some y) ys zs same h.1 k.1)

unwritten-Holds :
    (s t : Store) (l : LinkedList) (a d : ℕ) (ys zs : List (ℕ × ℕ))
    → ((c : ℕ) → c ≢ a → NotIn c zs → t c ≡ s c)
    → Apart ((a, d) ∷ zs) ys
    → Holds s l ys
    → Holds t l ys
unwritten-Holds s t l a d ys zs same h held = record {
  head_is = held.head_is;
  tail_is = held.tail_is;
  count_is = held.count_is;
  linked = unwritten-Linked s t a d none ys zs same h held.linked;
  distinct = held.distinct;
}

Apart-sym : (xs ys : List (ℕ × ℕ)) → Apart xs ys → Apart ys xs
Apart-sym xs [] h = Apart-nil xs
Apart-sym xs ((y, e) ∷ ys) h = Apart-cons y e ys xs h.0 (Apart-sym xs ys h.1)

Apart-insert :
    (order : ℕ → ℕ → ℤ) (a d : ℕ) (ys xs : List (ℕ × ℕ))
    → Apart ((a, d) ∷ ys) xs
    → Apart (insert_by order a d ys) xs
Apart-insert order a d ys [] h = tt
Apart-insert order a d ys ((x, e) ∷ xs) h =
    (insert_by-NotIn order a d x ys h.0, Apart-insert order a d ys xs h.1)

list_new-Holds : (s : Store) → Holds s list_new []
list_new-Holds s = record {
  head_is = refl;
  tail_is = refl;
  count_is = refl;
  linked = tt;
  distinct = tt;
}

module _ (compare : Compare) (order : ℕ → ℕ → ℤ)
    (reads_data : (m n : ListNode) → compare m n ≡ order m.data_at n.data_at) where
  sort_nodes-Holds :
      (rounds fuel : ℕ) (s : Store) (rest l : LinkedList) (xs ys : List (ℕ × ℕ))
      → Holds s rest xs
      → Holds s l ys
      → Apart ys xs
      → length xs ≤ fuel
      → length ys + length xs ≤ rounds
      → (t : Store) × (m : LinkedList) × (sort_nodes rounds fuel compare s rest (first xs) l
          ≡ ok (some (t, m)))
        × Holds t m (inserted order ys xs)
  unfolding sort_nodes
  sort_nodes-Holds rounds zero s rest l [] ys left held apart k r = (s, l, refl, held)
  sort_nodes-Holds rounds (suc fuel) s rest l [] ys left held apart k r = (s, l, refl, held)
  sort_nodes-Holds rounds zero s rest l (x ∷ xs) ys left held apart k r = absurd (omega arith)
  sort_nodes-Holds rounds (suc fuel) s rest l ((a, d) ∷ xs) ys left held apart k r =
      let pop = list_pop-Popped s rest a d xs left in
      let still =
        unwritten-Holds s pop.store l a d ys xs pop.others (Apart-sym ys ((a, d) ∷ xs) apart)
          held in
      let (t, m, runs, now, same) =
        list_node_insert_sorted-Holds compare order reads_data pop.store l a d none none pop.alone
          ys rounds still apart.0 (omega arith) in
      let free = Apart-cons a d ys xs left.distinct.0 apart.1 in
      let others =
        unwritten-Holds pop.store t pop.list a d xs ys (λ c ne h. same c ne tt h) free pop.holds in
      let (t', m', end, done) =
        sort_nodes-Holds rounds fuel t pop.list m xs (insert_by order a d ys) others now
          (Apart-insert order a d ys xs free) (omega arith)
          (omega (arith, length-insert_by order a d ys)) in
      let head =
        ap (λ (h : Pointer). sort_nodes rounds fuel compare t pop.list h m) others.head_is in
      (t', m', rw (pop.deletes, runs) (head ∙ end), done)

  -- Where the comparison reads only the data of the nodes, and never finds both of two above the
  -- other, the sort of a list that the store holds ends with no fault, within as many rounds as
  -- there are nodes, and returns their number; the list then holds the same nodes, linked in both
  -- directions, in an order in which none compares above the next.
  pub list_insertion_sort-sorts :
      (s : Store) (l : LinkedList) (xs : List (ℕ × ℕ)) (fuel : ℕ)
      → Holds s l xs
      → IsOneWay order
      → length xs ≤ fuel
      → (t : Store) × (list : LinkedList) × (ys : List (ℕ × ℕ)) × (list_insertion_sort fuel compare
            s l
          ≡ ok (some (length xs, t, list)))
        × Holds t list ys
        × InOrder order ys
        × Perm ys xs
  unfolding list_insertion_sort
  list_insertion_sort-sorts s l [] fuel held one k =
      let empty = ap (λ (h : Pointer). sort_from fuel compare s l h) held.head_is in
      (s, l, [], empty, held, tt, Perm.rfl)
  list_insertion_sort-sorts s l ((a, d) ∷ xs) fuel held one k =
      let (t, m, runs, done) =
        sort_nodes-Holds fuel fuel s l list_new ((a, d) ∷ xs) [] held (list_new-Holds s)
          (Apart-nil ((a, d) ∷ xs)) k (omega arith) in
      let counted : m.count ≡ suc (length xs) =
        omega (arith, done.count_is, length-inserted order [] ((a, d) ∷ xs)) in
      let from = ap (λ (h : Pointer). sort_from fuel compare s l h) held.head_is in
      (
        t,
        m,
        inserted order [] ((a, d) ∷ xs),
        from ∙ rw runs (ap (λ n. ok (some (n, t, m))) counted),
        done,
        inserted-InOrder order [] ((a, d) ∷ xs) one tt,
        subst (λ (zs : List (ℕ × ℕ)). Perm (inserted order [] ((a, d) ∷ xs)) zs)
            (append-nil ((a, d) ∷ xs)) (inserted-Perm order [] ((a, d) ∷ xs)),
      )
