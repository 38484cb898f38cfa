-- ===== src/Chain/InsertSorted.antt =====
-- `list_node_insert_sorted` puts a node in front of the first that compares above it.
use sunspec.Prelude.{
  ℕ, zero, suc, ◌+◌, ◌≤◌, false, some, none, List, [], ◌∷◌, ◌++◌, ◌≡◌, ◌≢◌, refl, sym, ap, ◌∙◌, ◌<◌,
  arith, length, ok, ne→==, Bool-cases, inl, inr,
}
use sunspec.Prelude.Int.{ℤ}
use sunspec.Chain.{
  same_pointer, node, Pointer, LinkedList, ListNode, Store, list_node_add, list_node_add_first,
  list_node_insert_before, list_node_insert_after,
}
use sunspec.Chain.Held.{first, NotIn, Holds, final-some, last_in}
use sunspec.Chain.Add.{list_node_add-Added}
use sunspec.Chain.AddFirst.{list_node_add_first-AddedFirst}
use sunspec.Chain.Reverse.{
  reversed, Apart-cons, reversed-AllDistinct, first-reversed, final-reversed, length-reversed,
}
use sunspec.Chain.Between.{At, At-next, Elsewhere, Apart-first, rejoin, insert_between}
use sunspec.Chain.Order.{insert_by}
use sunspec.Chain.Sorted.{
  Compare, is_above, goes_on, insert_here, insert_behind, insert_from, insert_into,
  list_node_insert_sorted,
}

reversed-append : (acc zs ys : List (ℕ × ℕ)) → reversed acc zs ++ ys ≡ reversed (acc ++ ys) zs
reversed-append acc [] ys = refl
reversed-append acc (z ∷ zs) ys = reversed-append (z ∷ acc) zs ys

reversed-NotIn :
    (a : ℕ) (acc zs : List (ℕ × ℕ)) → NotIn a acc → NotIn a zs → NotIn a (reversed acc zs)
reversed-NotIn a acc [] h k = h
reversed-NotIn a acc ((b, e) ∷ zs) h k = reversed-NotIn a ((b, e) ∷ acc) zs (k.0, h) k.1

module _ (compare : Compare) (order : ℕ → ℕ → ℤ)
    (reads_data : (m n : ListNode) → compare m n ≡ order m.data_at n.data_at) (s : Store)
    (l : LinkedList) (a d : ℕ) (p q : Pointer) (here : s a ≡ some (node d p q)) where
  one_round :
      (fuel b e : ℕ) (n r : Pointer)
      → s b ≡ some (node e n r)
      → insert_from (suc fuel) compare s l (some b) a
        ≡ goes_on n
            (insert_here s l b a)
            (insert_behind s l b a)
            (insert_from fuel compare s l n a)
            (is_above (order e d))
  unfolding insert_from
  one_round fuel b e n r there = rw (there, here, reads_data (node e n r) (node d p q)) refl

  above_front :
      (b e : ℕ) (xs : List (ℕ × ℕ))
      → Holds s l ((b, e) ∷ xs)
      → NotIn a ((b, e) ∷ xs)
      → (t : Store) × (m : LinkedList) × (insert_here s l b a ≡ ok (some (t, m)))
        × Holds t m ((a, d) ∷ (b, e) ∷ xs)
        × Elsewhere s t a [] ((b, e) ∷ xs)
  unfolding list_node_add_first
  above_front b e xs held apart =
      let r = list_node_add_first-AddedFirst s l a d p q here ((b, e) ∷ xs) held apart in
      let same = ap (λ (h : Pointer). list_node_insert_before s l h (some a)) (sym held.head_is) in
      (r.store, r.list, rw (same ∙ r.returns) refl, r.holds, λ c ne h k. r.others c ne k)

  above_inner :
      (w f b e : ℕ) (acc zs : List (ℕ × ℕ))
      → At s ((w, f) ∷ acc) ((b, e) ∷ zs)
      → Holds s l (reversed ((b, e) ∷ zs) ((w, f) ∷ acc))
      → NotIn a ((w, f) ∷ acc)
      → NotIn a ((b, e) ∷ zs)
      → (t : Store) × (m : LinkedList) × (insert_here s l b a ≡ ok (some (t, m)))
        × Holds t m (reversed ((a, d) ∷ (b, e) ∷ zs) ((w, f) ∷ acc))
        × Elsewhere s t a ((w, f) ∷ acc) ((b, e) ∷ zs)
  above_inner w f b e acc zs at held back front =
      let (x, ends) = final-some w acc in
      let away = last_in b w f x acc (Apart-first b e zs ((w, f) ∷ acc) at.apart) ends in
      let head = held.head_is ∙ first-reversed ((w, f) ∷ (b, e) ∷ zs) acc ∙ ends in
      let other : same_pointer l.head (some b) ≡ false = rw head (ne→== x b away) in
      let (t, runs, b', f', same) =
        insert_between s l a d p q here w f b e acc zs at other back front in
      (
        t,
        record l { count = l.count + 1 },
        rw runs refl,
        record {
          head_is = head ∙ sym (first-reversed ((w, f) ∷ (a, d) ∷ (b, e) ∷ zs) acc ∙ ends);
          tail_is =
              held.tail_is
              ∙ final-reversed none b e zs ((w, f) ∷ acc)
              ∙ sym (final-reversed none a d ((b, e) ∷ zs) ((w, f) ∷ acc));
          count_is = omega (
            arith,
            held.count_is,
            length-reversed ((b, e) ∷ zs) ((w, f) ∷ acc),
            length-reversed ((a, d) ∷ (b, e) ∷ zs) ((w, f) ∷ acc),
          );
          linked = rejoin t ((w, f) ∷ acc) ((a, d) ∷ (b, e) ∷ zs) b' f';
          distinct =
              reversed-AllDistinct ((a, d) ∷ (b, e) ∷ zs) ((w, f) ∷ acc) (front, at.distinct_front)
                at.distinct_back (Apart-cons a d ((b, e) ∷ zs) ((w, f) ∷ acc) back at.apart);
        },
        same,
      )

  behind_last :
      (b e : ℕ) (acc : List (ℕ × ℕ))
      → Holds s l (reversed ((b, e) ∷ []) acc)
      → NotIn a acc
      → a ≢ b
      → (t : Store) × (m : LinkedList) × (insert_behind s l b a ≡ ok (some (t, m)))
        × Holds t m (reversed ((b, e) ∷ (a, d) ∷ []) acc)
        × Elsewhere s t a acc ((b, e) ∷ [])
  unfolding list_node_add
  behind_last b e acc held back ne =
      let apart = reversed-NotIn a ((b, e) ∷ []) acc ((λ i. ne (sym i)), tt) back in
      let r = list_node_add-Added s l a d p q here (reversed ((b, e) ∷ []) acc) held apart in
      let last = held.tail_is ∙ final-reversed none b e [] acc in
      let same = ap (λ (h : Pointer). list_node_insert_after s l h (some a)) (sym last) in
      (
        r.store,
        r.list,
        rw (same ∙ r.returns) refl,
        rw (sym (reversed-append ((b, e) ∷ []) acc ((a, d) ∷ []))) r.holds,
        λ c h k j. r.others c h (reversed-NotIn c ((b, e) ∷ []) acc j k),
      )

  -- The insertion before the node `b`, whatever is in front of it.
  above :
      (b e : ℕ) (acc zs : List (ℕ × ℕ))
      → At s acc ((b, e) ∷ zs)
      → Holds s l (reversed ((b, e) ∷ zs) acc)
      → NotIn a acc
      → NotIn a ((b, e) ∷ zs)
      → (t : Store) × (m : LinkedList) × (insert_here s l b a ≡ ok (some (t, m)))
        × Holds t m (reversed ((a, d) ∷ (b, e) ∷ zs) acc)
        × Elsewhere s t a acc ((b, e) ∷ zs)
  above b e [] zs at held back front = above_front b e zs held front
  above b e ((w, f) ∷ acc) zs at held back front = above_inner w f b e acc zs at held back front

  inserting :
      (fuel : ℕ) (acc : List (ℕ × ℕ)) (b e : ℕ) (zs : List (ℕ × ℕ))
      → At s acc ((b, e) ∷ zs)
      → Holds s l (reversed ((b, e) ∷ zs) acc)
      → NotIn a acc
      → NotIn a ((b, e) ∷ zs)
      → length zs < fuel
      → (t : Store) × (m : LinkedList) × (insert_from fuel compare s l (some b) a
          ≡ ok (some (t, m)))
        × Holds t m (reversed (insert_by order a d ((b, e) ∷ zs)) acc)
        × Elsewhere s t a acc ((b, e) ∷ zs)
  inserting zero acc b e zs at held back front k = absurd (omega arith)
  inserting (suc fuel) acc b e [] at held back front k =
      let round = one_round fuel b e none (first acc) at.front.0 in
      elim (Bool-cases (is_above (order e d))) [
        | inl up ↦
            let (t, m, runs, h, same) = above b e acc [] at held back front in
            (t, m, round ∙ rw up runs, rw up h, same)
        | inr low ↦
            let (t, m, runs, h, same) = behind_last b e acc held back (λ i. front.0 (sym i)) in
            (t, m, round ∙ rw low runs, rw low h, same)
      ]
  inserting (suc fuel) acc b e ((c, g) ∷ zs) at held back front k =
      let round = one_round fuel b e (some c) (first acc) at.front.0 in
      elim (Bool-cases (is_above (order e d))) [
        | inl up ↦
            let (t, m, runs, h, same) = above b e acc ((c, g) ∷ zs) at held back front in
            (t, m, round ∙ rw up runs, rw up h, same)
        | inr low ↦
            let (t, m, runs, h, same) =
              inserting fuel ((b, e) ∷ acc) c g zs (At-next s acc b e ((c, g) ∷ zs) at) held
                (front.0, back) front.1 (omega arith) in
            (t, m, round ∙ rw low runs, rw low h, λ x ne i j. same x ne (j.0, i) j.1)
      ]

  -- The sorted insertion of a node that is not in the list has no fault and ends within as many
  -- rounds as there are nodes (one for an empty list); the list then holds the new node in front
  -- of the first that compares above it, and no node of another list is written.
  pub list_node_insert_sorted-Holds :
      (xs : List (ℕ × ℕ)) (fuel : ℕ)
      → Holds s l xs
      → NotIn a xs
      → length xs ≤ fuel
      → (t : Store) × (list : LinkedList) × (list_node_insert_sorted fuel compare s l a
          ≡ ok (some (t, list)))
        × Holds t list (insert_by order a d xs)
        × Elsewhere s t a [] xs
  unfolding list_node_insert_sorted
  list_node_insert_sorted-Holds [] fuel held apart k =
      let r = list_node_add-Added s l a d p q here [] held apart in
      let empty = ap (λ (h : Pointer). insert_into fuel compare s l h a) held.head_is in
      (r.store, r.list, empty ∙ rw r.returns refl, r.holds, λ c ne h k. r.others c ne k)
  list_node_insert_sorted-Holds ((b, e) ∷ xs) fuel held apart k =
      let at : At s [] ((b, e) ∷ xs) = record {
        back = tt;
        front = held.linked;
        distinct_back = tt;
        distinct_front = held.distinct;
        apart = tt;
      } in
      let (t, m, runs, h, same) = inserting fuel [] b e xs at held tt apart (omega arith) in
      let from = ap (λ (h : Pointer). insert_into fuel compare s l h a) held.head_is in
      (t, m, from ∙ runs, h, same)
