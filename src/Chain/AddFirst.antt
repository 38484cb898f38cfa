-- ===== src/Chain/AddFirst.antt =====
-- `list_node_add_first` puts a node in front.
use sunspec.Prelude.{
  ℕ, ◌+◌, some, none, false, List, [], ◌∷◌, ◌≡◌, ◌≢◌, refl, sym, arith, length, ok, ◌==◌, ne→==,
  ==-refl,
}
use sunspec.Prelude.Int.{pos}
use sunspec.Chain.{
  node, Pointer, LinkedList, Store, write, list_node_add_first, list_node_insert_before,
}
use sunspec.Chain.Held.{first, NotIn, Holds, write-Linked}

-- The outcome of adding the node at `a`, which holds `d`, in front of a list of nodes.
pub record AddedFirst (s : Store) (l : LinkedList) (xs : List (ℕ × ℕ)) (a d : ℕ) : Type 0 where
  pub store : Store
  pub list : LinkedList
  pub returns : list_node_add_first s l (some a) ≡ ok (pos (length xs + 1), store, list)
  pub holds : Holds store list ((a, d) ∷ xs)
  pub others : (c : ℕ) → c ≢ a → NotIn c xs → store c ≡ s c

module _ (s : Store) (l : LinkedList) (a d : ℕ) (p q : Pointer)
    (here : s a ≡ some (node d p q)) where
  first_of_empty : Holds s l [] → AddedFirst s l [] a d
  unfolding list_node_add_first list_node_insert_before
  first_of_empty held =
      let one : Store = write s a (node d p none) in
      record {
        store = write one a (node d none none);
        list = record { head = some a; tail = some a; count = l.count + 1 };
        returns = rw (held.head_is, here, ==-refl a, held.count_is) refl;
        holds = record {
          head_is = refl;
          tail_is = refl;
          count_is = rw held.count_is refl;
          linked = (rw (==-refl a) refl, tt);
          distinct = (tt, tt);
        };
        others = λ c h k. rw (ne→== c a h) refl;
      }

  first_of_more :
      (c dc : ℕ) (xs : List (ℕ × ℕ))
      → Holds s l ((c, dc) ∷ xs)
      → NotIn a ((c, dc) ∷ xs)
      → AddedFirst s l ((c, dc) ∷ xs) a d
  unfolding list_node_add_first list_node_insert_before
  first_of_more c dc xs held apart =
      let ca : (c == a) ≡ false = ne→== c a apart.0 in
      let ac : (a == c) ≡ false = ne→== a c (λ e. apart.0 (sym e)) in
      let one : Store = write s a (node d p none) in
      let two : Store = write one c (node dc (first xs) (some a)) in
      let three : Store = write two a (node d (some c) none) in
      record {
        store = three;
        list = record { head = some a; tail = l.tail; count = l.count + 1 };
        returns =
            rw (held.head_is, ==-refl c, here, ca, held.linked.0, ac, ==-refl a, held.count_is)
              refl;
        holds = record {
          head_is = refl;
          tail_is = held.tail_is;
          count_is = omega (arith, held.count_is);
          linked = (
            rw (==-refl a) refl,
            (
              rw (ca, ==-refl c) refl,
              write-Linked two (some c) xs a (node d (some c) none) apart.1 (
                  write-Linked one (some c) xs c (node dc (first xs) (some a)) held.distinct.0
                    (write-Linked s (some c) xs a (node d p none) apart.1 held.linked.1)),
            ),
          );
          distinct = (apart, held.distinct);
        };
        others = λ x h k. rw (ne→== x a h, ne→== x c (λ e. k.0 (sym e))) refl;
      }

  -- Adding a node that is allocated, and not in the list yet, in front of a list puts it first:
  -- the call returns the new count, and the list holds the new node and then the old ones, linked
  -- in both directions.
  pub list_node_add_first-AddedFirst :
      (xs : List (ℕ × ℕ)) → Holds s l xs → NotIn a xs → AddedFirst s l xs a d
  list_node_add_first-AddedFirst [] held apart = first_of_empty held
  list_node_add_first-AddedFirst ((c, dc) ∷ xs) held apart = first_of_more c dc xs held apart
