-- ===== src/Chain/Add.antt =====
-- `list_node_add` appends.
use mathlib.Core.Option.{some-injective}
use sunspec.Prelude.{
  ℕ, ◌+◌, some, none, false, List, [], ◌∷◌, ◌++◌, ◌≡◌, ◌≢◌, refl, sym, ap, ◌∙◌, arith, length, ok,
  ◌==◌, ne→==, ==-refl, length-append,
}
use sunspec.Prelude.Int.{pos}
use sunspec.Chain.{
  node, Pointer, ListNode, LinkedList, Store, write, list_node_add, list_node_insert_after,
}
use sunspec.Chain.Held.{final, Linked, NotIn, AllDistinct, Holds, final-some, last_in}

last_apart :
    (b c d w : ℕ) (xs : List (ℕ × ℕ)) → NotIn b ((c, d) ∷ xs) → final (some c) xs ≡ some w → b ≢ w
last_apart b c d w [] h e = λ p. h.0 (some-injective c w e ∙ sym p)
last_apart b c d w ((c', d') ∷ xs) h e = last_apart b c' d' w xs h.1 e

-- The links once the last node `w` points to the new node `a`, which points back.
Linked-snoc :
    (s t : Store) (a d w : ℕ) (before : Pointer) (b db : ℕ) (xs : List (ℕ × ℕ))
    → Linked s before ((b, db) ∷ xs)
    → NotIn a ((b, db) ∷ xs)
    → AllDistinct ((b, db) ∷ xs)
    → final (some b) xs ≡ some w
    → t a ≡ some (record { data_at = d; next = none; prev = some w })
    → ((m : ListNode) → s w ≡ some m → t w ≡ some (record m { next = some a }))
    → ((c : ℕ) → c ≢ a → c ≢ w → t c ≡ s c)
    → Linked t before ((b, db) ∷ xs ++ (a, d) ∷ [])
Linked-snoc s t a d w before b db [] links apart distinct e new old same =
    let p : b ≡ w = some-injective b w e in (rw p (old _ (rw p at links.0)), (rw p new, tt))
Linked-snoc s t a d w before b db ((c, dc) ∷ xs) links apart distinct e new old same = (
  same b apart.0 (last_apart b c dc w xs distinct.0 e) ∙ links.0,
  Linked-snoc s t a d w (some b) c dc xs links.1 apart.1 distinct.1 e new old same,
)

final-append :
    (before : Pointer) (xs : List (ℕ × ℕ)) (a d : ℕ) → final before (xs ++ (a, d) ∷ []) ≡ some a
final-append before [] a d = refl
final-append before ((b, _) ∷ xs) a d = final-append (some b) xs a d

append-NotIn :
    (x : ℕ) (xs : List (ℕ × ℕ)) (a d : ℕ) → NotIn x xs → a ≢ x → NotIn x (xs ++ (a, d) ∷ [])
append-NotIn x [] a d h k = (k, tt)
append-NotIn x ((b, _) ∷ xs) a d h k = (h.0, append-NotIn x xs a d h.1 k)

append-AllDistinct :
    (xs : List (ℕ × ℕ)) (a d : ℕ) → AllDistinct xs → NotIn a xs → AllDistinct (xs ++ (a, d) ∷ [])
append-AllDistinct [] a d h k = (tt, tt)
append-AllDistinct ((b, _) ∷ xs) a d h k =
    (append-NotIn b xs a d h.0 (λ e. k.0 (sym e)), append-AllDistinct xs a d h.1 k.1)

last_loaded :
    (s : Store) (before : Pointer) (b db w : ℕ) (xs : List (ℕ × ℕ))
    → Linked s before ((b, db) ∷ xs)
    → final (some b) xs ≡ some w
    → (m : ListNode) × (s w ≡ some m)
last_loaded s before b db w [] links e =
    let p : b ≡ w = some-injective b w e in (_, rw p at links.0)
last_loaded s before b db w ((c, dc) ∷ xs) links e = last_loaded s (some b) c dc w xs links.1 e

-- The outcome of adding the node at `a`, which holds `d`, to a list of nodes.
pub record Added (s : Store) (l : LinkedList) (xs : List (ℕ × ℕ)) (a d : ℕ) : Type 0 where
  pub store : Store
  pub list : LinkedList
  pub returns : list_node_add s l (some a) ≡ ok (pos (length xs + 1), store, list)
  pub holds : Holds store list (xs ++ (a, d) ∷ [])
  pub others : (c : ℕ) → c ≢ a → NotIn c xs → store c ≡ s c

abbrev pointing : ℕ → ListNode → ListNode
pointing a k = record k { next = some a }

module _ (s : Store) (l : LinkedList) (a d : ℕ) (p q : Pointer)
    (here : s a ≡ some (node d p q)) where
  add_to_empty : Holds s l [] → Added s l [] a d
  unfolding list_node_add list_node_insert_after
  add_to_empty held =
      let one : Store = write s a (node d none q) in
      record {
        store = write one a (node d none none);
        list = record { head = some a; tail = some a; count = l.count + 1 };
        returns = rw (held.tail_is, here, ==-refl a, held.count_is) refl;
        holds = record {
          head_is = refl;
          tail_is = refl;
          count_is = rw held.count_is refl;
          linked = (rw (==-refl a) refl, tt);
          distinct = (tt, tt);
        };
        others = λ c h k. rw (ne→== c a h) refl;
      }

  add_behind :
      (b db : ℕ) (xs : List (ℕ × ℕ))
      → Holds s l ((b, db) ∷ xs)
      → NotIn a ((b, db) ∷ xs)
      → Added s l ((b, db) ∷ xs) a d
  unfolding list_node_add list_node_insert_after
  add_behind b db xs held apart =
      let (w, e) = final-some b xs in
      let (m, last) = last_loaded s none b db w xs held.linked e in
      let ne : (w == a) ≡ false = ne→== w a (last_in a b db w xs apart e) in
      let en : (a == w) ≡ false = ne→== a w (λ i. last_in a b db w xs apart e (sym i)) in
      let one : Store = write s a (node d none q) in
      let two : Store = write one w (record m { next = some a }) in
      let three : Store = write two a (node d none (some w)) in
      record {
        store = three;
        list = record { head = l.head; tail = some a; count = l.count + 1 };
        returns =
            rw (held.tail_is, e, ==-refl w, here, ne, last, en, ==-refl a, held.count_is) refl;
        holds = record {
          head_is = held.head_is;
          tail_is = sym (final-append none ((b, db) ∷ xs) a d);
          count_is = omega (arith, held.count_is, length-append xs ((a, d) ∷ []));
          linked =
              Linked-snoc s three a d w none b db xs held.linked apart held.distinct e
                (rw (==-refl a) refl)
                (λ m' f.
                  rw (ne, ==-refl w)
                    (ap (λ k. some (pointing a k)) (some-injective m m' (sym last ∙ f))))
                (λ c h k. rw (ne→== c a h, ne→== c w k) refl);
          distinct = append-AllDistinct ((b, db) ∷ xs) a d held.distinct apart;
        };
        others = λ c h k. rw (ne→== c a h, ne→== c w (λ i. last_in c b db w xs k e (sym i))) refl;
      }

  -- Adding a node that is allocated, and not in the list yet, appends it: the call returns the new
  -- count, the list holds the old nodes and then the new one, linked in both directions, and no
  -- node that is in neither is written.
  pub list_node_add-Added : (xs : List (ℕ × ℕ)) → Holds s l xs → NotIn a xs → Added s l xs a d
  list_node_add-Added [] held apart = add_to_empty held
  list_node_add-Added ((b, db) ∷ xs) held apart = add_behind b db xs held apart
