-- ===== src/Chain/Pop.antt =====
-- `list_pop` takes the first node.
use sunspec.Prelude.{
  ℕ, ◌+◌, some, none, false, List, [], ◌∷◌, ◌≡◌, ◌≢◌, refl, sym, ap, arith, length, ok, Run, ◌>>=◌,
  ◌∙◌, ◌==◌, ne→==, ==-refl,
}
use sunspec.Chain.{node, Pointer, LinkedList, Store, write, list_node_del, list_pop}
use sunspec.Chain.Held.{first, NotIn, Holds, write-Linked, final-some, last_in}

-- The outcome of taking the node at `b`, which holds `db`, from the front of a list of nodes.
pub record Popped (s : Store) (l : LinkedList) (b db : ℕ) (xs : List (ℕ × ℕ)) : Type 0 where
  pub store : Store
  pub list : LinkedList
  pub deletes : list_node_del s l (some b) ≡ ok (store, list)
  pub returns : list_pop s l ≡ ok (some b, store, list)
  pub holds : Holds store list xs
  pub alone : store b ≡ some (record { data_at = db; next = none; prev = none })
  pub others : (c : ℕ) → c ≢ b → NotIn c xs → store c ≡ s c

abbrev counted : (c w n : ℕ) → LinkedList
counted c w n = record { head = some c; tail = some w; count = n }

module _ (s : Store) (l : LinkedList) (b db : ℕ) where
  -- What `list_pop` adds to the deletion of the first node.
  popping :
      {t : Store}
      → {m : LinkedList} → l.head ≡ some b
      → list_node_del s l (some b) ≡ ok (t, m)
      → list_pop s l ≡ ok (some b, t, m)
  unfolding list_pop
  popping {t} {m} head gone =
      let rest : Pointer → Run (Pointer × Store × LinkedList) =
        λ h. (do (s₁, l₁) ← list_node_del s l h; ok (h, s₁, l₁)) in
      ap rest head
      ∙ ap (λ (r : Run (Store × LinkedList)). (do (s₁, l₁) ← r; ok (some b, s₁, l₁))) gone

  pop_last : Holds s l ((b, db) ∷ []) → Popped s l b db []
  unfolding list_pop list_node_del
  pop_last held =
      let one : Store = write s b (node db none none) in
      let gone : list_node_del s l (some b)
          ≡ ok (write one b (node db none none), record { head = none; tail = none; count = 0 }) =
        rw
          (
            held.head_is,
            held.tail_is,
            held.count_is,
            held.linked.0,
            ==-refl b,
            held.linked.0,
            ==-refl b,
            held.linked.0,
            ==-refl b,
          )
          refl in
      record {
        store = write one b (node db none none);
        list = record { head = none; tail = none; count = 0 };
        deletes = gone;
        returns = popping held.head_is gone;
        holds = record {
          head_is = refl;
          tail_is = refl;
          count_is = refl;
          linked = tt;
          distinct = tt;
        };
        alone = rw (==-refl b) refl;
        others = λ x h k. rw (ne→== x b h) refl;
      }

  pop_first :
      (c dc : ℕ) (xs : List (ℕ × ℕ))
      → Holds s l ((b, db) ∷ (c, dc) ∷ xs)
      → Popped s l b db ((c, dc) ∷ xs)
  unfolding list_pop list_node_del
  pop_first c dc xs held =
      let cb : (c == b) ≡ false = ne→== c b held.distinct.0.0 in
      let bc : (b == c) ≡ false = ne→== b c (λ e. held.distinct.0.0 (sym e)) in
      let (w, e) = final-some c xs in
      let wb : (w == b) ≡ false = ne→== w b (last_in b c dc w xs held.distinct.0 e) in
      let one : Store = write s c (node dc (first xs) none) in
      let two : Store = write one b (node db none none) in
      let three : Store = write two b (node db none none) in
      let gone : list_node_del s l (some b)
          ≡ ok (three, record { head = some c; tail = l.tail; count = length xs + 1 }) =
        rw
          (
            held.head_is,
            held.tail_is,
            e,
            held.count_is,
            held.linked.0,
            ==-refl b,
            held.linked.0,
            wb,
            held.linked.1.0,
            bc,
            held.linked.0,
            ==-refl b,
          )
          (ap (λ k. ok (three, counted c w k)) (omega arith)) in
      record {
        store = three;
        list = record { head = some c; tail = l.tail; count = length xs + 1 };
        deletes = gone;
        returns = popping held.head_is gone;
        holds = record {
          head_is = refl;
          tail_is = held.tail_is;
          count_is = omega arith;
          linked = (
            rw cb (rw (==-refl c) refl),
            write-Linked two (some c) xs b (node db none none) held.distinct.0.1 (
                write-Linked one (some c) xs b (node db none none) held.distinct.0.1 (
                  write-Linked s (some c) xs c (node dc (first xs) none) held.distinct.1.0
                    held.linked.1.1)),
          );
          distinct = held.distinct.1;
        };
        alone = rw (==-refl b) refl;
        others = λ x h k. rw (ne→== x b h, ne→== x c (λ i. k.0 (sym i))) refl;
      }

  -- Popping a list that holds a node gives its first node, with its links cleared, and leaves a
  -- list that holds the others, in order and linked in both directions.
  pub list_pop-Popped : (xs : List (ℕ × ℕ)) → Holds s l ((b, db) ∷ xs) → Popped s l b db xs
  list_pop-Popped [] held = pop_last held
  list_pop-Popped ((c, dc) ∷ xs) held = pop_first c dc xs held
