-- ===== src/Chain/Reverse.antt =====
-- `list_reverse` reverses a list in place.
use sunspec.Prelude.{
  ℕ, zero, suc, ◌+◌, ◌≤◌, some, none, List, [], ◌∷◌, ◌≡◌, refl, sym, ◌∙◌, arith, length, ok,
  ==-refl,
}
use sunspec.Chain.{Pointer, LinkedList, Store, write, reverse_nodes, list_reverse}
use sunspec.Chain.Held.{first, final, Linked, NotIn, AllDistinct, Holds, write-Linked}

-- The nodes `zs` in reverse, in front of `acc`.
abbrev pub reversed : (acc zs : List (ℕ × ℕ)) → List (ℕ × ℕ)
reversed acc [] = acc
reversed acc (z ∷ zs) = reversed (z ∷ acc) zs

abbrev pub Apart : List (ℕ × ℕ) → List (ℕ × ℕ) → Type 0
Apart acc [] = Unit {0}
Apart acc ((a, _) ∷ zs) = NotIn a acc × Apart acc zs

pub Apart-nil : (zs : List (ℕ × ℕ)) → Apart [] zs
Apart-nil [] = tt
Apart-nil ((a, _) ∷ zs) = (tt, Apart-nil zs)

pub Apart-cons :
    (a d : ℕ) (acc zs : List (ℕ × ℕ)) → NotIn a zs → Apart acc zs → Apart ((a, d) ∷ acc) zs
Apart-cons a d acc [] h k = tt
Apart-cons a d acc ((b, _) ∷ zs) h k = (((λ e. h.0 (sym e)), k.0), Apart-cons a d acc zs h.1 k.1)

pub reversed-AllDistinct :
    (acc zs : List (ℕ × ℕ))
    → AllDistinct acc
    → AllDistinct zs
    → Apart acc zs
    → AllDistinct (reversed acc zs)
reversed-AllDistinct acc [] h k p = h
reversed-AllDistinct acc ((a, d) ∷ zs) h k p =
    reversed-AllDistinct ((a, d) ∷ acc) zs (p.0, h) k.1 (Apart-cons a d acc zs k.0 p.1)

pub first-reversed : (acc zs : List (ℕ × ℕ)) → first (reversed acc zs) ≡ final (first acc) zs
first-reversed acc [] = refl
first-reversed acc ((a, d) ∷ zs) = first-reversed ((a, d) ∷ acc) zs

pub final-reversed :
    (p : Pointer) (b e : ℕ) (acc zs : List (ℕ × ℕ))
    → final p (reversed ((b, e) ∷ acc) zs) ≡ final (some b) acc
final-reversed p b e acc [] = refl
final-reversed p b e acc ((a, d) ∷ zs) = final-reversed p a d ((b, e) ∷ acc) zs

pub length-reversed : (acc zs : List (ℕ × ℕ)) → length (reversed acc zs) ≡ length acc + length zs
length-reversed acc [] = omega arith
length-reversed acc (z ∷ zs) = omega (arith, length-reversed (z ∷ acc) zs)

ends : (xs : List (ℕ × ℕ)) → final none (reversed [] xs) ≡ first xs
ends [] = refl
ends ((a, d) ∷ xs) = final-reversed none a d [] xs

abbrev turned : Store → (a d : ℕ) (next prev : Pointer) → Store
turned s a d n p =
    write (write s a (record { data_at = d; next = n; prev = n })) a
      (record { data_at = d; next = p; prev = n })

turn_one :
    (fuel : ℕ) (s : Store) (a d : ℕ) (n p : Pointer)
    → s a ≡ some (record { data_at = d; next = n; prev = p })
    → reverse_nodes (suc fuel) s (some a) ≡ reverse_nodes fuel (turned s a d n p) n
unfolding reverse_nodes
turn_one fuel s a d n p here = rw (here, ==-refl a) refl

turned-Linked :
    (s : Store) (a d : ℕ) (n p before : Pointer) (xs : List (ℕ × ℕ))
    → NotIn a xs
    → Linked s before xs
    → Linked (turned s a d n p) before xs
turned-Linked s a d n p before xs h l =
    write-Linked _ before xs a _ h
      (write-Linked s before xs a (record { data_at = d; next = n; prev = n }) h l)

-- Behind the current node the links are the old ones; in front of it they are turned around.
reverse_nodes-Linked :
    (fuel : ℕ) (s : Store) (acc zs : List (ℕ × ℕ))
    → Linked s (first zs) acc
    → Linked s (first acc) zs
    → AllDistinct zs
    → Apart acc zs
    → length zs ≤ fuel
    → (t : Store) × (reverse_nodes fuel s (first zs) ≡ ok (some t))
      × Linked t none (reversed acc zs)
unfolding reverse_nodes
reverse_nodes-Linked zero s acc [] done links h p k = (s, refl, done)
reverse_nodes-Linked (suc fuel) s acc [] done links h p k = (s, refl, done)
reverse_nodes-Linked zero s acc ((a, d) ∷ zs) done links h p k = absurd (omega arith)
reverse_nodes-Linked (suc fuel) s acc ((a, d) ∷ zs) done links h p k =
    let two : Store = turned s a d (first zs) (first acc) in
    let (t, e, r) =
      reverse_nodes-Linked fuel two ((a, d) ∷ acc) zs
        (rw (==-refl a) refl, turned-Linked s a d (first zs) (first acc) (some a) acc p.0 done)
        (turned-Linked s a d (first zs) (first acc) (some a) zs h.0 links.1) h.1
        (Apart-cons a d acc zs h.0 p.1) (omega arith) in
    (t, turn_one fuel s a d (first zs) (first acc) links.0 ∙ e, r)

-- With as many rounds as there are nodes, the reversal ends with no fault, and the same nodes are
-- held in reverse order, linked in both directions.
pub list_reverse-Holds :
    (s : Store) (l : LinkedList) (xs : List (ℕ × ℕ)) (fuel : ℕ)
    → Holds s l xs
    → length xs ≤ fuel
    → (t : Store) × (list : LinkedList) × (list_reverse fuel s l ≡ ok (some (t, list)))
      × Holds t list (reversed [] xs)
unfolding list_reverse
list_reverse-Holds s l xs fuel held k =
    let (t, e, links) =
      reverse_nodes-Linked fuel s [] xs tt held.linked held.distinct (Apart-nil xs) k in
    (
      t,
      record l { head = l.tail; tail = l.head },
      rw (held.head_is, e) refl,
      record {
        head_is = held.tail_is ∙ sym (first-reversed [] xs);
        tail_is = held.head_is ∙ sym (ends xs);
        count_is = omega (arith, held.count_is, length-reversed [] xs);
        linked = links;
        distinct = reversed-AllDistinct [] xs tt held.distinct (Apart-nil xs);
      },
    )
