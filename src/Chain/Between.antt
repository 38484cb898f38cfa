-- ===== src/Chain/Between.antt =====
-- `list_node_insert_before` at a node that has one in front of it.
use sunspec.Prelude.{
  ℕ, ◌+◌, some, none, false, List, [], ◌∷◌, ◌≡◌, ◌≢◌, refl, sym, ok, ne→==, ==-refl,
}
use sunspec.Prelude.Int.{pos}
use sunspec.Chain.{
  same_pointer, node, Pointer, LinkedList, ListNode, Store, write, list_node_insert_before,
}
use sunspec.Chain.Held.{first, Linked, NotIn, AllDistinct, write-Linked}
use sunspec.Chain.Reverse.{reversed, Apart}

-- The nodes `acc`, from the last to the first, linked in front of `after`.
abbrev pub LinkedBack : Store → (after : Pointer) → List (ℕ × ℕ) → Type 0
LinkedBack s after [] = Unit {0}
LinkedBack s after ((w, f) ∷ acc) =
    (s w ≡ some (node f after (first acc))) × LinkedBack s (some w) acc

-- A list at some node: `acc` are the nodes in front of it, the nearest first.
pub record At (s : Store) (acc zs : List (ℕ × ℕ)) : Type 0 where
  pub back : LinkedBack s (first zs) acc
  pub front : Linked s (first acc) zs
  pub distinct_back : AllDistinct acc
  pub distinct_front : AllDistinct zs
  pub apart : Apart zs acc

-- Only the node at `a` and those of the list are written.
abbrev pub Elsewhere : (s t : Store) → (a : ℕ) → (acc zs : List (ℕ × ℕ)) → Type 0
Elsewhere s t a acc zs = (c : ℕ) → c ≢ a → NotIn c acc → NotIn c zs → t c ≡ s c

pub rejoin :
    (s : Store) (acc zs : List (ℕ × ℕ))
    → LinkedBack s (first zs) acc
    → Linked s (first acc) zs
    → Linked s none (reversed zs acc)
rejoin s [] zs back front = front
rejoin s ((w, f) ∷ acc) zs back front = rejoin s acc ((w, f) ∷ zs) back.1 (back.0, front)

-- A write elsewhere keeps the links in front.
write-LinkedBack :
    (s : Store) (after : Pointer) (acc : List (ℕ × ℕ)) (a : ℕ) (n : ListNode)
    → NotIn a acc
    → LinkedBack s after acc
    → LinkedBack (write s a n) after acc
write-LinkedBack s after [] a n h k = tt
write-LinkedBack s after ((b, d) ∷ acc) a n h k =
    (rw (ne→== b a h.0) k.0, write-LinkedBack s (some b) acc a n h.1 k.1)

Apart-rest : (z : ℕ × ℕ) (zs acc : List (ℕ × ℕ)) → Apart (z ∷ zs) acc → Apart zs acc
Apart-rest z zs [] h = tt
Apart-rest z zs ((w, f) ∷ acc) h = (h.0.1, Apart-rest z zs acc h.1)

pub Apart-first : (b e : ℕ) (zs acc : List (ℕ × ℕ)) → Apart ((b, e) ∷ zs) acc → NotIn b acc
Apart-first b e zs [] h = tt
Apart-first b e zs ((w, f) ∷ acc) h = ((λ p. h.0.0 (sym p)), Apart-first b e zs acc h.1)

-- The next node.
pub At-next :
    (s : Store) (acc : List (ℕ × ℕ)) (b e : ℕ) (zs : List (ℕ × ℕ))
    → At s acc ((b, e) ∷ zs)
    → At s ((b, e) ∷ acc) zs
At-next s acc b e zs h = record {
  back = (h.front.0, h.back);
  front = h.front.1;
  distinct_back = (Apart-first b e zs acc h.apart, h.distinct_back);
  distinct_front = h.distinct_front.1;
  apart = (h.distinct_front.0, Apart-rest (b, e) zs acc h.apart);
}

module _ (s : Store) (l : LinkedList) (a d : ℕ) (p q : Pointer)
    (here : s a ≡ some (node d p q)) where
  abbrev pub between_1 : (w f : ℕ) (before : Pointer) → Store
  between_1 w f before = write s w (node f (some a) before)

  abbrev pub between_2 : (w f : ℕ) (before : Pointer) → Store
  between_2 w f before = write (between_1 w f before) a (node d p (some w))

  abbrev pub between_3 : (w f b e : ℕ) (before next : Pointer) → Store
  between_3 w f b e before next = write (between_2 w f before) b (node e next (some a))

  -- The store after the four writes.
  abbrev pub between : (w f b e : ℕ) (before next : Pointer) → Store
  between w f b e before next = write (between_3 w f b e before next) a (node d (some b) (some w))

  -- None of the writes is to these nodes.
  between-LinkedBack :
      (w f b e : ℕ) (before next after : Pointer) (acc : List (ℕ × ℕ))
      → NotIn w acc
      → NotIn a acc
      → NotIn b acc
      → LinkedBack s after acc
      → LinkedBack (between w f b e before next) after acc
  between-LinkedBack w f b e before next after acc nw na nb h =
      write-LinkedBack (between_3 w f b e before next) after acc a _ na (
        write-LinkedBack (between_2 w f before) after acc b _ nb (
          write-LinkedBack (between_1 w f before) after acc a _ na
            (write-LinkedBack s after acc w _ nw h)))

  between-Linked :
      (w f b e : ℕ) (before next behind : Pointer) (zs : List (ℕ × ℕ))
      → NotIn w zs
      → NotIn a zs
      → NotIn b zs
      → Linked s behind zs
      → Linked (between w f b e before next) behind zs
  between-Linked w f b e before next behind zs nw na nb h =
      write-Linked (between_3 w f b e before next) behind zs a _ na (
        write-Linked (between_2 w f before) behind zs b _ nb (
          write-Linked (between_1 w f before) behind zs a _ na (write-Linked s behind zs w _ nw h)))

  pub insert_between :
      (w f b e : ℕ) (acc zs : List (ℕ × ℕ))
      → At s ((w, f) ∷ acc) ((b, e) ∷ zs)
      → same_pointer l.head (some b) ≡ false
      → NotIn a ((w, f) ∷ acc)
      → NotIn a ((b, e) ∷ zs)
      → (t : Store) × (list_node_insert_before s l (some b) (some a)
          ≡ ok (pos (l.count + 1), t, record l { count = l.count + 1 }))
        × LinkedBack t (some a) ((w, f) ∷ acc)
        × Linked t (some w) ((a, d) ∷ (b, e) ∷ zs)
        × Elsewhere s t a ((w, f) ∷ acc) ((b, e) ∷ zs)
  unfolding list_node_insert_before
  insert_between w f b e acc zs at inner back front =
      let wa = ne→== w a back.0 in
      let aw = ne→== a w (λ i. back.0 (sym i)) in
      let ba = ne→== b a front.0 in
      let ab = ne→== a b (λ i. front.0 (sym i)) in
      let bw = ne→== b w at.apart.0.0 in
      let wb = ne→== w b (λ i. at.apart.0.0 (sym i)) in
      (
        between w f b e (first acc) (first zs),
        rw (inner, at.front.0, at.back.0, aw, here, ba, bw, at.front.0, ab, ==-refl a) refl,
        (
          rw (wa, wb, ==-refl w) refl,
          between-LinkedBack w f b e (first acc) (first zs) (some w) acc at.distinct_back.0 back.1
              (Apart-first b e zs ((w, f) ∷ acc) at.apart).1 at.back.1,
        ),
        (
          rw (==-refl a) refl,
          (
            rw (ba, ==-refl b) refl,
            between-Linked w f b e (first acc) (first zs) (some b) zs at.apart.0.1 front.1
                at.distinct_front.0 at.front.1,
          ),
        ),
        λ c ne h k.
            rw (ne→== c a ne, ne→== c b (λ i. k.0 (sym i)), ne→== c w (λ i. h.0 (sym i))) refl,
      )
