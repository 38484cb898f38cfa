-- ===== src/Device/Numbering.antt =====
-- Datasets of one number are numbered from 1 in the order of the device, and a dataset that is
-- the only one of its number has index 0.
use mathlib.Core.Path.{fun_ext, subst}
use sunspec.Prelude.{
  ℕ, suc, ◌+◌, ◌<◌, true, false, Option, some, none, List, [], ◌∷◌, ◌++◌, ◌≡◌, refl, sym, ap, ◌∙◌,
  arith, inl, inr, ◌⊎◌, Bool-cases, ◌==◌, if◌then◌else◌, ==→eq,
}
use sunspec.Decode.{Dataset}
use sunspec.Device.{
  Device, number, with_index, find_last, last_found, has, mark_last, by_search,
  suns_device_add_dataset, attach_dataset,
}
use sunspec.Device.Index.{searched, suns_model_get_did_index-searched}

-- How often a number occurs.
unfoldable pub count : List Dataset → ℕ → ℕ
count [] did = 0
count (d ∷ ds) did = (if number d == did then 1 else 0) + count ds did

-- The index of a dataset with `before` others of its number in front, of `all` in the device.
abbrev pub index_of : (all before : ℕ) → ℕ
index_of all before = if all == 1 then 0 else before + 1

abbrev pub bump : (ℕ → ℕ) → ℕ → ℕ → ℕ
bump f k did = if k == did then f did + 1 else f did

-- Every index is the one that the numbers call for: `all` counts the whole device, and `before`
-- the datasets in front.
abbrev pub Ranked : (all before : ℕ → ℕ) → List Dataset → Type 0
Ranked all before [] = Unit {0}
Ranked all before (d ∷ ds) =
    (d.index ≡ index_of (all (number d)) (before (number d)))
    × Ranked all (bump before (number d)) ds

abbrev pub IsNumbered : List Dataset → Type 0
IsNumbered ds = Ranked (count ds) (λ _. 0) ds

has-count :
    (ds : List Dataset) (x : ℕ)
    → (has x ds ≡ true → 0 < count ds x) × (has x ds ≡ false → count ds x ≡ 0)
unfolding has count
has-count [] x = (λ h. cc, λ h. refl)
has-count (d ∷ ds) x =
    let (p, q) = has-count ds x in
    (
      λ h. elim (Bool-cases (has x ds)) [
        | inl a ↦ let k = p a in omega arith
        | inr b ↦ ground arith
      ],
      λ h. elim (Bool-cases (has x ds)) [
        | inl a ↦ absurd (ground arith)
        | inr b ↦ let k = q b in ground arith
      ],
    )

-- The outcome of the search among `ds` behind `before`: the last dataset with the number `x`
-- carries the index of the last place.
data Last (all before : ℕ → ℕ) (x : ℕ) (ds : List Dataset) : Option Dataset → Type 0 where
  absent : count ds x ≡ 0 → Last all before x ds none
  present :
      {f : Dataset} (b : ℕ)
      → suc b ≡ before x + count ds x
      → 0 < count ds x
      → f.index ≡ index_of (all x) b
      → Last all before x ds (some f)

Last-cons :
    (all before : ℕ → ℕ) (x : ℕ) (d : Dataset) (ds : List Dataset) {r : Option Dataset}
    → d.index ≡ index_of (all (number d)) (before (number d))
    → Last all (bump before (number d)) x ds r
    → Last all before x (d ∷ ds) (last_found r (if number d == x then some d else none))
unfolding count
Last-cons all before x d ds i (present b e p j) = present b (ground arith) (ground arith) j
Last-cons all before x d ds i (absent z) = elim (Bool-cases (number d == x)) [
  | inr n ↦ rw n (absent (rw n (omega arith)))
  | inl n ↦
      let same : number d ≡ x = ==→eq (number d) x n in
      rw n (present (before x) (ground arith) (ground arith) (rw same at i))
]

find_last-Last :
    (ds : List Dataset) (all before : ℕ → ℕ) (x : ℕ)
    → Ranked all before ds
    → Last all before x ds (find_last x ds)
unfolding find_last count
find_last-Last [] all before x r = absent refl
find_last-Last (d ∷ ds) all before x r =
    Last-cons all before x d ds r.0 (find_last-Last ds all (bump before (number d)) x r.1)

index_more : (i all before : ℕ) → 1 < all → i ≡ index_of all before → i ≡ index_of (all + 1) before
index_more i all before h e = ground arith

-- One more dataset of the number `x` in the device changes no index, if there were none or more
-- than one before.
Ranked-more :
    (ds : List Dataset) (all before : ℕ → ℕ) (x : ℕ)
    → (count ds x ≡ 0) ⊎ (1 < all x)
    → Ranked all before ds
    → Ranked (bump all x) before ds
unfolding count
Ranked-more [] all before x h r = tt
Ranked-more (d ∷ ds) all before x h r = (
  elim (Bool-cases (x == number d)) [
    | inr n ↦ rw n r.0
    | inl n ↦ rw n (index_more d.index (all (number d)) (before (number d)) (many n) r.0)
  ],
  Ranked-more ds all (bump before (number d)) x
      (elim h [ inl z ↦ inl (omega arith) | inr m ↦ inr m ]) r.1,
)
  where
    many : (x == number d) ≡ true → 1 < all (number d)
    many n = elim h [ inl z ↦ absurd (ground arith) | inr m ↦ rw (==→eq x (number d) n) at m ]

-- The only dataset of a number gets the index 1 when a second one comes.
Ranked-mark :
    (ds : List Dataset) (all before : ℕ → ℕ) (x : ℕ)
    → all x ≡ 1
    → before x + count ds x ≡ 1
    → 0 < count ds x
    → Ranked all before ds
    → Ranked (bump all x) before (mark_last x ds)
unfolding count mark_last
Ranked-mark [] all before x one sum some_x r = tt
Ranked-mark (d ∷ ds) all before x one sum some_x r = elim (Bool-cases (has x ds)) [
  | inl a ↦
      let later : 0 < count ds x = (has-count ds x).0 a in
      let other : (x == number d) ≡ false = ground arith in
      rw a
        (rw other r.0, Ranked-mark ds all (bump before (number d)) x one (ground arith) later r.1)
  | inr b ↦
      let none_later : count ds x ≡ 0 = (has-count ds x).1 b in
      let here : (number d == x) ≡ true = ground arith in
      let same : number d ≡ x = ==→eq (number d) x here in
      rw (b, here)
        (rw same (ground arith), Ranked-more ds all (bump before (number d)) x (inl none_later) r.1)
]

count-mark_last : (x y : ℕ) (ds : List Dataset) → count (mark_last x ds) y ≡ count ds y
unfolding count mark_last
count-mark_last x y [] = refl
count-mark_last x y (d ∷ ds) = ground (arith, count-mark_last x y ds)

-- What the search gives: the datasets as a device with one more of the number needs them, their
-- numbers unchanged, and the index of the new one.
record Next (ds : List Dataset) (x : ℕ) (r : List Dataset × ℕ) : Type 0 where
  ranked : Ranked (bump (count ds) x) (λ _. 0) r.0
  counts : (y : ℕ) → count r.0 y ≡ count ds y
  index_is : r.1 ≡ index_of (count ds x + 1) (count ds x)

by_search-Next :
    (ds : List Dataset) (x : ℕ) {o : Option Dataset}
    → IsNumbered ds
    → Last (count ds) (λ _. 0) x ds o
    → Next ds x (by_search ds x o)
by_search-Next ds x is (absent z) = record {
  ranked = Ranked-more ds (count ds) (λ _. 0) x (inl z) is;
  counts = λ y. refl;
  index_is = ground arith;
}
by_search-Next ds x is (present {f} b e p i) = elim (Bool-cases (f.index == 0)) [
  | inl q ↦
      let one : count ds x ≡ 1 = ground arith in
      rw q (record {
        ranked = Ranked-mark ds (count ds) (λ _. 0) x one (omega arith) p is;
        counts = λ y. count-mark_last x y ds;
        index_is = ground arith;
      })
  | inr q ↦
      let many : 1 < count ds x = ground arith in
      rw q (record {
        ranked = Ranked-more ds (count ds) (λ _. 0) x (inr many) is;
        counts = λ y. refl;
        index_is = ground arith;
      })
]

Ranked-concat :
    (ds : List Dataset) (all before : ℕ → ℕ) (d : Dataset)
    → Ranked all before ds
    → d.index ≡ index_of (all (number d)) (before (number d) + count ds (number d))
    → Ranked all before (ds ++ d ∷ [])
unfolding count
Ranked-concat [] all before d r i = (i ∙ ap (index_of (all (number d))) (omega arith), tt)
Ranked-concat (e ∷ ds) all before d r i = (
  r.0,
  Ranked-concat ds all (bump before (number e)) d r.1
      (i ∙ ap (index_of (all (number d))) (ground arith)),
)

count-concat :
    (ds : List Dataset) (d : Dataset) (y : ℕ)
    → count (ds ++ d ∷ []) y ≡ bump (count ds) (number d) y
unfolding count
count-concat [] d y = ground arith
count-concat (e ∷ ds) d y = ground (arith, count-concat ds d y)

datasets-add :
    (device : Device) (d : Dataset)
    → (suns_device_add_dataset device d).0.datasets ≡ device.datasets ++ d ∷ []
unfolding suns_device_add_dataset
datasets-add device d = elim (Bool-cases (number d == 1)) [ inl e ↦ rw e | inr e ↦ rw e ]

Next-IsNumbered :
    (ds : List Dataset) (d : Dataset) {r : List Dataset × ℕ}
    → Next ds (number d) r
    → IsNumbered (r.0 ++ with_index r.1 d ∷ [])
Next-IsNumbered ds d {r} n =
    let new = with_index r.1 d in
    let all = bump (count ds) (number d) in
    let same : count (r.0 ++ new ∷ []) ≡ all =
      fun_ext λ y. count-concat r.0 new y ∙ ground (arith, n.counts y) in
    subst (λ f. Ranked f (λ _. 0) (r.0 ++ new ∷ [])) (sym same)
      (Ranked-concat r.0 all (λ _. 0) new n.ranked (rw (n.counts (number d)) (ground arith)))

abbrev append : Dataset → List Dataset × ℕ → List Dataset
append d r = r.0 ++ with_index r.1 d ∷ []

datasets-attach :
    (device : Device) (d : Dataset)
    → (attach_dataset device d).datasets ≡ append d (searched device.datasets (number d))
unfolding attach_dataset
datasets-attach device d =
    datasets-add _ _ ∙ ap (append d) (suns_model_get_did_index-searched device.datasets (number d))

-- Attaching a decoded dataset to a device keeps its numbering: if a number occurs once, its
-- dataset has index 0, and if it occurs more often, its datasets have 1, 2, … in their order.
pub attach_dataset-IsNumbered :
    (device : Device) (d : Dataset)
    → IsNumbered device.datasets
    → IsNumbered (attach_dataset device d).datasets
attach_dataset-IsNumbered device d is =
    let ds = device.datasets in
    let found = find_last-Last ds (count ds) (λ _. 0) (number d) is in
    subst IsNumbered (sym (datasets-attach device d))
      (Next-IsNumbered ds d (by_search-Next ds (number d) is found))
