-- ===== src/Device/Index.antt =====
-- The shortcut of `suns_model_get_did_index` over the last dataset agrees with the search.
use mathlib.Core.Option.{some-injective}
use sunspec.Prelude.{
  ◌∙◌, ℕ, Bool, true, false, some, none, List, [], ◌∷◌, ◌≡◌, refl, sym, ap, arith, inl, inr,
  Bool-cases, ◌==◌, if◌then◌else◌, length, ◌||◌,
}
use sunspec.Decode.{Dataset}
use sunspec.Device.{
  number, with_index, tail, mark_tail, find_last, last_found, has, mark_last, by_search, by_tail,
  suns_model_get_did_index,
}

-- The search alone, without the two shortcuts.
abbrev pub searched : List Dataset → ℕ → List Dataset × ℕ
searched ds did = by_search ds did (find_last did ds)

tail-some : (d : Dataset) (ds : List Dataset) → (l : Dataset) × (tail (d ∷ ds) ≡ some l)
unfolding tail
tail-some d [] = (d, refl)
tail-some d (e ∷ ds) = tail-some e ds

tail-find_last :
    (did : ℕ) (ds : List Dataset) {l : Dataset}
    → tail ds ≡ some l
    → (number l == did) ≡ true
    → find_last did ds ≡ some l
unfolding tail find_last
tail-find_last did [] e h = cc
tail-find_last did (d ∷ []) {l} e h = let same : d ≡ l = some-injective d l e in rw (same, h)
tail-find_last did (d ∷ e' ∷ ds) e h =
    ap (λ r. last_found r (if number d == did then some d else none))
      (tail-find_last did (e' ∷ ds) e h)

or_true : (b : Bool) → (b || true) ≡ true
or_true true = refl
or_true false = refl

tail-mark_last :
    (did : ℕ) (ds : List Dataset) {l : Dataset}
    → tail ds ≡ some l
    → (number l == did) ≡ true
    → (has did ds ≡ true) × (mark_tail ds ≡ mark_last did ds)
unfolding tail mark_tail mark_last has
tail-mark_last did [] e h = cc
tail-mark_last did (d ∷ []) {l} e h =
    let same : d ≡ l = some-injective d l e in (rw (same, h), rw (same, h))
tail-mark_last did (d ∷ e' ∷ ds) e h =
    let (there, same) = tail-mark_last did (e' ∷ ds) e h in
    (
      ap (λ b. number d == did || b) there ∙ or_true (number d == did),
      ap (◌∷◌ d) same
          ∙ ap
              (λ b.
                if b
                then d ∷ mark_last did (e' ∷ ds)
                else (if number d == did then with_index 1 d ∷ e' ∷ ds else d ∷ e' ∷ ds))
              (sym there),
    )

shortcut :
    (did : ℕ) (ds : List Dataset) (l : Dataset)
    → tail ds ≡ some l
    → by_tail ds did (some l) ≡ searched ds did
shortcut did ds l e = elim (Bool-cases (number l == did)) [
  | inr n ↦ rw n
  | inl n ↦ rw (n, tail-find_last did ds e n, (tail-mark_last did ds e n).1)
]

-- The shortcuts for an empty device and for a repeated last model change nothing: the index and
-- the datasets are those of the search through all datasets.
pub suns_model_get_did_index-searched :
    (ds : List Dataset) (did : ℕ) → suns_model_get_did_index ds did ≡ searched ds did
unfolding suns_model_get_did_index find_last
suns_model_get_did_index-searched [] did = refl
suns_model_get_did_index-searched (d ∷ ds) did =
    let (l, e) = tail-some d ds in
    let nonempty : (length (d ∷ ds) == 0) ≡ false = ground arith in
    rw (nonempty, e) (shortcut did (d ∷ ds) l e)
