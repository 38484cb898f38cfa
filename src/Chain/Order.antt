-- ===== src/Chain/Order.antt =====
-- The insertion into a list of nodes keeps it in order and permutes it.
use mathlib.Core.List.{Perm}
use mathlib.Core.List.Perm
use sunspec.Prelude.{
  ℕ, ◌+◌, true, false, List, [], ◌∷◌, ◌≡◌, refl, arith, length, if◌then◌else◌, Bool-cases, inl, inr,
}
use sunspec.Prelude.Int.{ℤ}
use sunspec.Chain.Held.{NotIn}
use sunspec.Chain.Sorted.{is_above}

-- A node in front of the first that is above it.
abbrev pub insert_by : (order : ℕ → ℕ → ℤ) → (a d : ℕ) → List (ℕ × ℕ) → List (ℕ × ℕ)
insert_by order a d [] = (a, d) ∷ []
insert_by order a d ((b, e) ∷ xs) =
    if is_above (order e d) then (a, d) ∷ (b, e) ∷ xs else (b, e) ∷ insert_by order a d xs

abbrev pub NotAbove : (order : ℕ → ℕ → ℤ) → (d : ℕ) → List (ℕ × ℕ) → Type 0
NotAbove order d [] = Unit {0}
NotAbove order d ((_, e) ∷ _) = is_above (order d e) ≡ false

-- No node is above the next one.
abbrev pub InOrder : (order : ℕ → ℕ → ℤ) → List (ℕ × ℕ) → Type 0
InOrder order [] = Unit {0}
InOrder order ((_, d) ∷ xs) = NotAbove order d xs × InOrder order xs

-- Not both of two are above the other.
abbrev pub IsOneWay : (ℕ → ℕ → ℤ) → Type 0
IsOneWay order = (x y : ℕ) → is_above (order x y) ≡ true → is_above (order y x) ≡ false

module _ (order : ℕ → ℕ → ℤ) (a d : ℕ) where
  insert_by-NotAbove :
      (f : ℕ) (xs : List (ℕ × ℕ))
      → is_above (order f d) ≡ false
      → NotAbove order f xs
      → NotAbove order f (insert_by order a d xs)
  insert_by-NotAbove f [] h k = h
  insert_by-NotAbove f ((b, e) ∷ xs) h k = elim (Bool-cases (is_above (order e d))) [
    | inl up ↦ rw up h
    | inr low ↦ rw low k
  ]

  pub insert_by-InOrder :
      (xs : List (ℕ × ℕ))
      → IsOneWay order
      → InOrder order xs
      → InOrder order (insert_by order a d xs)
  insert_by-InOrder [] one h = (tt, tt)
  insert_by-InOrder ((b, e) ∷ xs) one h = elim (Bool-cases (is_above (order e d))) [
    | inl up ↦ rw up (one e d up, h)
    | inr low ↦ rw low (insert_by-NotAbove e xs low h.0, insert_by-InOrder xs one h.1)
  ]

  pub insert_by-Perm : (xs : List (ℕ × ℕ)) → Perm (insert_by order a d xs) ((a, d) ∷ xs)
  insert_by-Perm [] = Perm.rfl
  insert_by-Perm ((b, e) ∷ xs) = elim (Bool-cases (is_above (order e d))) [
    | inl up ↦ rw up Perm.rfl
    | inr low ↦
        rw low (Perm.trans (Perm.cons (b, e) (insert_by-Perm xs)) (Perm.swap (a, d) (b, e) xs))
  ]

  pub length-insert_by : (xs : List (ℕ × ℕ)) → length (insert_by order a d xs) ≡ length xs + 1
  length-insert_by [] = refl
  length-insert_by ((b, e) ∷ xs) = elim (Bool-cases (is_above (order e d))) [
    | inl up ↦ rw up (omega arith)
    | inr low ↦ rw low (omega (arith, length-insert_by xs))
  ]

  pub insert_by-NotIn :
      (c : ℕ) (xs : List (ℕ × ℕ)) → NotIn c ((a, d) ∷ xs) → NotIn c (insert_by order a d xs)
  insert_by-NotIn c [] h = h
  insert_by-NotIn c ((b, e) ∷ xs) h = elim (Bool-cases (is_above (order e d))) [
    | inl up ↦ rw up h
    | inr low ↦ rw low (h.1.0, insert_by-NotIn c xs (h.0, h.1.1))
  ]
