-- ===== src/Prelude/Outcome.antt =====
-- The result of code that may have no defined behaviour: an access outside an object, a null
-- pointer that is read, or a division by zero is `fault`.

pub data Run {ℓ} (A : Type ℓ) : Type ℓ where
  ok : A → Run A
  fault : Run A

infixl 5 ◌>>=◌
abbrev pub ◌>>=◌ {ℓ κ} : {X : Type ℓ} {Y : Type κ} → Run X → (X → Run Y) → Run Y
fault >>= next = fault
ok x >>= next = next x
