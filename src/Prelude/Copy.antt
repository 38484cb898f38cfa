-- ===== src/Prelude/Copy.antt =====
-- Laws of the byte copies: `strncpy` and the C string that a block of memory holds.
use sunspec.Prelude.Bytes.{Bytes, strncpy, overwrite}
use sunspec.Prelude.Lists.{
  length, take, drop, replicate, length-append, length-replicate, length-drop,
}
use sunspec.Prelude.Outcome.{ok, fault}
use sunspec.Prelude.Tests.{◌==◌, if◌then◌else◌, Bool-cases}
use Prim.Native.Nat.{ℕ, zero, suc, ◌-◌, ◌≤◌, ◌<◌}
use mathlib.Core.Path.{◌≡◌, refl, ap}
use mathlib.Core.Bool.{true, false}
use mathlib.Core.Logic.{inl, inr, ◌⊎◌}
use mathlib.Core.List.{[], ◌∷◌, ◌++◌}
use native.Mathlib.Omega.{arith}

-- The bytes up to the first zero byte.
unfoldable pub c_string : Bytes → Bytes
c_string [] = []
c_string (c ∷ s) = if c == 0 then [] else c ∷ c_string s

c_string-replicate : (n : ℕ) (rest : Bytes) → c_string (replicate n 0 ++ 0 ∷ rest) ≡ []
unfolding c_string
c_string-replicate zero rest = refl
c_string-replicate (suc n) rest = refl

-- What `strncpy` gives: a copy of the length asked for, which holds the source's string, cut to
-- `n` bytes, once a zero byte follows it.
pub record Copied (s : Bytes) (n : ℕ) (out : Bytes) : Type 0 where
  pub result : strncpy s n ≡ ok out
  pub length_is : length out ≡ n
  pub holds : (rest : Bytes) → c_string (out ++ 0 ∷ rest) ≡ take n (c_string s)

Copied-zero : (c n : ℕ) (s : Bytes) → (c == 0) ≡ true → Copied (c ∷ s) (suc n) (replicate (suc n) 0)
unfolding strncpy c_string
Copied-zero c n s p = record {
  result = rw p;
  length_is = length-replicate (suc n) 0;
  holds = λ rest. rw p;
}

Copied-cons :
    (c n : ℕ) (s : Bytes) {out : Bytes}
    → (c == 0) ≡ false
    → Copied s n out
    → Copied (c ∷ s) (suc n) (c ∷ out)
unfolding strncpy c_string
Copied-cons c n s p r = record {
  result = rw (p, r.result);
  length_is = omega (arith, r.length_is);
  holds = λ rest. rw p (ap (◌∷◌ c) (r.holds rest));
}

-- Either the copy succeeds, or the source object ends before its string and before `n` bytes.
pub strncpy-cases :
    (s : Bytes) (n : ℕ)
    → ((out : Bytes) × Copied s n out) ⊎ ((strncpy s n ≡ fault) × (length s < n))
unfolding strncpy c_string
strncpy-cases s zero = inl ([], record { result = refl; length_is = refl; holds = λ rest. refl })
strncpy-cases [] (suc n) = inr (refl, omega arith)
strncpy-cases (c ∷ s) (suc n) = elim (Bool-cases (c == 0)) [
  | inl p ↦ inl (replicate (suc n) 0, Copied-zero c n s p)
  | inr p ↦ elim (strncpy-cases s n) [
    | inl (out, r) ↦ inl (c ∷ out, Copied-cons c n s p r)
    | inr (e, h) ↦ inr (rw (p, e), omega arith)
  ]
]

-- A block of at least `n` bytes can be copied.
pub strncpy-Copied : (s : Bytes) (n : ℕ) → n ≤ length s → (out : Bytes) × Copied s n out
strncpy-Copied s n h = elim (strncpy-cases s n) [ inl r ↦ r | inr (_, k) ↦ absurd (omega arith) ]

pub overwrite-cases :
    (old new : Bytes)
    → (overwrite old new ≡ ok (new ++ drop (length new) old)) × (length new ≤ length old)
      ⊎ (overwrite old new ≡ fault)
unfolding overwrite
overwrite-cases old [] = inl (refl, omega arith)
overwrite-cases [] (b ∷ new) = inr refl
overwrite-cases (a ∷ old) (b ∷ new) = elim (overwrite-cases old new) [
  | inl (e, h) ↦ inl (rw e, omega arith)
  | inr e ↦ inr (rw e)
]

pub length-overwritten :
    (old new : Bytes) → length new ≤ length old → length (new ++ drop (length new) old) ≡ length old
length-overwritten old new h = omega (arith, length-append new _, length-drop (length new) old)

-- No zero byte.
abbrev pub NoZero : Bytes → Type 0
NoZero [] = Unit {0}
NoZero (c ∷ s) = (0 < c) × NoZero s

pub NoZero-append : (s t : Bytes) → NoZero s → NoZero t → NoZero (s ++ t)
NoZero-append [] t d e = e
NoZero-append (c ∷ s) t d e = (d.0, NoZero-append s t d.1 e)

-- A string copied to where there is room for it: the rest is filled with zeros.
pub strncpy_text :
    (s : Bytes) (n : ℕ)
    → NoZero s
    → length s ≤ n
    → strncpy (s ++ 0 ∷ []) n ≡ ok (s ++ replicate (n - length s) 0)
unfolding strncpy
strncpy_text [] zero d h = refl
strncpy_text [] (suc n) d h = let e : suc n - 0 ≡ suc n = omega arith in rw e refl
strncpy_text (c ∷ s) zero d h = absurd (omega arith)
strncpy_text (c ∷ s) (suc n) d h =
    let e : (c == 0) ≡ false = ground arith in
    let z : suc n - suc (length s) ≡ n - length s = omega arith in
    rw (e, strncpy_text s n d.1 (omega arith), z) refl

pub c_string_text : (s rest : Bytes) → NoZero s → c_string (s ++ 0 ∷ rest) ≡ s
unfolding c_string
c_string_text [] rest d = refl
c_string_text (c ∷ s) rest d =
    let e : (c == 0) ≡ false = ground arith in rw e (ap (◌∷◌ c) (c_string_text s rest d.1))
