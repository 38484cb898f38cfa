-- ===== src/Output/Decimal.antt =====
-- Reading of decimal numbers, and what `%d` writes.
use native.Mathlib.Nat.{mul_assoc}
use native.Mathlib.Omega.{pow_step}
use sunspec.Prelude.{
  ℕ, zero, suc, ◌+◌, ◌-◌, ◌*◌, ◌/◌, ◌%◌, ◌^◌, ◌≤◌, ◌<◌, Bool, true, false, [], ◌∷◌, ◌++◌, ◌≡◌, ◌≢◌,
  refl, ap, ◌∙◌, arith, inl, inr, ◌==◌, Bool-cases, ==→eq, if◌then◌else◌, length, replicate, ne→==,
}
use sunspec.Prelude.Bytes.{Bytes, digits, print_nat}

-- The number that digits make behind those read before, which make `m`.
unfoldable pub read_digits : ℕ → Bytes → ℕ
read_digits m [] = m
read_digits m (c ∷ cs) = read_digits (m * 10 + (c - b'0')) cs

-- A text as a number and the places behind its point: `m` and `p` are those read so far, and `seen`
-- says whether the point was among them.
unfoldable pub read_decimal : (seen : Bool) (m p : ℕ) → Bytes → ℕ × ℕ
read_decimal seen m p [] = (m, p)
read_decimal seen m p (c ∷ cs) =
    if c == b'.'
    then read_decimal true m p cs
    else read_decimal seen (m * 10 + (c - b'0')) (if seen then p + 1 else p) cs

abbrev pub AllDigits : Bytes → Type 0
AllDigits [] = Unit {0}
AllDigits (c ∷ cs) = (b'0' ≤ c) × (c < 58) × AllDigits cs

pub read_digits-append :
    (xs ys : Bytes) (m : ℕ) → read_digits m (xs ++ ys) ≡ read_digits (read_digits m xs) ys
unfolding read_digits
read_digits-append [] ys m = refl
read_digits-append (c ∷ xs) ys m = read_digits-append xs ys (m * 10 + (c - b'0'))

pub read_digits-zeros : (k m : ℕ) → read_digits m (replicate k b'0') ≡ m * 10 ^ k
unfolding read_digits
read_digits-zeros zero m = omega arith
read_digits-zeros (suc k) m =
    read_digits-zeros k (m * 10 + 0)
    ∙ (let z : m * 10 + 0 ≡ m * 10 = omega arith in rw (z, pow_step 10 k) (mul_assoc m 10 (10 ^ k)))

pub read_decimal-append :
    (seen : Bool) (xs ys : Bytes) (m p : ℕ)
    → AllDigits xs
    → read_decimal seen m p (xs ++ ys)
      ≡ read_decimal seen (read_digits m xs) (if seen then p + length xs else p) ys
unfolding read_decimal read_digits
read_decimal-append true [] ys m p d = ap (λ k. read_decimal true m k ys) (omega arith)
read_decimal-append false [] ys m p d = refl
read_decimal-append true (c ∷ xs) ys m p d =
    let digit : (c == b'.') ≡ false = ground arith in
    let places : p + 1 + length xs ≡ p + suc (length xs) = omega arith in
    rw digit (
      read_decimal-append true xs ys (m * 10 + (c - b'0')) (p + 1) d.2
      ∙ ap (λ k. read_decimal true (read_digits (m * 10 + (c - b'0')) xs) k ys) places)
read_decimal-append false (c ∷ xs) ys m p d =
    let digit : (c == b'.') ≡ false = ground arith in
    rw digit (read_decimal-append false xs ys (m * 10 + (c - b'0')) p d.2)

digits-read :
    (fuel n : ℕ) (out : Bytes) → n ≤ fuel → read_digits 0 (digits fuel n out) ≡ read_digits n out
unfolding digits read_digits
digits-read zero n out h = let z : n ≡ 0 = omega arith in rw z refl
digits-read (suc fuel) n out h = elim (Bool-cases (n == 0)) [
  | inl e ↦ let z : n ≡ 0 = ==→eq n 0 e in rw (e, z) refl
  | inr e ↦
      let whole : n / 10 * 10 + (b'0' + n % 10 - b'0') ≡ n = omega arith in
      rw e (
        digits-read fuel (n / 10) ((b'0' + n % 10) ∷ out) (ground arith)
        ∙ ap (λ k. read_digits k out) whole)
]

digits-AllDigits : (fuel n : ℕ) (out : Bytes) → AllDigits out → AllDigits (digits fuel n out)
unfolding digits
digits-AllDigits zero n out d = d
digits-AllDigits (suc fuel) n out d = elim (Bool-cases (n == 0)) [
  | inl e ↦ rw e d
  | inr e ↦
      rw e (digits-AllDigits fuel (n / 10) ((b'0' + n % 10) ∷ out) (omega arith, omega arith, d))
]

-- What `%d` writes for a number that is not 0 are digits, which read as the number.
pub print_nat-read : (n : ℕ) → n ≢ 0 → AllDigits (print_nat n) × (read_digits 0 (print_nat n) ≡ n)
unfolding print_nat read_digits
print_nat-read n h = rw (ne→== n 0 h) (digits-AllDigits n n [] tt, digits-read n n [] (omega arith))

digits-longer : (fuel n : ℕ) (out : Bytes) → length out ≤ length (digits fuel n out)
unfolding digits
digits-longer zero n out = omega arith
digits-longer (suc fuel) n out = ground (arith, digits-longer fuel (n / 10) ((b'0' + n % 10) ∷ out))

pub print_nat-nonempty : (n : ℕ) → 0 < length (print_nat n)
unfolding print_nat digits
print_nat-nonempty zero = omega arith
print_nat-nonempty (suc n) = ground (arith, digits-longer n (suc n / 10) ((b'0' + suc n % 10) ∷ []))
