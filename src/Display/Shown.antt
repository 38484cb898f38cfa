-- ===== src/Display/Shown.antt =====
-- The decimal text of a number, as one that the number parser reads.
use native.Mathlib.Omega.{pow_step}
use sunspec.Prelude.{
  ℕ, zero, suc, ◌+◌, ◌-◌, ◌*◌, ◌/◌, ◌%◌, ◌^◌, ◌≤◌, ◌<◌, false, [], ◌∷◌, ◌++◌, ◌≡◌, refl, ap, ◌∙◌,
  arith, inl, inr, ◌==◌, leb, Bool-cases, length,
}
use sunspec.Prelude.Bytes.{Bytes, digits, print_nat}
use sunspec.Prelude.Int.{ℤ, pos, negsuc, sub_ℕ}
use sunspec.Output.{print_int, magnitude}
use sunspec.Output.Decimal.{AllDigits, read_digits, print_nat-read, print_nat-nonempty}
use sunspec.Number.Literals.{no_sign, minus, Literal, integer, written, IsLiteral, Fits}
use sunspec.StringValue.Numbers.{whole_digits, whole_value}

digits_bound :
    (k fuel n : ℕ) (out : Bytes) → n < 10 ^ k → length (digits fuel n out) ≤ length out + k
unfolding digits
digits_bound k zero n out h = omega arith
digits_bound zero (suc fuel) n out h = let z : n ≡ 0 = omega arith in rw z (omega arith)
digits_bound (suc k) (suc fuel) n out h =
    let p : 10 ^ suc k ≡ 10 * 10 ^ k = pow_step 10 k in
    let less : n / 10 < 10 ^ k = omega (arith, p) in
    let rest = digits_bound k fuel (n / 10) ((b'0' + n % 10) ∷ out) less in
    elim (Bool-cases (n == 0)) [ inl e ↦ rw e (omega arith) | inr e ↦ rw e (omega (arith, rest)) ]

pub print_nat-bound : (n : ℕ) → n < 2 ^ 64 → length (print_nat n) ≤ 20
unfolding print_nat
print_nat-bound n h = elim (Bool-cases (n == 0)) [
  | inl e ↦ rw e (omega arith)
  | inr e ↦ rw e (omega (arith, digits_bound 20 n n [] (omega arith)))
]

print_nat-digits : (n : ℕ) → AllDigits (print_nat n) × (read_digits 0 (print_nat n) ≡ n)
unfolding print_nat digits read_digits
print_nat-digits zero = ((omega arith, omega arith, tt), refl)
print_nat-digits (suc n) = print_nat-read (suc n) (λ e. omega arith)

-- A number's text as one that the parser reads.
pub record Shown (z : ℤ) : Type 0 where
  pub literal : Literal
  pub IsNumber : IsLiteral literal
  pub text_is : (rest : Bytes) → written literal rest ≡ print_int z ++ rest
  pub some_digits : 0 < length (whole_digits literal)
  pub value_is : whole_value literal ≡ z
  pub fits : Fits 128 literal

pub print_int-Shown : (z : ℤ) → magnitude z < 2 ^ 64 → Shown z
print_int-Shown (pos n) small =
    let (d, v) = print_nat-digits n in
    let bound = print_nat-bound n (omega arith) in
    record {
      literal = integer no_sign (print_nat n);
      IsNumber = (d, print_nat-nonempty n);
      text_is = λ rest. refl;
      some_digits = print_nat-nonempty n;
      value_is = ap pos v;
      fits = omega (arith, bound);
    }
print_int-Shown (negsuc n) small =
    let (d, v) = print_nat-digits (suc n) in
    let bound = print_nat-bound (suc n) (omega arith) in
    let less : leb (suc n) 0 ≡ false = ground arith in
    let same : suc n - 0 - 1 ≡ n = omega arith in
    record {
      literal = integer minus (print_nat (suc n));
      IsNumber = d;
      text_is = λ rest. refl;
      some_digits = print_nat-nonempty (suc n);
      value_is = ap (sub_ℕ 0) v ∙ rw (less, same) refl;
      fits = omega (arith, bound);
    }
