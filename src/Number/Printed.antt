-- ===== src/Number/Printed.antt =====
-- The fixed notation of a scaled number, as one that the number parser reads.
use mathlib.Core.List.{append_assoc}
use sunspec.Prelude.{
  ℕ, suc, ◌-◌, ◌*◌, ◌^◌, ◌≤◌, ◌<◌, Bool, true, false, [], ◌∷◌, ◌++◌, ◌≡◌, ◌≢◌, refl, sym, ap, ◌∙◌,
  arith, inl, inr, ◌==◌, ltb, ltb→lt, Bool-cases, length, take, drop, replicate, length-replicate,
  length-append, length-drop,
}
use sunspec.Prelude.Bytes.{Bytes}
use sunspec.Prelude.Int.{ℤ, pos, negsuc, ◌-ℤ◌}
use sunspec.Output.{point_digits, fixed_text}
use sunspec.Output.Decimal.{AllDigits, read_digits, read_digits-append, read_digits-zeros}
use sunspec.Output.Notation.{scaled, signed}
use sunspec.Output.Digits.{
  take-drop, take-AllDigits, drop-AllDigits, replicate-AllDigits, append-AllDigits, zeros_in_front,
}
use sunspec.Number.Literals.{
  Sign, minus, no_sign, Literal, integer, decimal, written, base_text, power, IsLiteral, Fits,
}

-- Digits with a point in front of the last `k`, in two parts.
record Pointed (k : ℕ) (ds : Bytes) : Type 0 where
  left : Bytes
  right : Bytes
  left_digits : AllDigits left
  right_digits : AllDigits right
  text_is : point_digits k ds ≡ left ++ b'.' ∷ right
  value_is : read_digits 0 (left ++ right) ≡ read_digits 0 ds
  places_are : length right ≡ k

point_digits-Pointed : (k : ℕ) (ds : Bytes) → AllDigits ds → Pointed k ds
unfolding point_digits
point_digits-Pointed k ds d = elim (Bool-cases (ltb k (length ds))) [
  | inl h ↦
      let n = length ds - k in
      let lt : k < length ds = ltb→lt k (length ds) h in
      record {
        left = take n ds;
        right = drop n ds;
        left_digits = take-AllDigits n ds d;
        right_digits = drop-AllDigits n ds d;
        text_is = rw h;
        value_is = ap (read_digits 0) (take-drop n ds);
        places_are = length-drop n ds ∙ omega arith;
      }
  | inr h ↦
      let zeros : Bytes = replicate (k - length ds) b'0' in
      let le : length ds ≤ k = ground arith in
      record {
        left = b'0' ∷ [];
        right = zeros ++ ds;
        left_digits = (omega arith, omega arith, tt);
        right_digits = append-AllDigits zeros ds (replicate-AllDigits (k - length ds)) d;
        text_is = rw h;
        value_is = zeros_in_front (k - length ds) ds;
        places_are =
            length-append zeros ds ∙ omega (arith, length-replicate {A = ℕ} (k - length ds) b'0');
      }
]

abbrev sign_of : Bool → Sign
sign_of true = minus
sign_of false = no_sign

-- A text as a number that the parser reads, with its value.
pub record Printed (negative : Bool) (value : ℕ × ℕ) (text : Bytes) : Type 0 where
  pub literal : Literal
  pub digits : Bytes
  pub IsNumber : IsLiteral literal
  pub text_is : (rest : Bytes) → written literal rest ≡ text ++ rest
  pub number_is : base_text literal ≡ signed negative digits
  pub value_is : read_digits 0 digits ≡ value.0
  pub power_is : power literal ≡ pos 0 -ℤ pos value.1
  pub size : (n : ℕ) → length text < 128 → length text < n → Fits n literal

point-Printed :
    (negative : Bool) (k : ℕ) (ds : Bytes)
    → AllDigits ds
    → Printed negative (read_digits 0 ds, k) (signed negative (point_digits k ds))
point-Printed false k ds d =
    let p = point_digits-Pointed k ds d in
    rw p.text_is record {
      literal = decimal no_sign p.left p.right;
      digits = p.left ++ p.right;
      IsNumber = (p.left_digits, p.right_digits);
      text_is = λ rest. sym (append_assoc p.left (b'.' ∷ p.right) rest);
      number_is = refl;
      value_is = p.value_is;
      power_is = ap (λ j. pos 0 -ℤ pos j) p.places_are;
      size = λ n h k.
          omega (arith, length-append p.left (b'.' ∷ p.right), length-append p.left p.right);
    }
point-Printed true k ds d =
    let p = point_digits-Pointed k ds d in
    rw p.text_is record {
      literal = decimal minus p.left p.right;
      digits = p.left ++ p.right;
      IsNumber = (p.left_digits, p.right_digits);
      text_is = λ rest. ap (◌∷◌ b'-') (sym (append_assoc p.left (b'.' ∷ p.right) rest));
      number_is = refl;
      value_is = p.value_is;
      power_is = ap (λ j. pos 0 -ℤ pos j) p.places_are;
      size = λ n h k.
          omega (arith, length-append p.left (b'.' ∷ p.right), length-append p.left p.right);
    }

zeros-Printed :
    (negative : Bool) (e : ℕ) (ds : Bytes)
    → AllDigits ds
    → 0 < length ds
    → Printed negative (read_digits 0 ds * 10 ^ e, 0) (signed negative ds ++ replicate e b'0')
zeros-Printed negative e ds d some_digits =
    let zeros : Bytes = replicate e b'0' in
    let all : AllDigits (ds ++ zeros) = append-AllDigits ds zeros d (replicate-AllDigits e) in
    let longer : 0 < length (ds ++ zeros) = omega (arith, length-append ds zeros) in
    let value : read_digits 0 (ds ++ zeros) ≡ read_digits 0 ds * 10 ^ e =
      read_digits-append ds zeros 0 ∙ read_digits-zeros e (read_digits 0 ds) in
    elim negative as (λ b. Printed b (read_digits 0 ds * 10 ^ e, 0) (signed b ds ++ zeros)) [
      | false ↦ record {
        literal = integer no_sign (ds ++ zeros);
        digits = ds ++ zeros;
        IsNumber = (all, longer);
        text_is = λ rest. refl;
        number_is = refl;
        value_is = value;
        power_is = refl;
        size = λ n h k. (h, k);
      }
      | true ↦ record {
        literal = integer minus (ds ++ zeros);
        digits = ds ++ zeros;
        IsNumber = all;
        text_is = λ rest. refl;
        number_is = refl;
        value_is = value;
        power_is = refl;
        size = λ n h k. (h, k);
      }
    ]

pub fixed_text-Printed :
    (negative : Bool) (ds : Bytes) (e : ℤ)
    → AllDigits ds
    → 0 < length ds
    → Printed negative (scaled (read_digits 0 ds) e) (fixed_text (signed negative ds) e)
unfolding fixed_text
fixed_text-Printed true ds (pos e) d h = zeros-Printed true e ds d h
fixed_text-Printed false ds (pos e) d h = zeros-Printed false e ds d h
fixed_text-Printed true ds (negsuc k) d h = point-Printed true (suc k) ds d
fixed_text-Printed false [] (negsuc k) d h = absurd (omega arith)
fixed_text-Printed false (c ∷ ds) (negsuc k) d h =
    let digit : (c == b'-') ≡ false = ground arith in
    rw digit (point-Printed false (suc k) (c ∷ ds) d)

pub digits_shown : (m : ℕ) (ds : Bytes) → m ≢ 0 → read_digits 0 ds ≡ m → 0 < length ds
unfolding read_digits
digits_shown m [] h e = absurd (h (sym e))
digits_shown m (c ∷ ds) h e = omega arith
