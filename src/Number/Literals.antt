-- ===== src/Number/Literals.antt =====
-- Decimal numbers as texts, and the parser's result for each of them.
use sunspec.Prelude.{
  ℕ, ◌+◌, ◌-◌, ◌*◌, ◌<◌, true, false, some, [], ◌∷◌, ◌++◌, ◌≡◌, ◌⊎◌, refl, ap, arith, ◌==◌, length,
}
use sunspec.Prelude.Bytes.{Bytes}
use sunspec.Prelude.Copy.{NoZero}
use sunspec.Prelude.Int.{ℤ, pos, negsuc, ◌-ℤ◌, sub_ℕ, IsInt}
use sunspec.Output.Decimal.{AllDigits, read_digits}
use sunspec.Number.{is_digit, scan_digits, scan_number, scan_int, stored_int}

pub data Sign : Type 0 where
  no_sign : Sign
  minus : Sign
  plus : Sign

abbrev pub sign_text : Sign → Bytes
sign_text no_sign = []
sign_text minus = b'-' ∷ []
sign_text plus = b'+' ∷ []

abbrev pub signed_value : Sign → ℕ → ℤ
signed_value minus n = sub_ℕ 0 n
signed_value no_sign n = pos n
signed_value plus n = pos n

-- The numbers that the parser is for: digits, with a point among them, with an exponent.
pub data Literal : Type 0 where
  integer : Sign → (whole : Bytes) → Literal
  decimal : Sign → (whole fraction : Bytes) → Literal
  scientific : Sign → (whole fraction : Bytes) (mark : ℕ) → Sign → (exponent : Bytes) → Literal

-- The text of a number with what follows it.
abbrev pub written : Literal → Bytes → Bytes
written (integer s ds) rest = sign_text s ++ (ds ++ rest)
written (decimal s ds fs) rest = sign_text s ++ (ds ++ b'.' ∷ (fs ++ rest))
written (scientific s ds fs c t es) rest =
    sign_text s ++ (ds ++ b'.' ∷ (fs ++ c ∷ (sign_text t ++ (es ++ rest))))

-- Its sign and digits, without the point.
abbrev pub base_text : Literal → Bytes
base_text (integer s ds) = sign_text s ++ ds
base_text (decimal s ds fs) = (sign_text s ++ ds) ++ fs
base_text (scientific s ds fs c t es) = (sign_text s ++ ds) ++ fs

-- The power of ten that these digits are to be multiplied with.
abbrev pub power : Literal → ℤ
power (integer s ds) = pos 0 -ℤ pos 0
power (decimal s ds fs) = pos 0 -ℤ pos (length fs)
power (scientific s ds fs c t es) = signed_value t (read_digits 0 es) -ℤ pos (length fs)

abbrev pub IsWhole : Sign → Bytes → Type 0
IsWhole no_sign ds = AllDigits ds × (0 < length ds)
IsWhole minus ds = AllDigits ds
IsWhole plus ds = AllDigits ds

-- Digits are digits; an integer is not empty, nor are the digits of an exponent.
abbrev pub IsLiteral : Literal → Type 0
IsLiteral (integer s ds) = IsWhole s ds
IsLiteral (decimal s ds fs) = AllDigits ds × AllDigits fs
IsLiteral (scientific s ds fs c t es) =
    AllDigits ds × AllDigits fs × AllDigits es × (0 < length es) × ((c ≡ b'e') ⊎ (c ≡ b'E'))

-- The digits fit in the temporary buffer and in the base's buffer, those of an exponent in the
-- temporary buffer. The exponent, and the power of ten that is left of it, are an `int`.
abbrev pub Fits : (base_len : ℕ) → Literal → Type 0
Fits n (integer s ds) = (length (sign_text s ++ ds) < 128) × (length (sign_text s ++ ds) < n)
Fits n (decimal s ds fs) =
    (length ((sign_text s ++ ds) ++ fs) < 128) × (length ((sign_text s ++ ds) ++ fs) < n)
Fits n (scientific s ds fs c t es) =
    (length ((sign_text s ++ ds) ++ fs) < 128)
    × (length ((sign_text s ++ ds) ++ fs) < n)
    × (length (sign_text t ++ es) < 128)
    × IsInt (signed_value t (read_digits 0 es))
    × IsInt (power (scientific s ds fs c t es))

pub digits-NoZero : (ds : Bytes) → AllDigits ds → NoZero ds
digits-NoZero [] d = tt
digits-NoZero (c ∷ ds) d = (omega arith, digits-NoZero ds d.2)

pub signed-NoZero : (s : Sign) (ds : Bytes) → AllDigits ds → NoZero (sign_text s ++ ds)
signed-NoZero no_sign ds d = digits-NoZero ds d
signed-NoZero minus ds d = (omega arith, digits-NoZero ds d)
signed-NoZero plus ds d = (omega arith, digits-NoZero ds d)

scan_digits-read : (m : ℕ) (ds : Bytes) → AllDigits ds → scan_digits m ds ≡ read_digits m ds
unfolding scan_digits read_digits
scan_digits-read m [] d = refl
scan_digits-read m (c ∷ ds) d =
    let digit : is_digit c ≡ true = ground arith in
    rw digit (scan_digits-read (m * 10 + (c - b'0')) ds d.2)

scan_number_signed :
    (t : Sign) (es : Bytes)
    → AllDigits es
    → 0 < length es
    → scan_number (sign_text t ++ es) ≡ some (signed_value t (read_digits 0 es))
unfolding scan_number
scan_number_signed t [] d h = absurd (omega arith)
scan_number_signed no_sign (c ∷ es) d h =
    let neg : (c == b'-') ≡ false = ground arith in
    let pls : (c == b'+') ≡ false = ground arith in
    let digit : is_digit c ≡ true = ground arith in
    rw (neg, pls, digit, scan_digits-read 0 (c ∷ es) d) refl
scan_number_signed minus (c ∷ es) d h =
    let digit : is_digit c ≡ true = ground arith in rw (digit, scan_digits-read 0 (c ∷ es) d) refl
scan_number_signed plus (c ∷ es) d h =
    let digit : is_digit c ≡ true = ground arith in rw (digit, scan_digits-read 0 (c ∷ es) d) refl

pub stored_int-IsInt : (z : ℤ) → IsInt z → stored_int z ≡ z
stored_int-IsInt (pos n) h = ground (arith, h)
stored_int-IsInt (negsuc n) h = ground (arith, h)

pub scan_signed :
    (t : Sign) (es : Bytes)
    → AllDigits es
    → 0 < length es
    → IsInt (signed_value t (read_digits 0 es))
    → scan_int (sign_text t ++ es) ≡ some (signed_value t (read_digits 0 es))
unfolding scan_int
scan_signed t es d h in_range =
    rw (scan_number_signed t es d h)
      (ap some (stored_int-IsInt (signed_value t (read_digits 0 es)) in_range))
