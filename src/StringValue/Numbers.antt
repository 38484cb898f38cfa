-- ===== src/StringValue/Numbers.antt =====
-- What suns_string_to_value reads for the types of integers.
use sunspec.Prelude.{
  ℕ, suc, ◌+◌, ◌-◌, ◌*◌, ◌%◌, ◌^◌, ◌<◌, Bool, true, false, Option, some, [], ◌∷◌, ◌++◌, ◌≡◌, refl,
  ap, ◌∙◌, arith, ◌==◌, length, Run, ok,
}
use sunspec.Prelude.Bytes.{Bytes}
use sunspec.Prelude.Int.{ℤ, pos, negsuc, word_of}
use sunspec.Types.{SunsType, suns_type_size}
use sunspec.Value.{
  TypePair, Payload, SunsValue, bits, put_u16, put_u32, put_u64, suns_check_not_implemented,
}
use sunspec.Wire.RoundTrip.{member}
use sunspec.Output.Decimal.{AllDigits, read_digits}
use sunspec.Number.{Parsed, is_digit, scan_digits, scan_number, saturated}
use sunspec.Number.Literals.{
  Sign, no_sign, minus, plus, sign_text, signed_value, Literal, integer, decimal, scientific,
  written, IsLiteral, Fits,
}
use sunspec.Number.Reads.{string_decompose_decimal-Reads}
use sunspec.StringValue.{
  scanned, scans_signed, sscanf_int, Form, number16, number32, number64, form, is_decomposed,
  by_form, by_parsed, suns_string_to_value,
}

scan_digits-rest :
    (m : ℕ) (ds : Bytes) (c : ℕ) (rest : Bytes)
    → AllDigits ds
    → is_digit c ≡ false
    → scan_digits m (ds ++ c ∷ rest) ≡ read_digits m ds
unfolding scan_digits read_digits
scan_digits-rest m [] c rest d e = rw e refl
scan_digits-rest m (x ∷ ds) c rest d e =
    let digit : is_digit x ≡ true = ground arith in
    rw digit (scan_digits-rest (m * 10 + (x - b'0')) ds c rest d.2 e)

-- `sscanf` stops at the first character that is no digit.
sscanf_int-digits :
    (signed : Bool) (s : Sign) (ds : Bytes) (c : ℕ) (rest : Bytes)
    → AllDigits ds
    → 0 < length ds
    → is_digit c ≡ false
    → sscanf_int signed (sign_text s ++ (ds ++ c ∷ rest))
      ≡ scanned (saturated signed (signed_value s (read_digits 0 ds)))
unfolding sscanf_int scan_number
sscanf_int-digits signed s [] c rest d h e = absurd (omega arith)
sscanf_int-digits signed no_sign (x ∷ ds) c rest d h e =
    let neg : (x == b'-') ≡ false = ground arith in
    let pls : (x == b'+') ≡ false = ground arith in
    let more : (x == 0) ≡ false = ground arith in
    let digit : is_digit x ≡ true = ground arith in
    rw (more, neg, pls, digit, scan_digits-rest 0 (x ∷ ds) c rest d e) refl
sscanf_int-digits signed minus (x ∷ ds) c rest d h e =
    let digit : is_digit x ≡ true = ground arith in
    rw (digit, scan_digits-rest 0 (x ∷ ds) c rest d e) refl
sscanf_int-digits signed plus (x ∷ ds) c rest d h e =
    let digit : is_digit x ≡ true = ground arith in
    rw (digit, scan_digits-rest 0 (x ∷ ds) c rest d e) refl

-- The sign and the digits in front of the point.
abbrev pub whole_sign : Literal → Sign
whole_sign (integer s ds) = s
whole_sign (decimal s ds fs) = s
whole_sign (scientific s ds fs c t es) = s

abbrev pub whole_digits : Literal → Bytes
whole_digits (integer s ds) = ds
whole_digits (decimal s ds fs) = ds
whole_digits (scientific s ds fs c t es) = ds

abbrev pub whole_value : Literal → ℤ
whole_value l = signed_value (whole_sign l) (read_digits 0 (whole_digits l))

sscanf_int-written :
    (signed : Bool) (l : Literal) (rest : Bytes)
    → IsLiteral l
    → 0 < length (whole_digits l)
    → sscanf_int signed (written l (0 ∷ rest)) ≡ scanned (saturated signed (whole_value l))
sscanf_int-written signed (integer no_sign ds) rest wf h =
    sscanf_int-digits signed no_sign ds 0 rest wf.0 h refl
sscanf_int-written signed (integer minus ds) rest wf h =
    sscanf_int-digits signed minus ds 0 rest wf h refl
sscanf_int-written signed (integer plus ds) rest wf h =
    sscanf_int-digits signed plus ds 0 rest wf h refl
sscanf_int-written signed (decimal s ds fs) rest wf h =
    sscanf_int-digits signed s ds b'.' _ wf.0 h refl
sscanf_int-written signed (scientific s ds fs c t es) rest wf h =
    sscanf_int-digits signed s ds b'.' _ wf.0 h refl

abbrev pub is_integer : Form → Bool
is_integer number16 = true
is_integer number32 = true
is_integer number64 = true
is_integer _ = false

abbrev width : Form → ℕ
width number16 = 16
width number32 = 32
width number64 = 64
width _ = 0

form-width : (t : SunsType) → is_integer (form t) ≡ true → 8 * suns_type_size t ≡ width (form t)
unfolding form suns_type_size
form-width SunsType.int16 h = refl
form-width _ h = ground (arith, h)

pub word_of-bound : (w : ℕ) (z : ℤ) → 0 < 2 ^ w → word_of w z < 2 ^ w
word_of-bound w (pos n) h = grind arith
word_of-bound w (negsuc n) h = omega arith

-- A number that was stored in the union.
record Stored (f : Form) (z : ℤ) (tp : TypePair) (r : Run (ℤ × SunsValue)) : Type 0 where
  value : SunsValue
  result : r ≡ ok (pos 0, value)
  tp_is : value.tp ≡ tp
  bits_are : bits value.value % 2 ^ width f ≡ word_of (width f) z
  meta_is : value.meta ≡ suns_check_not_implemented tp value

abbrev stored : TypePair → SunsValue → Payload → SunsValue
stored tp v p = record v {
  value = p;
  meta = suns_check_not_implemented tp (record v { value = p });
  tp = tp;
}

scan-Stored :
    (scan_float : (width : ℕ) → Bytes → Option ℕ) (f : Form) (string : Bytes) (z : ℤ)
    (tp : TypePair) (v : SunsValue)
    → is_integer f ≡ true
    → sscanf_int (scans_signed tp.type) string ≡ scanned z
    → Stored f z tp (by_form scan_float f string tp v)
unfolding by_form suns_check_not_implemented
scan-Stored sf number16 string z tp v h e = rw e record {
  value = stored tp v (put_u16 v.value (word_of 16 z));
  result = refl;
  tp_is = refl;
  bits_are = omega (arith, word_of-bound 16 z (omega arith));
  meta_is = refl;
}
scan-Stored sf number32 string z tp v h e = rw e record {
  value = stored tp v (put_u32 v.value (word_of 32 z));
  result = refl;
  tp_is = refl;
  bits_are = omega (arith, word_of-bound 32 z (omega arith));
  meta_is = refl;
}
scan-Stored sf number64 string z tp v h e = rw e record {
  value = stored tp v (put_u64 v.value (word_of 64 z));
  result = refl;
  tp_is = refl;
  bits_are = omega (arith, word_of-bound 64 z (omega arith));
  meta_is = refl;
}
scan-Stored sf _ string z tp v h e = absurd (cc h)

integer-decomposed : (f : Form) → is_integer f ≡ true → is_decomposed f ≡ true
integer-decomposed number16 h = refl
integer-decomposed number32 h = refl
integer-decomposed number64 h = refl
integer-decomposed _ h = absurd (cc h)

parsed_ok :
    (sf : (width : ℕ) → Bytes → Option ℕ) (f : Form) (string : Bytes) (tp : TypePair)
    (v : SunsValue) (p : Parsed)
    → p.rc ≡ pos 0
    → by_parsed sf f string tp v (some (ok p)) ≡ some (by_form sf f string tp v)
parsed_ok sf f string tp v p e =
    ap
      (λ (rc : ℤ). elim rc [
        | pos n ↦ some (by_form sf f string tp v)
        | negsuc n ↦ some (ok (negsuc 0, v))
      ])
      e

-- A number in the range of the `long` that is scanned, or of the `unsigned long` with a sign.
abbrev pub IsScanned : (signed : Bool) → ℤ → Type 0
IsScanned true (pos n) = n < 2 ^ 63
IsScanned true (negsuc n) = n < 2 ^ 63
IsScanned false (pos n) = n < 2 ^ 64
IsScanned false (negsuc n) = n + 1 < 2 ^ 64

saturated-IsScanned : (signed : Bool) (z : ℤ) → IsScanned signed z → saturated signed z ≡ z
saturated-IsScanned true (pos n) h = ap pos (omega arith)
saturated-IsScanned true (negsuc n) h = ap negsuc (omega arith)
saturated-IsScanned false (pos n) h = ap pos (omega arith)
saturated-IsScanned false (negsuc n) h = ground (arith, h)

-- For the types of integers, a decimal number with at least one digit in front of its point gives
-- the result 0 and a value of the given type pair, whatever value was there before: its number is
-- the whole part of the text, in two's complement of the type's width, if this part is in the range
-- of a `long` (for the unsigned types, of an `unsigned long`, perhaps with a minus), and it is
-- marked as not implemented if it is the mark of its type. So the digits behind the point, the exponent and the
-- power of ten that the number parser gives have no effect. The number parser needs at most two
-- rounds more than the text has characters.
pub suns_string_to_value_whole :
    (scan_float : (width : ℕ) → Bytes → Option ℕ) (extra : ℕ) (l : Literal) (rest base : Bytes)
    (v : SunsValue) (tp : TypePair)
    → is_integer (form tp.type) ≡ true
    → IsLiteral l
    → 0 < length (whole_digits l)
    → IsScanned (scans_signed tp.type) (whole_value l)
    → Fits 128 l
    → length base ≡ 128
    → (u : SunsValue) × (suns_string_to_value scan_float
          (length (written l []) + suc (suc extra))
          (written l (0 ∷ rest))
          base
          v
          tp
        ≡ some (ok (pos 0, u)))
      × (u.tp ≡ tp)
      × (member tp.type u.value ≡ word_of (8 * suns_type_size tp.type) (whole_value l))
      × (u.meta ≡ suns_check_not_implemented tp u)
unfolding suns_string_to_value
suns_string_to_value_whole sf extra l rest base v tp int wf some_digits in_range fits room =
    let f : Form = form tp.type in
    let (out, run, reads) =
      string_decompose_decimal-Reads extra 128 l rest base wf fits (omega arith) in
    let signed = scans_signed tp.type in
    let scan =
      sscanf_int-written signed l rest wf some_digits
      ∙ ap scanned (saturated-IsScanned signed (whole_value l) in_range) in
    let s =
      scan-Stored sf f (written l (0 ∷ rest)) (whole_value l) tp (record v { tp = tp }) int scan in
    let size : 8 * suns_type_size tp.type ≡ width f = form-width tp.type int in
    (
      s.value,
      rw
          (
            integer-decomposed f int,
            run,
            parsed_ok sf f (written l (0 ∷ rest)) tp (record v { tp = tp }) out reads.rc_is,
            s.result,
          )
          refl,
      s.tp_is,
      rw size s.bits_are,
      s.meta_is,
    )
