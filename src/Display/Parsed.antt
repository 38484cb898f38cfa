-- ===== src/Display/Parsed.antt =====
-- What suns_string_to_value reads from the text of a value.
use mathlib.Core.Path.{subst}
use mathlib.Core.List.{append_assoc, append-nil}
use sunspec.Prelude.{
  ℕ, suc, ◌+◌, ◌*◌, ◌^◌, ◌≤◌, ◌<◌, Bool, true, false, Option, some, [], ◌∷◌, ◌++◌, ◌≡◌, refl, ap,
  ◌∙◌, arith, ==-refl, length, drop, length-append, ok, sym,
}
use sunspec.Prelude.Bytes.{Bytes, overwrite_lem}
use sunspec.Prelude.Int.{ℤ, pos, negsuc, signed16, signed32, word_of}
use sunspec.Types.{SunsType, Meta, suns_type_size, enum_meta}
use sunspec.Value.{Payload, SunsValue, u16, u32, u64}
use sunspec.Output.{print_int, magnitude}
use sunspec.Output.Scientific.{snprintf_whole}
use sunspec.Wire.RoundTrip.{member}
use sunspec.Number.Literals.{written}
use sunspec.StringValue.{form, suns_string_to_value, scans_signed}
use sunspec.StringValue.Numbers.{is_integer, suns_string_to_value_whole, IsScanned}
use sunspec.Display.Writers.{FloatTexts, print, signed64}
use sunspec.Display.{
  is_ok, by_type, suns_snprintf_value, suns_output_value_base_fmt, suns_snprintf_value_text,
}
use sunspec.Display.Shown.{print_int-Shown, print_nat-bound}

-- The types whose numbers are printed in decimal.
abbrev pub is_decimal : SunsType → Bool
is_decimal SunsType.int16 = true
is_decimal SunsType.sf = true
is_decimal SunsType.uint16 = true
is_decimal SunsType.acc16 = true
is_decimal SunsType.enum16 = true
is_decimal SunsType.int32 = true
is_decimal SunsType.acc32 = true
is_decimal SunsType.uint32 = true
is_decimal SunsType.enum32 = true
is_decimal SunsType.int64 = true
is_decimal SunsType.uint64 = true
is_decimal _ = false

-- The number that is printed.
abbrev shown : SunsType → Payload → ℤ
shown SunsType.int16 p = signed16 (u16 p)
shown SunsType.sf p = signed16 (u16 p)
shown SunsType.uint16 p = pos (u16 p)
shown SunsType.acc16 p = pos (u16 p)
shown SunsType.enum16 p = pos (u16 p)
shown SunsType.int32 p = signed32 (u32 p)
shown SunsType.acc32 p = signed32 (u32 p)
shown SunsType.uint32 p = pos (u32 p)
shown SunsType.enum32 p = pos (u32 p)
shown SunsType.int64 p = signed64 (u64 p)
shown SunsType.uint64 p = signed64 (u64 p)
shown _ p = pos 0

by_type-shown :
    (floats : FloatTexts) (t : SunsType) (buf : Bytes) (len : ℕ) (v : SunsValue)
    → is_decimal t ≡ true
    → by_type t (suns_output_value_base_fmt floats) buf len v
      ≡ print buf len (print_int (shown t v.value))
unfolding by_type
by_type-shown floats SunsType.int16 buf len v h = refl
by_type-shown floats SunsType.sf buf len v h = refl
by_type-shown floats SunsType.uint16 buf len v h = refl
by_type-shown floats SunsType.acc16 buf len v h = refl
by_type-shown floats SunsType.enum16 buf len v h = refl
by_type-shown floats SunsType.int32 buf len v h = refl
by_type-shown floats SunsType.acc32 buf len v h = refl
by_type-shown floats SunsType.uint32 buf len v h = refl
by_type-shown floats SunsType.enum32 buf len v h = refl
by_type-shown floats SunsType.int64 buf len v h = refl
by_type-shown floats SunsType.uint64 buf len v h = refl
by_type-shown floats _ buf len v h = absurd (cc h)

-- A word as a signed number, and back.
word_of-signed16 : (w : ℕ) → w < 2 ^ 16 → word_of 16 (signed16 w) ≡ w
word_of-signed16 w h = ground arith

word_of-signed32 : (w : ℕ) → w < 2 ^ 32 → word_of 32 (signed32 w) ≡ w
word_of-signed32 w h = ground arith

word_of-signed64 : (w : ℕ) → w < 2 ^ 64 → word_of 64 (signed64 w) ≡ w
word_of-signed64 w h = ground arith

decimal-form : (t : SunsType) → is_decimal t ≡ true → is_integer (form t) ≡ true
unfolding form
decimal-form SunsType.int16 h = refl
decimal-form _ h = ground (arith, h)

shown-word :
    (t : SunsType) (p : Payload)
    → is_decimal t ≡ true
    → word_of (8 * suns_type_size t) (shown t p) ≡ member t p
unfolding suns_type_size
shown-word SunsType.int16 p h = word_of-signed16 (u16 p) (omega arith)
shown-word SunsType.sf p h = word_of-signed16 (u16 p) (omega arith)
shown-word SunsType.uint16 p h = omega arith
shown-word SunsType.acc16 p h = omega arith
shown-word SunsType.enum16 p h = omega arith
shown-word SunsType.int32 p h = word_of-signed32 (u32 p) (omega arith)
shown-word SunsType.acc32 p h = word_of-signed32 (u32 p) (omega arith)
shown-word SunsType.uint32 p h = omega arith
shown-word SunsType.enum32 p h = omega arith
shown-word SunsType.int64 p h = word_of-signed64 (u64 p) (omega arith)
shown-word SunsType.uint64 p h = word_of-signed64 (u64 p) (omega arith)
shown-word _ p h = absurd (cc h)

shown-small : (t : SunsType) (p : Payload) → is_decimal t ≡ true → magnitude (shown t p) < 2 ^ 64
shown-small SunsType.int16 p h = ground arith
shown-small SunsType.sf p h = ground arith
shown-small SunsType.uint16 p h = omega arith
shown-small SunsType.acc16 p h = omega arith
shown-small SunsType.enum16 p h = omega arith
shown-small SunsType.int32 p h = ground arith
shown-small SunsType.acc32 p h = ground arith
shown-small SunsType.uint32 p h = omega arith
shown-small SunsType.enum32 p h = omega arith
shown-small SunsType.int64 p h = ground arith
shown-small SunsType.uint64 p h = ground arith
shown-small _ p h = absurd (cc h)

shown-IsScanned :
    (t : SunsType) (p : Payload) → is_decimal t ≡ true → IsScanned (scans_signed t) (shown t p)
unfolding scans_signed
shown-IsScanned SunsType.int16 p h = ground arith
shown-IsScanned SunsType.sf p h = ground arith
shown-IsScanned SunsType.uint16 p h = omega arith
shown-IsScanned SunsType.acc16 p h = omega arith
shown-IsScanned SunsType.enum16 p h = omega arith
shown-IsScanned SunsType.int32 p h = ground arith
shown-IsScanned SunsType.acc32 p h = ground arith
shown-IsScanned SunsType.uint32 p h = omega arith
shown-IsScanned SunsType.enum32 p h = omega arith
shown-IsScanned SunsType.int64 p h = ground arith
shown-IsScanned SunsType.uint64 p h = ground arith
shown-IsScanned _ p h = absurd (cc h)

short_text : {len : ℕ} (z : ℤ) → magnitude z < 2 ^ 64 → 21 < len → length (print_int z) < len
short_text (pos n) small h = omega (arith, print_nat-bound n (omega arith))
short_text (negsuc n) small h = omega (arith, print_nat-bound (suc n) (omega arith))

print-whole :
    (buf : Bytes) (len : ℕ) (text : Bytes)
    → length text < len
    → len ≤ length buf
    → print buf len text
      ≡ ok (pos (length text), (text ++ 0 ∷ []) ++ drop (length (text ++ 0 ∷ [])) buf)
unfolding print
print-whole buf len text fits room =
    rw
      (
        snprintf_whole len text fits,
        overwrite_lem buf (text ++ 0 ∷ []) (omega (arith, length-append text (0 ∷ []))),
      )
      refl

-- An implemented value of a type whose numbers are printed in decimal, written as a text to a
-- buffer of more than 21 bytes, is read back from it as the same number of the same type, whatever
-- value is read into: the text, with a zero byte behind it, stands at the start of the buffer, and
-- the result of the writing is its length. These are the types of integers but the bit fields,
-- which are printed in hexadecimal, and acc64.
pub suns_string_to_value-suns_snprintf_value_text :
    (floats : FloatTexts) (scan_float : (width : ℕ) → Bytes → Option ℕ) (buf : Bytes) (len : ℕ)
    (v w : SunsValue) (base : Bytes) (extra : ℕ)
    → v.meta ≡ Meta.ok
    → is_decimal v.tp.type ≡ true
    → 21 < len
    → len ≤ length buf
    → length base ≡ 128
    → (n : ℕ) × (out : Bytes) × (u : SunsValue) × (suns_snprintf_value_text floats buf len v
        ≡ ok (pos n, out))
      × (suns_string_to_value scan_float (n + suc (suc extra)) out base w v.tp
          ≡ some (ok (pos 0, u)))
      × (u.tp ≡ v.tp)
      × (member v.tp.type u.value ≡ member v.tp.type v.value)
unfolding suns_snprintf_value_text suns_snprintf_value
suns_string_to_value-suns_snprintf_value_text floats sf buf len v w base extra good decimal long
      room array =
    let t : SunsType = v.tp.type in
    let z : ℤ = shown t v.value in
    let text : Bytes = print_int z in
    let implemented : is_ok v.meta ≡ true = ap is_ok good ∙ ==-refl (enum_meta Meta.ok) in
    let s = print_int-Shown z (shown-small t v.value decimal) in
    let rest : Bytes = drop (length (text ++ 0 ∷ [])) buf in
    let in_range =
      subst (IsScanned (scans_signed t)) (sym s.value_is) (shown-IsScanned t v.value decimal) in
    let (u, run, tp_is, number_is, _) =
      suns_string_to_value_whole sf extra s.literal rest base w v.tp (decimal-form t decimal)
        s.IsNumber s.some_digits in_range s.fits array in
    let alone : written s.literal [] ≡ text = s.text_is [] ∙ append-nil text in
    (
      length text,
      (text ++ 0 ∷ []) ++ rest,
      u,
      rw (implemented, by_type-shown floats t buf len v decimal)
          (print-whole buf len text (short_text z (shown-small t v.value decimal) long) room),
      rw (append_assoc text (0 ∷ []) rest) (rw (alone, s.text_is (0 ∷ rest)) at run),
      tp_is,
      number_is ∙ ap (word_of (8 * suns_type_size t)) s.value_is ∙ shown-word t v.value decimal,
    )
