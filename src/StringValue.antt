-- ===== src/StringValue.antt =====
-- Values from texts: suns_string_to_value, suns_value_new of src/suns_model.c. `string` is the
-- object from the pointer on, and `base` the uninitialized local array. `sscanf` with a
-- floating-point format is an argument, which gives the bits of the number that it reads; the
-- integer formats store the low bits of the `long` or `unsigned long` that they scan, as in glibc. A
-- text that the number
-- parser accepts has no blanks.
pub mod Dotted
pub mod Numbers
use Prim.Native.Nat.{bit_and}
use sunspec.Prelude.{
  ℕ, zero, suc, ◌+◌, ◌-◌, ◌*◌, ◌%◌, ◌^◌, Bool, true, false, Option, none, some, [], ◌∷◌, ◌++◌, ◌==◌,
  ltb, if◌then◌else◌, Run, ok, fault, ◌>>=◌,
}
use sunspec.Prelude.Bytes.{Bytes, strncpy}
use sunspec.Prelude.Int.{ℤ, pos, negsuc, word_of}
use sunspec.Types.{SunsType, Meta}
use sunspec.Value.{
  TypePair, Payload, word, text, SunsValue, put_u16, put_u32, put_u64, suns_value_set_null,
  suns_check_not_implemented,
}
use sunspec.Wire.{can_realloc}
use sunspec.Number.{
  Parsed, is_digit, is_sign, scan_number, saturated, tmpbuf_size, string_decompose_decimal,
}

-- What `sscanf` gives for one integer: its result is negative only at the end of the text.
pub data Scanned : Type 0 where
  at_end : Scanned
  mismatch : Scanned
  scanned : ℤ → Scanned

abbrev matched : (signed : Bool) → Option ℤ → Scanned
matched signed none = mismatch
matched signed (some z) = scanned (saturated signed z)

unfoldable pub sscanf_int : (signed : Bool) → Bytes → Scanned
sscanf_int signed [] = at_end
sscanf_int signed (c ∷ s) = if c == 0 then at_end else matched signed (scan_number (c ∷ s))

-- The text behind the digits at its front.
unfoldable pub skip_digits : Bytes → Bytes
skip_digits [] = []
skip_digits (c ∷ s) = if is_digit c then skip_digits s else c ∷ s

abbrev skip_sign : Bytes → Bytes
skip_sign [] = []
skip_sign (c ∷ s) = if is_sign c then s else c ∷ s

-- The text behind a point.
abbrev skip_point : Bytes → Option Bytes
skip_point [] = none
skip_point (c ∷ s) = if c == b'.' then some s else none

-- One number and the text behind it.
abbrev scan_octet : Bytes → Option (ℕ × Bytes)
scan_octet s = elim (scan_number s) [
  | none ↦ none
  | some z ↦ some (word_of 32 (saturated false z), skip_digits (skip_sign s))
]

abbrev then_point : Option (ℕ × Bytes) → Option (ℕ × Bytes)
then_point none = none
then_point (some (x, s)) = elim (skip_point s) [ none ↦ none | some r ↦ some (x, r) ]

abbrev then_octet : Option (ℕ × Bytes) → Option ((ℕ × ℕ) × Bytes)
then_octet none = none
then_octet (some (x, s)) = elim (scan_octet s) [ none ↦ none | some (y, r) ↦ some ((x, y), r) ]

-- `octet[i] << k` as an `unsigned int`
abbrev shifted : ℕ → (k : ℕ) → ℕ
shifted x k = x * 2 ^ k % 2 ^ 32

-- The four octets are joined by `&`.
abbrev address_of : ℕ × ℕ → ℕ × ℕ → ℕ
address_of (a, b) (c, d) =
    bit_and (bit_and (bit_and (shifted a 24) (shifted b 16)) (shifted c 8)) (shifted d 0)

abbrev second_half : Payload → ℕ × ℕ → Option ((ℕ × ℕ) × Bytes) → Payload
second_half p ab none = p
second_half p ab (some (cd, s)) = put_u32 p (address_of ab cd)

abbrev first_half : Payload → Option ((ℕ × ℕ) × Bytes) → Payload
first_half p none = p
first_half p (some (ab, s)) = elim (skip_point s) [
  | none ↦ p
  | some r ↦ second_half p ab (then_octet (then_point (scan_octet r)))
]

-- `sscanf(string, "%u.%u.%u.%u", …) == 4`
unfoldable pub put_address : Payload → Bytes → Payload
put_address p s = first_half p (then_octet (then_point (scan_octet s)))

-- The cases of the `switch`, and the two floating-point types.
pub data Form : Type 0 where
  number16 number32 number64 : Form
  characters address long_address : Form
  float single_float unsupported : Form

unfoldable pub form : SunsType → Form
form SunsType.int16 = number16
form SunsType.sf = number16
form SunsType.uint16 = number16
form SunsType.acc16 = number16
form SunsType.enum16 = number16
form SunsType.bitfield16 = number16
form SunsType.int32 = number32
form SunsType.uint32 = number32
form SunsType.acc32 = number32
form SunsType.enum32 = number32
form SunsType.bitfield32 = number32
form SunsType.int64 = number64
form SunsType.uint64 = number64
form SunsType.string = characters
form SunsType.ipv4 = address
form SunsType.ipv6 = long_address
form SunsType.float32 = single_float
form SunsType.float64 = float
form SunsType.acc64 = unsupported
form SunsType.pad = unsupported
form SunsType.null = unsupported
form SunsType.undef = unsupported

-- Whether the format of a type's integers is `%hd`, `%d` or `%ld`, or the one without sign.
unfoldable pub scans_signed : SunsType → Bool
scans_signed SunsType.int16 = true
scans_signed SunsType.sf = true
scans_signed SunsType.int32 = true
scans_signed SunsType.int64 = true
scans_signed _ = false

-- The exponent in `v->tp.sf` is overwritten with the rest of the type pair.
abbrev pub finish_text : TypePair → SunsValue → Payload → Run (ℤ × SunsValue)
finish_text tp v p =
    let read = record v { value = p } in
    ok (pos 0, record read { meta = suns_check_not_implemented tp read; tp = tp })

abbrev pub by_scan :
    TypePair → SunsValue → (put : ℕ → Payload) → (width : ℕ) → Scanned → Run (ℤ × SunsValue)
by_scan tp v put width at_end = ok (negsuc 0, v)
by_scan tp v put width mismatch = finish_text tp v v.value
by_scan tp v put width (scanned z) = finish_text tp v (put (word_of width z))

abbrev pub by_float : TypePair → SunsValue → (put : ℕ → Payload) → Option ℕ → Run (ℤ × SunsValue)
by_float tp v put none = ok (negsuc 0, v)
by_float tp v put (some bits) = finish_text tp v (put bits)

-- Floating-point numbers and strings are not given to the number parser.
abbrev pub is_decomposed : Form → Bool
is_decomposed characters = false
is_decomposed float = false
is_decomposed single_float = false
is_decomposed _ = true

module _ (scan_float : (width : ℕ) → Bytes → Option ℕ) where
  unfoldable pub by_form : Form → (string : Bytes) → TypePair → SunsValue → Run (ℤ × SunsValue)
  by_form number16 string tp v =
      by_scan tp v (put_u16 v.value) 16 (sscanf_int (scans_signed tp.type) string)
  by_form number32 string tp v =
      by_scan tp v (put_u32 v.value) 32 (sscanf_int (scans_signed tp.type) string)
  by_form number64 string tp v =
      by_scan tp v (put_u64 v.value) 64 (sscanf_int (scans_signed tp.type) string)
  by_form characters string tp v =
      if can_realloc v.value
      then (do s ← strncpy string tp.len; finish_text tp v (text (s ++ 0 ∷ [])))
      else fault
  by_form address string tp v = finish_text tp v (put_address v.value string)
  by_form long_address string tp v = finish_text tp v v.value
  by_form single_float string tp v = by_float tp v (put_u32 v.value) (scan_float 32 string)
  by_form float string tp v = by_float tp v (put_u64 v.value) (scan_float 64 string)
  by_form unsupported string tp v = ok (negsuc 1, v)

  abbrev pub by_parsed :
      Form
      → (string : Bytes) → TypePair
      → SunsValue
      → Option (Run Parsed)
      → Option (Run (ℤ × SunsValue))
  by_parsed f string tp v none = none
  by_parsed f string tp v (some fault) = some fault
  by_parsed f string tp v (some (ok p)) = elim p.rc [
    | pos n ↦ some (by_form f string tp v)
    | negsuc n ↦ some (ok (negsuc 0, v))
  ]

  -- The result and the value after the call; `none` if the number parser uses up its rounds.
  unfoldable pub suns_string_to_value :
      (fuel : ℕ) (string base : Bytes) → SunsValue → TypePair → Option (Run (ℤ × SunsValue))
  suns_string_to_value fuel string base v tp =
      let f = form tp.type in
      let w = record v { tp = tp } in
      if is_decomposed f
      then by_parsed f string tp w (string_decompose_decimal fuel string base tmpbuf_size)
      else some (by_form f string tp w)

abbrev pub suns_value_new : SunsValue
suns_value_new = suns_value_set_null
