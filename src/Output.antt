-- ===== src/Output.antt =====
-- Printing of numbers with their scale factor: the functions suns_snprintf_int_sf and their kin in
-- src/suns_output.c. `buf` is the object from the pointer on, and `base` a number's text without
-- its zero byte. Each function gives its result and the buffer after the call.
pub mod Decimal
pub mod Notation
pub mod Digits
pub mod Scientific
use sunspec.Prelude.{
  ℕ, zero, suc, ◌+◌, ◌-◌, ◌^◌, Bool, true, false, ◌||◌, List, [], ◌∷◌, ◌++◌, ltb, leb, ◌==◌,
  if◌then◌else◌, length, take, drop, replicate, get_or, Run, ok, ◌>>=◌,
}
use sunspec.Prelude.Bytes.{Bytes, overwrite, strncpy, print_nat}
use sunspec.Prelude.Int.{ℤ, pos, negsuc, pos_part, neg_part, ◌+ℤ◌, ◌-ℤ◌}

-- `%d`
abbrev pub print_int : ℤ → Bytes
print_int (pos n) = print_nat n
print_int (negsuc n) = b'-' ∷ print_nat (suc n)

abbrev pub magnitude : ℤ → ℕ
magnitude z = pos_part z + neg_part z

abbrev pub is_zero : ℤ → Bool
is_zero z = magnitude z == 0

-- `snprintf(…, size, …)` of a text: cut to the size, with a zero byte, if the size is not 0.
unfoldable pub snprintf : (size : ℕ) → Bytes → Bytes
snprintf zero text = []
snprintf (suc n) text = take n text ++ 0 ∷ []

-- `strncpy(buf, s, len)` of the string `s`, whose zero byte ends its object. The bytes from `len`
-- on stay.
unfoldable pub copy_text : (buf : Bytes) (len : ℕ) → Bytes → Run Bytes
copy_text buf len s = do copied ← strncpy (s ++ 0 ∷ replicate len 0) len; overwrite buf copied

-- `len - numlen - 3` as a `size_t`
unfoldable pub space_left : (len numlen : ℕ) → ℕ
space_left len numlen = if leb (numlen + 3) len then len - numlen - 3 else 2 ^ 64 + len - numlen - 3

-- The mantissa with its point, and the exponent if it is not 0. The zero byte comes only with the
-- exponent.
abbrev put_scientific : (buf : Bytes) (len : ℕ) (base : Bytes) (e : ℤ) → Run (ℤ × Bytes)
put_scientific buf len base e =
    let front = get_or 0 base 0 ∷ b'.' ∷ drop 1 base in
    let size = space_left len (length base) in
    let exponent = print_int e in
    let short = (do out ← overwrite buf front; ok (pos (length front), out)) in
    let full = (do
      out ← overwrite buf (front ++ b'e' ∷ snprintf size exponent)
      ok (
        if ltb size (length exponent) then negsuc 0 else pos (length front + 1 + length exponent),
        out,
      )) in
    if is_zero e then short else full

-- `_suns_snprintf_int_sf_e`
unfoldable pub snprintf_int_sf_e : (buf : Bytes) (len : ℕ) (base : Bytes) (e : ℤ) → Run (ℤ × Bytes)
snprintf_int_sf_e buf len base e =
    if ltb len (length base + 2)
    then ok (negsuc 0, buf)
    else put_scientific buf len base (e +ℤ pos (length base) -ℤ pos 1)

-- The digits with a point in front of the last `k`, filled up with zeros.
unfoldable pub point_digits : (k : ℕ) → Bytes → Bytes
point_digits k digits =
    let n = length digits in
    if ltb k n
    then take (n - k) digits ++ b'.' ∷ drop (n - k) digits
    else b'0' ∷ b'.' ∷ replicate (k - n) b'0' ++ digits

abbrev skip_sign : (k : ℕ) (first : ℕ) → Bytes → Bytes
skip_sign k c rest = if c == b'-' then b'-' ∷ point_digits k rest else point_digits k (c ∷ rest)

-- The text that is written for an exponent that is not 0.
unfoldable pub fixed_text : Bytes → ℤ → Bytes
fixed_text base (pos e) = base ++ replicate e b'0'
fixed_text [] (negsuc k) = point_digits (suc k) []
fixed_text (c ∷ rest) (negsuc k) = skip_sign (suc k) c rest

-- `_suns_snprintf_int_sf`; the text and its zero byte are written with no regard to `len`.
unfoldable pub snprintf_int_sf :
    (buf : Bytes) (len : ℕ) (base : Bytes) (e : ℤ) (maxdigits : ℕ) → Run (ℤ × Bytes)
snprintf_int_sf buf len base e maxdigits =
    let numlen = length base in
    let text = fixed_text base e in
    let copy = (do out ← copy_text buf len base; ok (pos 0, out)) in
    let write = (do out ← overwrite buf (text ++ 0 ∷ []); ok (pos (length text), out)) in
    if ltb len numlen
    then ok (negsuc 0, buf)
    else if is_zero e
    then copy
    else if ltb maxdigits numlen || ltb (maxdigits + 2) (numlen + magnitude e)
    then snprintf_int_sf_e buf len base e
    else write

-- A number of 64 bits has at most 20 characters, so its own buffer is never too small.
unfoldable pub suns_snprintf_int_sf :
    (buf : Bytes) (len : ℕ) (x e : ℤ) (maxdigits : ℕ) → Run (ℤ × Bytes)
suns_snprintf_int_sf buf len x e maxdigits =
    let zero_text = (do out ← copy_text buf len (b'0' ∷ []); ok (pos 0, out)) in
    if is_zero x then zero_text else snprintf_int_sf buf len (print_int x) e maxdigits

unfoldable pub suns_snprintf_uint_sf :
    (buf : Bytes) (len x : ℕ) (e : ℤ) (maxdigits : ℕ) → Run (ℤ × Bytes)
suns_snprintf_uint_sf buf len x e maxdigits =
    let zero_text = (do out ← copy_text buf len (b'0' ∷ []); ok (pos 0, out)) in
    if x == 0 then zero_text else snprintf_int_sf buf len (print_nat x) e maxdigits
