-- ===== src/Number/RoundTrip.antt =====
-- What the number parser makes of a scaled number that was written in fixed notation.
use mathlib.Core.List.{append_assoc, append-nil}
use sunspec.Prelude.{
  ℕ, suc, ◌+◌, ◌≤◌, ◌<◌, some, [], ◌∷◌, ◌++◌, ◌≡◌, ◌≢◌, sym, ◌∙◌, arith, length, drop,
  length-append, ok,
}
use sunspec.Prelude.Bytes.{Bytes}
use sunspec.Prelude.Copy.{c_string}
use sunspec.Prelude.Int.{ℤ, pos, ◌-ℤ◌}
use sunspec.Output.{print_int, magnitude, fixed_text, suns_snprintf_int_sf}
use sunspec.Output.Decimal.{read_digits}
use sunspec.Output.Notation.{
  scaled, signed, is_negative, print_int-signed, fixed_text_bound, suns_snprintf_int_sf_text,
}
use sunspec.Number.{Parsed, string_decompose_decimal}
use sunspec.Number.Literals.{Literal, written, IsLiteral, Fits}
use sunspec.Number.Reads.{Reads, string_decompose_decimal-Reads}
use sunspec.Number.Printed.{Printed, digits_shown, fixed_text-Printed}

number-Printed :
    (x e : ℤ)
    → magnitude x ≢ 0
    → Printed (is_negative x) (scaled (magnitude x) e) (fixed_text (print_int x) e)
number-Printed x e nx =
    let (ds, shown, d, v) = print_int-signed x nx in
    rw (shown, sym v)
      (fixed_text-Printed (is_negative x) ds e d (digits_shown (magnitude x) ds nx v))

-- The parser on a text in front of a zero byte.
read_printed :
    (extra n : ℕ) (text after base : Bytes) (l : Literal)
    → IsLiteral l
    → Fits n l
    → ((rest : Bytes) → written l rest ≡ text ++ rest)
    → n ≤ length base
    → (out : Parsed) × (string_decompose_decimal
          (length text + suc (suc extra))
          ((text ++ 0 ∷ []) ++ after)
          base
          n
        ≡ some (ok out))
      × Reads l out
read_printed extra n text after base l wf fits shown room =
    let (out, run, reads) = string_decompose_decimal-Reads extra n l after base wf fits room in
    let whole : written l [] ≡ text = shown [] ∙ append-nil text in
    (out, rw (append_assoc text (0 ∷ []) after) (rw (whole, shown (0 ∷ after)) at run), reads)

-- A number and its scale factor, neither of them 0, that are written in fixed notation are read
-- back by the number parser with the same value. The result is 0, the base is a string of the
-- number's sign and of digits, which with the power of ten are the number times 10 to the scale
-- factor. The conditions are those for fixed notation, a limit `maxdigits` for which the text fits
-- in the temporary buffer and in the buffer of the base, and two rounds more than the text is long.
pub string_decompose_decimal-suns_snprintf_int_sf :
    (buf : Bytes) (len : ℕ) (x e : ℤ) (maxdigits : ℕ) (base : Bytes) (n extra : ℕ)
    → magnitude x ≢ 0
    → magnitude e ≢ 0
    → length (print_int x) ≤ len
    → length (print_int x) ≤ maxdigits
    → length (print_int x) + magnitude e ≤ maxdigits + 2
    → maxdigits + 5 ≤ length buf
    → maxdigits + 4 < 128
    → maxdigits + 4 < n
    → n ≤ length base
    → (text : Bytes) × (out : Parsed) × (digits : Bytes) × (suns_snprintf_int_sf buf len x e
          maxdigits
        ≡ ok (pos (length text), (text ++ 0 ∷ []) ++ drop (length (text ++ 0 ∷ [])) buf))
      × (string_decompose_decimal
            (length text + suc (suc extra))
            ((text ++ 0 ∷ []) ++ drop (length (text ++ 0 ∷ [])) buf)
            base
            n
          ≡ some (ok out))
      × (out.rc ≡ pos 0)
      × (c_string out.base ≡ signed (is_negative x) digits)
      × (read_digits 0 digits ≡ (scaled (magnitude x) e).0)
      × (out.e ≡ pos 0 -ℤ pos (scaled (magnitude x) e).1)
string_decompose_decimal-suns_snprintf_int_sf buf len x e maxdigits base n extra nx ne fits
      short_number short_text room small base_fits base_room =
    let text : Bytes = fixed_text (print_int x) e in
    let limit : length text ≤ maxdigits + 4 = fixed_text_bound x e maxdigits nx short_text in
    let p = number-Printed x e nx in
    let (out, run, reads) =
      read_printed extra n text (drop (length (text ++ 0 ∷ [])) buf) base p.literal p.IsNumber
        (p.size n (omega arith) (omega arith)) p.text_is base_room in
    (
      text,
      out,
      p.digits,
      suns_snprintf_int_sf_text buf len x e maxdigits nx ne fits short_number short_text
          (omega (arith, length-append text (0 ∷ []))),
      run,
      reads.rc_is,
      reads.base_is ∙ p.number_is,
      p.value_is,
      reads.e_is ∙ p.power_is,
    )
