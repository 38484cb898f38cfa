-- ===== src/Tests/NumberTests.antt =====
-- Decimal numbers as texts.
use sunspec.Prelude.{
  ℕ, suc, ◌+◌, ◌<◌, ◌⊎◌, true, some, none, ok, inl, [], ◌∷◌, ◌++◌, ◌≡◌, refl, arith, length, drop,
  replicate, Run,
}
use sunspec.Prelude.Bytes.{Bytes, codes, print_nat, digits, overwrite, strncpy}
use sunspec.Prelude.Copy.{c_string}
use sunspec.Prelude.Int.{pos, negsuc, ◌-ℤ◌}
use sunspec.Output.{suns_snprintf_int_sf}
use sunspec.Output.Decimal.{read_digits}
use sunspec.Number.{
  Parsed, string_decompose_decimal, rounds, turn, on_char, on_sign, on_digit, on_point, on_exponent,
  on_end, scan_int, scan_digits, is_sign, scan_number,
}
use sunspec.Number.Literals.{minus, no_sign, scientific, written}
use sunspec.Number.Reads.{Reads, string_decompose_decimal-Reads}
use sunspec.Number.Ends.{string_decompose_decimal_stops}
use sunspec.Number.Endless.{string_decompose_decimal_endless}
use sunspec.Number.RoundTrip.{string_decompose_decimal-suns_snprintf_int_sf}

abbrev page : Bytes
page = replicate 32 0

-- "-12.5e+3" has the base -125 and the exponent 2.
abbrev thousands : Bytes
thousands = codes "-12.5e+3" ++ 0 ∷ []

thousands_run :
    string_decompose_decimal 10 thousands page 32
    ≡ some (ok (record { rc = pos 0; base = codes "-125" ++ replicate 28 0; e = pos 2 }))
unfolding string_decompose_decimal rounds turn on_char on_sign on_digit on_point on_exponent on_end
    scan_int scan_number scan_digits overwrite strncpy ◌-ℤ◌
thousands_run = refl

string_decompose_decimal-Reads_example :
    let l = scientific minus (codes "12") (codes "5") b'e' no_sign (codes "3") in
    (out : Parsed) × (string_decompose_decimal
        (length (written l []) + suc (suc 0))
        (written l (0 ∷ []))
        page
        32
      ≡ some (ok out))
    × Reads l out
unfolding read_digits ◌-ℤ◌
string_decompose_decimal-Reads_example =
    string_decompose_decimal-Reads 0 32
      (scientific minus (codes "12") (codes "5") b'e' no_sign (codes "3")) [] page
      (omega arith, omega arith, omega arith, omega arith, inl refl)
      (omega arith, omega arith, omega arith, omega arith, omega arith) (omega arith)

-- "2010-05"
string_decompose_decimal_endless_example :
    string_decompose_decimal 1_000 (codes "2010" ++ b'-' ∷ (codes "05" ++ 0 ∷ [])) page 32 ≡ none
string_decompose_decimal_endless_example =
    string_decompose_decimal_endless 32 no_sign (codes "2010") b'-' (codes "05" ++ 0 ∷ []) page
      (omega arith, omega arith) (omega arith) refl (omega arith) 1_000

string_decompose_decimal_stops_example :
    let buf : Bytes = codes "7-" ++ 0 ∷ [] in
    ((r : Run Parsed) × (string_decompose_decimal (length buf + 2) buf page 32 ≡ some r))
    ⊎ (((fuel : ℕ) → string_decompose_decimal fuel buf page 32 ≡ none)
        × ((pre : Bytes) × (c : ℕ) × (post : Bytes) × (buf ≡ pre ++ c ∷ post)
            × (is_sign c ≡ true)
            × (0 < length pre)))
string_decompose_decimal_stops_example =
    string_decompose_decimal_stops 32 (codes "7-" ++ 0 ∷ []) page

-- -1234 with the scale factor -2 is written as "-12.34", and read back.
string_decompose_decimal-suns_snprintf_int_sf_example :
    (text : Bytes) × (out : Parsed) × (ds : Bytes) × (suns_snprintf_int_sf page 32
        (negsuc 1233)
        (negsuc 1)
        16
      ≡ ok (pos (length text), (text ++ 0 ∷ []) ++ drop (length (text ++ 0 ∷ [])) page))
    × (string_decompose_decimal
          (length text + suc (suc 0))
          ((text ++ 0 ∷ []) ++ drop (length (text ++ 0 ∷ [])) page)
          page
          32
        ≡ some (ok out))
    × (out.rc ≡ pos 0)
    × (c_string out.base ≡ b'-' ∷ ds)
    × (read_digits 0 ds ≡ 1234)
    × (out.e ≡ pos 0 -ℤ pos 2)
unfolding print_nat digits
string_decompose_decimal-suns_snprintf_int_sf_example =
    string_decompose_decimal-suns_snprintf_int_sf page 32 (negsuc 1233) (negsuc 1) 16 page 32 0
      (λ e. omega arith) (λ e. omega arith) (omega arith) (omega arith) (omega arith) (omega arith)
      (omega arith) (omega arith) (omega arith)

-- 2^31 is kept as -2^31, and a number of twenty digits as that of the last `long`.
scan_int-beyond : scan_int (codes "2147483648") ≡ some (negsuc 0x7FFF_FFFF)
unfolding scan_int scan_number scan_digits
scan_int-beyond = refl

scan_int-saturated : scan_int (codes "99999999999999999999") ≡ some (negsuc 0)
unfolding scan_int scan_number scan_digits
scan_int-saturated = refl
