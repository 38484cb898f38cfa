-- ===== src/Tests/OutputTests.antt =====
-- Scaled numbers as texts.
use sunspec.Prelude.{◌∷◌, ◌++◌, [], ◌≡◌, arith, length, drop, replicate, ok, true, false, inr, ◌-◌}
use sunspec.Prelude.Bytes.{Bytes, print_nat, digits}
use sunspec.Prelude.Int.{pos, negsuc, ◌+ℤ◌, ◌-ℤ◌}
use sunspec.Output.{print_int, suns_snprintf_int_sf, suns_snprintf_uint_sf}
use sunspec.Output.Decimal.{read_decimal}
use sunspec.Output.Scientific.{mantissa, normalized, suns_snprintf_uint_sf_scientific}
use sunspec.Output.Notation.{Denotes, suns_snprintf_int_sf-Denotes}

abbrev page : Bytes
page = replicate 32 0

-- -1234 with the scale factor -2, which is -12.34.
suns_snprintf_int_sf-Denotes_example :
    (text : Bytes) × (suns_snprintf_int_sf page 32 (negsuc 1233) (negsuc 1) 16
      ≡ ok (pos (length text), (text ++ 0 ∷ []) ++ drop (length (text ++ 0 ∷ [])) page))
    × Denotes true (1234, 2) text
unfolding print_nat digits
suns_snprintf_int_sf-Denotes_example =
    suns_snprintf_int_sf-Denotes page 32 (negsuc 1233) (negsuc 1) 16 (λ e. omega arith)
      (λ e. omega arith) (omega arith) (omega arith) (omega arith) (omega arith)

abbrev big : Bytes
big = mantissa (print_nat 123456) ++ b'e' ∷ print_int (normalized (print_nat 123456) (pos 20))

suns_snprintf_uint_sf_scientific_example :
    (suns_snprintf_uint_sf page 32 123456 (pos 20) 16
      ≡ ok (pos (length big), (big ++ 0 ∷ []) ++ drop (length (big ++ 0 ∷ [])) page))
    × (read_decimal false 0 0 (mantissa (print_nat 123456))
        ≡ (123456, length (print_nat 123456) - 1))
unfolding print_nat digits ◌+ℤ◌ ◌-ℤ◌
suns_snprintf_uint_sf_scientific_example =
    suns_snprintf_uint_sf_scientific page 32 123456 (pos 20) 16 (λ e. omega arith)
      (λ e. omega arith) (inr (omega arith)) (λ e. omega arith) (omega arith) (omega arith)
