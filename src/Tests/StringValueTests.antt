-- ===== src/Tests/StringValueTests.antt =====
-- Values from texts.
use sunspec.Output.Decimal.{read_digits}
use sunspec.Prelude.{
  ℕ, suc, ◌+◌, ◌*◌, Option, none, some, ok, inl, [], ◌∷◌, ◌++◌, ◌≡◌, refl, arith, length, replicate,
}
use sunspec.Prelude.Bytes.{Bytes, codes}
use sunspec.Prelude.Int.{pos, negsuc, word_of, ◌-ℤ◌}
use sunspec.Types.{SunsType, suns_type_size}
use sunspec.Value.{SunsValue, word, suns_value_set_null, suns_check_not_implemented}
use sunspec.Wire.RoundTrip.{member}
use sunspec.Number.Literals.{minus, no_sign, scientific, written}
use sunspec.StringValue.{form, put_address, skip_digits, suns_string_to_value, scans_signed}
use sunspec.Number.{scan_digits, scan_number}
use sunspec.StringValue.Numbers.{suns_string_to_value_whole, whole_value}
use sunspec.StringValue.Dotted.{suns_string_to_value_dotted}
use sunspec.Tests.{typed}

abbrev array : Bytes
array = replicate 128 0

abbrev no_floats : (width : ℕ) → Bytes → Option ℕ
no_floats width s = none

-- "-12.5e3" is read as -12.
suns_string_to_value_whole_example :
    let l = scientific minus (codes "12") (codes "5") b'e' no_sign (codes "3") in
    (u : SunsValue) × (suns_string_to_value no_floats
        (length (written l []) + suc (suc 0))
        (written l (0 ∷ []))
        array
        suns_value_set_null
        (typed SunsType.int16)
      ≡ some (ok (pos 0, u)))
    × (u.tp ≡ typed SunsType.int16)
    × (member SunsType.int16 u.value ≡ word_of (8 * suns_type_size SunsType.int16) (whole_value l))
    × (u.meta ≡ suns_check_not_implemented (typed SunsType.int16) u)
unfolding form scans_signed read_digits ◌-ℤ◌
suns_string_to_value_whole_example =
    suns_string_to_value_whole no_floats 0
      (scientific minus (codes "12") (codes "5") b'e' no_sign (codes "3")) [] array
      suns_value_set_null (typed SunsType.int16) refl
      (omega arith, omega arith, omega arith, omega arith, inl refl) (omega arith) (omega arith)
      (omega arith, omega arith, omega arith, omega arith, omega arith) refl

-- 10.0.0.1
suns_string_to_value_dotted_example :
    suns_string_to_value no_floats
      (length (codes "10") + suc (length (codes "0") + suc 0))
      (codes "10" ++ b'.' ∷ (codes "0" ++ b'.' ∷ (codes "0.1" ++ 0 ∷ [])))
      array
      suns_value_set_null
      (typed SunsType.ipv4)
    ≡ some (ok (negsuc 0, record suns_value_set_null { tp = typed SunsType.ipv4 }))
suns_string_to_value_dotted_example =
    suns_string_to_value_dotted no_floats 0 (codes "10") (codes "0") (codes "0.1" ++ 0 ∷ []) array
      suns_value_set_null (typed SunsType.ipv4) refl (omega arith) (omega arith) (omega arith)
      (omega arith)

-- The octets are joined by a bitwise and.
address : put_address (word 0) (codes "10.0.0.1" ++ 0 ∷ []) ≡ word 0
unfolding put_address scan_number scan_digits skip_digits
address = refl
