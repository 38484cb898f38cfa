-- ===== src/Tests/DisplayTests.antt =====
-- Values as texts.
use sunspec.Prelude.{ℕ, suc, ◌+◌, Option, none, some, [], ◌++◌, ◌≡◌, refl, arith, replicate, ok}
use sunspec.Prelude.Bytes.{Bytes, codes, overwrite, print_nat, digits}
use sunspec.Prelude.Int.{pos}
use sunspec.Types.{SunsType, Meta, enum, enum_meta, suns_type_string, is_type}
use sunspec.Value.{suns_type_pair_new, SunsValue, suns_value_set_null, word}
use sunspec.Wire.RoundTrip.{member}
use sunspec.Output.{snprintf}
use sunspec.Buffer.Memory.{write_at}
use sunspec.StringValue.{suns_string_to_value}
use sunspec.Display.Writers.{FloatTexts, print, print_hex}
use sunspec.Display.{
  by_type, suns_snprintf_value, suns_snprintf_value_text, suns_snprintf_type_pair,
}
use sunspec.Display.Parsed.{suns_string_to_value-suns_snprintf_value_text}
use sunspec.Tests.{typed}

abbrev page : Bytes
page = replicate 32 0

abbrev no_texts : FloatTexts
no_texts = record { plain = λ width bits. []; scaled = λ width bits sf. [] }

abbrev no_floats : (width : ℕ) → Bytes → Option ℕ
no_floats width s = none

-- 0xFFFE as an int16 is -2.
abbrev negative : SunsValue
negative = record suns_value_set_null {
  tp = typed SunsType.int16;
  meta = Meta.ok;
  value = word 0xFFFE;
}

negative_text :
    suns_snprintf_value_text no_texts page 32 negative ≡ ok (pos 2, codes "-2" ++ replicate 30 0)
unfolding suns_snprintf_value_text suns_snprintf_value by_type print snprintf overwrite print_nat
    digits enum_meta
negative_text = refl

-- A bit field is printed in hexadecimal.
flags_text :
    suns_snprintf_value_text no_texts page 32 (record negative { tp = typed SunsType.bitfield16 })
    ≡ ok (pos 6, codes "0xfffe" ++ replicate 26 0)
unfolding suns_snprintf_value_text suns_snprintf_value by_type print snprintf overwrite print_hex
    enum_meta
flags_text = refl

pair_text :
    suns_snprintf_type_pair page 32
      (record suns_type_pair_new { type = SunsType.int16; name = some "A_SF" })
    ≡ ok (pos 10, codes "int16.A_SF" ++ replicate 22 0)
unfolding suns_snprintf_type_pair suns_type_string enum is_type snprintf overwrite write_at
pair_text = refl

suns_string_to_value-suns_snprintf_value_text_example :
    (n : ℕ) × (out : Bytes) × (u : SunsValue) × (suns_snprintf_value_text no_texts page 32 negative
      ≡ ok (pos n, out))
    × (suns_string_to_value no_floats
          (n + suc (suc 0))
          out
          (replicate 128 0)
          suns_value_set_null
          (typed SunsType.int16)
        ≡ some (ok (pos 0, u)))
    × (u.tp ≡ typed SunsType.int16)
    × (member SunsType.int16 u.value ≡ member SunsType.int16 (word 0xFFFE))
suns_string_to_value-suns_snprintf_value_text_example =
    suns_string_to_value-suns_snprintf_value_text no_texts no_floats page 32 negative
      suns_value_set_null (replicate 128 0) 0 refl refl (omega arith) (omega arith) refl
