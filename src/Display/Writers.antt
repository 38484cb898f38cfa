-- ===== src/Display/Writers.antt =====
-- The functions of src/suns_output.c that write one kind of value. `buf` is the object from the
-- pointer on; each function gives its result and the object after the call. The texts of
-- floating-point numbers are an argument.
use sunspec.Prelude.{
  ℕ, zero, suc, ◌+◌, ◌-◌, ◌*◌, ◌/◌, ◌%◌, ◌^◌, Option, none, some, [], ◌∷◌, ◌++◌, String, ltb,
  if◌then◌else◌, length, Run, ok, fault, ◌>>=◌,
}
use sunspec.Prelude.Bytes.{Bytes, codes, overwrite, print_nat}
use sunspec.Prelude.Copy.{c_string}
use sunspec.Prelude.Int.{ℤ, pos, negsuc, signed16, signed32}
use sunspec.Types.{suns_value_meta_string, enum_meta}
use sunspec.Value.{word, text, SunsValue, u16, u32, u64}
use sunspec.Output.{print_int, snprintf, suns_snprintf_int_sf, suns_snprintf_uint_sf}

-- `snprintf(buf, len, …)` of a text
unfoldable pub print : (buf : Bytes) (len : ℕ) → Bytes → Run (ℤ × Bytes)
unfolding snprintf
print buf len t = do out ← overwrite buf (snprintf len t); ok (pos (length t), out)

-- The member `i64`; `signed32` gives the member `i32`.
abbrev pub signed64 : ℕ → ℤ
signed64 w = if ltb w 0x8000_0000_0000_0000 then pos w else negsuc (0x1_0000_0000_0000_0000 - w - 1)

-- `%0*x`
unfoldable pub print_hex : (places : ℕ) → ℕ → Bytes
print_hex zero n = []
print_hex (suc places) n =
    print_hex places (n / 16)
    ++ ((if ltb (n % 16) 10 then b'0' + n % 16 else b'a' + (n % 16 - 10)) ∷ [])

-- `suns_value_snprintf_f`
abbrev pub Writer : Type 0
Writer = (buf : Bytes) (len : ℕ) → SunsValue → Run (ℤ × Bytes)

-- The texts of a number with these bits: `%f`, and `%g` of its product with a power of ten.
pub record FloatTexts : Type 0 where
  pub plain : (width bits : ℕ) → Bytes
  pub scaled : (width bits : ℕ) → ℤ → Bytes

abbrev pub value_output_null : Writer
value_output_null buf len v = print buf len (codes "null type")

abbrev pub value_output_undef : Writer
value_output_undef buf len v = print buf len (codes "undef type")

abbrev pub value_output_int16 : Writer
value_output_int16 buf len v = print buf len (print_int (signed16 (u16 v.value)))

abbrev pub value_output_int16_sf : Writer
value_output_int16_sf buf len v = suns_snprintf_int_sf buf len (signed16 (u16 v.value)) v.tp.sf 16

abbrev pub value_output_uint16 : Writer
value_output_uint16 buf len v = print buf len (print_nat (u16 v.value))

abbrev pub value_output_uint16_sf : Writer
value_output_uint16_sf buf len v = suns_snprintf_uint_sf buf len (u16 v.value) v.tp.sf 16

abbrev pub value_output_int32 : Writer
value_output_int32 buf len v = print buf len (print_int (signed32 (u32 v.value)))

abbrev pub value_output_int32_sf : Writer
value_output_int32_sf buf len v = suns_snprintf_int_sf buf len (signed32 (u32 v.value)) v.tp.sf 16

abbrev pub value_output_uint32 : Writer
value_output_uint32 buf len v = print buf len (print_nat (u32 v.value))

abbrev pub value_output_uint32_sf : Writer
value_output_uint32_sf buf len v = suns_snprintf_uint_sf buf len (u32 v.value) v.tp.sf 16

abbrev pub value_output_hex_uint16 : Writer
value_output_hex_uint16 buf len v = print buf len (codes "0x" ++ print_hex 4 (u16 v.value))

abbrev pub value_output_hex_uint32 : Writer
value_output_hex_uint32 buf len v = print buf len (codes "0x" ++ print_hex 8 (u32 v.value))

-- A number is no pointer to read from.
abbrev pub string_of : SunsValue → Run Bytes
string_of v = elim v.value [ text s ↦ ok s | word w ↦ fault ]

abbrev pub value_output_string : Writer
value_output_string buf len v = do s ← string_of v; print buf len (c_string s)

abbrev pub meta_text : Option String → Bytes
meta_text none = codes "(null)"
meta_text (some s) = codes s

abbrev pub value_output_meta : Writer
value_output_meta buf len v = print buf len (meta_text (suns_value_meta_string (enum_meta v.meta)))

abbrev pub value_output_int64 : Writer
value_output_int64 buf len v = print buf len (print_int (signed64 (u64 v.value)))

abbrev pub value_output_int64_sf : Writer
value_output_int64_sf buf len v = suns_snprintf_int_sf buf len (signed64 (u64 v.value)) v.tp.sf 16

abbrev pub value_output_uint64 : Writer
value_output_uint64 buf len v = print buf len (print_nat (u64 v.value))

abbrev pub value_output_uint64_sf : Writer
value_output_uint64_sf buf len v = suns_snprintf_uint_sf buf len (u64 v.value) v.tp.sf 16

-- The octet `k` from the low end.
abbrev octet : ℕ → (k : ℕ) → ℕ
octet w k = w / 2 ^ (8 * k) % 2 ^ 8

abbrev pub value_output_ipv4 : Writer
value_output_ipv4 buf len v =
    let w = u32 v.value in
    print buf len (
      print_nat (octet w 3)
      ++ b'.'
        ∷ (print_nat (octet w 2) ++ b'.' ∷ (print_nat (octet w 1) ++ b'.' ∷ print_nat (octet w 0))))

abbrev pub value_output_ipv6 : Writer
value_output_ipv6 buf len v = print buf len (codes "no IPv6 output function")

module _ (floats : FloatTexts) where
  abbrev pub value_output_float32 : Writer
  value_output_float32 buf len v = print buf len (floats.plain 32 (u32 v.value))

  abbrev pub value_output_float32_sf : Writer
  value_output_float32_sf buf len v = print buf len (floats.scaled 32 (u32 v.value) v.tp.sf)

  abbrev pub value_output_float64 : Writer
  value_output_float64 buf len v = print buf len (floats.plain 64 (u64 v.value))

  abbrev pub value_output_float64_sf : Writer
  value_output_float64_sf buf len v = print buf len (floats.scaled 64 (u64 v.value) v.tp.sf)
