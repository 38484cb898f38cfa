-- ===== src/Display.antt =====
-- Values as texts: suns_snprintf_value and the tables of functions for each format, and
-- suns_snprintf_type_pair, in src/suns_output.c. `buf` is the object from the pointer on; each
-- function gives its result and the object after the call.
pub mod Parsed
pub mod Shown
pub mod Writers
use sunspec.Prelude.{
  ℕ, zero, suc, ◌+◌, ◌-◌, ◌*◌, ◌/◌, ◌%◌, ◌^◌, Bool, true, false, Option, none, some, [], ◌∷◌, ◌++◌,
  String, ◌==◌, ltb, ◌||◌, if◌then◌else◌, length, take, replicate, Run, ok, fault, ◌>>=◌,
}
use sunspec.Prelude.Bytes.{Bytes, codes, overwrite, print_nat}
use sunspec.Prelude.Copy.{c_string}
use sunspec.Prelude.Int.{ℤ, pos, negsuc, signed16, signed32}
use sunspec.Types.{
  SunsType, Meta, suns_type_string, suns_value_meta_string, enum_meta, is_type, enum,
}
use sunspec.Value.{TypePair, Payload, word, text, SunsValue, u16, u32, u64}
use sunspec.Output.{print_int, is_zero, snprintf, suns_snprintf_int_sf, suns_snprintf_uint_sf}
use sunspec.Escape.{string_escape_sql, string_escape_cstyle, string_escape_xml, hex_char}
use sunspec.Buffer.Memory.{write_at}
use sunspec.Display.Writers.{
  meta_text, FloatTexts, Writer, print, print_hex, signed64, string_of, value_output_float32,
  value_output_float32_sf, value_output_float64, value_output_float64_sf, value_output_hex_uint16,
  value_output_hex_uint32, value_output_int16, value_output_int16_sf, value_output_int32,
  value_output_int32_sf, value_output_int64, value_output_int64_sf, value_output_ipv4,
  value_output_ipv6, value_output_meta, value_output_null, value_output_string, value_output_uint16,
  value_output_uint16_sf, value_output_uint32, value_output_uint32_sf, value_output_uint64,
  value_output_uint64_sf, value_output_undef,
}

-- `suns_value_output_vector_t`
pub record OutputVector : Type 0 where
  pub null : Writer
  pub undef : Writer
  pub int16 : Writer
  pub uint16 : Writer
  pub acc16 : Writer
  pub int32 : Writer
  pub uint32 : Writer
  pub float32 : Writer
  pub acc32 : Writer
  pub enum16 : Writer
  pub enum32 : Writer
  pub bitfield16 : Writer
  pub bitfield32 : Writer
  pub int64 : Writer
  pub uint64 : Writer
  pub acc64 : Writer
  pub float64 : Writer
  pub sunssf : Writer
  pub string : Writer
  pub meta : Writer
  pub ipv4 : Writer
  pub ipv6 : Writer

abbrev pub is_ok : Meta → Bool
is_ok m = enum_meta m == enum_meta Meta.ok

-- `str[0] = 0`
abbrev pub empty_text : (buf : Bytes) → Run (ℤ × Bytes)
empty_text buf = do out ← overwrite buf (0 ∷ []); ok (pos 0, out)

-- The `switch` on the type; every type of the enumeration has its case.
unfoldable pub by_type : SunsType → OutputVector → Writer
by_type SunsType.null fmt buf len v = fmt.null buf len v
by_type SunsType.undef fmt buf len v = fmt.undef buf len v
by_type SunsType.int16 fmt buf len v = fmt.int16 buf len v
by_type SunsType.sf fmt buf len v = fmt.sunssf buf len v
by_type SunsType.int32 fmt buf len v = fmt.int32 buf len v
by_type SunsType.enum16 fmt buf len v = fmt.enum16 buf len v
by_type SunsType.enum32 fmt buf len v = fmt.enum32 buf len v
by_type SunsType.uint16 fmt buf len v = fmt.uint16 buf len v
by_type SunsType.acc16 fmt buf len v = fmt.acc16 buf len v
by_type SunsType.uint32 fmt buf len v = fmt.uint32 buf len v
by_type SunsType.acc32 fmt buf len v = fmt.acc32 buf len v
by_type SunsType.float32 fmt buf len v = fmt.float32 buf len v
by_type SunsType.float64 fmt buf len v = fmt.float64 buf len v
by_type SunsType.bitfield16 fmt buf len v = fmt.bitfield16 buf len v
by_type SunsType.bitfield32 fmt buf len v = fmt.bitfield32 buf len v
by_type SunsType.string fmt buf len v = fmt.string buf len v
by_type SunsType.int64 fmt buf len v = fmt.int64 buf len v
by_type SunsType.uint64 fmt buf len v = fmt.int64 buf len v
by_type SunsType.acc64 fmt buf len v = fmt.acc64 buf len v
by_type SunsType.pad fmt buf len v = empty_text buf
by_type SunsType.ipv4 fmt buf len v = fmt.ipv4 buf len v
by_type SunsType.ipv6 fmt buf len v = fmt.ipv6 buf len v

unfoldable pub suns_snprintf_value : OutputVector → Writer
unfolding by_type
suns_snprintf_value fmt buf len v =
    if is_ok v.meta then by_type v.tp.type fmt buf len v else fmt.meta buf len v

module _ (floats : FloatTexts) where
  abbrev pub suns_output_value_base_fmt : OutputVector
  suns_output_value_base_fmt = record {
    null = value_output_null;
    undef = value_output_undef;
    int16 = value_output_int16;
    uint16 = value_output_uint16;
    acc16 = value_output_uint16;
    int32 = value_output_int32;
    uint32 = value_output_uint32;
    float32 = value_output_float32 floats;
    acc32 = value_output_int32;
    enum16 = value_output_uint16;
    enum32 = value_output_uint32;
    bitfield16 = value_output_hex_uint16;
    bitfield32 = value_output_hex_uint32;
    int64 = value_output_int64;
    uint64 = value_output_uint64;
    acc64 = value_output_uint64;
    float64 = value_output_float64 floats;
    sunssf = value_output_int16;
    string = value_output_string;
    meta = value_output_meta;
    ipv4 = value_output_ipv4;
    ipv6 = value_output_ipv6;
  }

  unfoldable pub suns_snprintf_value_text : Writer
  unfolding suns_snprintf_value
  suns_snprintf_value_text = suns_snprintf_value suns_output_value_base_fmt

  -- The values with their scale factors applied.
  abbrev sf_fmt : OutputVector
  sf_fmt = record suns_output_value_base_fmt {
    int16 = value_output_int16_sf;
    uint16 = value_output_uint16_sf;
    acc16 = value_output_uint16_sf;
    int32 = value_output_int32_sf;
    uint32 = value_output_uint32_sf;
    acc32 = value_output_uint32_sf;
    float32 = value_output_float32_sf floats;
    int64 = value_output_int64_sf;
    uint64 = value_output_uint64_sf;
    acc64 = value_output_uint64_sf;
    float64 = value_output_float64_sf floats;
  }

  unfoldable pub suns_snprintf_value_sf_text : Writer
  unfolding suns_snprintf_value
  suns_snprintf_value_sf_text = suns_snprintf_value sf_fmt

  abbrev value_output_sql_null : Writer
  value_output_sql_null buf len v = print buf len (codes "NULL")

  -- `tmp` is a local array of 128 bytes, whatever `len` is.
  abbrev value_output_sql_string : Writer
  value_output_sql_string buf len v = do
    s ← string_of v
    (_, tmp) ← string_escape_sql s (replicate 128 0) len
    print buf len (39 ∷ (c_string tmp ++ 39 ∷ []))

  unfoldable pub suns_snprintf_value_sql : Writer
  unfolding suns_snprintf_value
  suns_snprintf_value_sql = suns_snprintf_value (record suns_output_value_base_fmt {
    string = value_output_sql_string;
    meta = value_output_sql_null;
  })

  abbrev value_output_csv_null : Writer
  value_output_csv_null buf len v = print buf len (codes "NULL")

  abbrev value_output_csv_string : Writer
  value_output_csv_string buf len v = do
    s ← string_of v
    (_, tmp) ← string_escape_cstyle s (replicate 128 0) len
    print buf len (b'"' ∷ (c_string tmp ++ b'"' ∷ []))

  unfoldable pub suns_snprintf_value_csv : Writer
  unfolding suns_snprintf_value
  suns_snprintf_value_csv = suns_snprintf_value (record suns_output_value_base_fmt {
    string = value_output_csv_string;
    meta = value_output_csv_null;
  })

  abbrev value_output_xml_string : Writer
  value_output_xml_string buf len v = do
    s ← string_of v
    (n, out) ← string_escape_xml s buf len
    ok (pos n, out)

  abbrev value_output_xml_meta : Writer
  value_output_xml_meta buf len v =
      print buf len (meta_text (suns_value_meta_string (enum_meta v.meta)))

  unfoldable pub suns_snprintf_value_xml : Writer
  unfolding suns_snprintf_value
  suns_snprintf_value_xml = suns_snprintf_value (record suns_output_value_base_fmt {
    string = value_output_xml_string;
    meta = value_output_xml_meta;
    bitfield16 = value_output_uint16;
    bitfield32 = value_output_uint32;
  })

-- The part of a type pair's text behind the name of its type.
abbrev pair_suffix : TypePair → Bytes
pair_suffix tp =
    let name_part : Bytes = elim tp.name [ none ↦ [] | some n ↦ b'.' ∷ codes n ] in
    let sf_part : Bytes = if is_zero tp.sf then name_part else b'.' ∷ print_int tp.sf in
    if is_type tp.type SunsType.string then b'.' ∷ print_nat tp.len else sf_part

-- The second text is written behind the first, in the space that is left. Without a suffix
-- nothing is written.
unfoldable pub suns_snprintf_type_pair : (str : Bytes) (size : ℕ) → TypePair → Run (ℤ × Bytes)
unfolding snprintf is_type
suns_snprintf_type_pair str size tp =
    let front = meta_text (suns_type_string (enum tp.type)) in
    let n = length front in
    let suffix = pair_suffix tp in
    let append = λ (first : Bytes). (do
      second ← write_at n (snprintf (size - n) suffix) first
      ok (pos (n + length suffix), second)) in
    do
      first ← overwrite str (snprintf size front)
      if ltb size n || length suffix == 0 then ok (pos n, first) else append first
