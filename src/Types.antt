-- ===== src/Types.antt =====
-- Data types of SunSpec points: the enumeration of src/suns_model.h and its tables in
-- src/suns_model.c. A value of the C type is one of the enumerators, so the range guards of the
-- table functions are never taken there; `suns_type_string` keeps its guard, since it is also
-- applied to plain integers.
pub mod Names
use sunspec.Prelude.{
  ℕ, zero, suc, String, str_eq, Bool, ◌&&◌, ◌||◌, Option, none, some, List, [], ◌∷◌, ltb, ◌==◌,
  if◌then◌else◌, get_elem?, get_or,
}

pub data SunsType : Type 0 where
  null int16 uint16 acc16 int32 uint32 float32 acc32 int64 uint64 float64 acc64 : SunsType
  enum16 enum32 bitfield16 bitfield32 sf string pad ipv4 ipv6 undef : SunsType

pub data Meta : Type 0 where
  null ok not_implemented error undef : Meta

unfoldable pub enum_meta : Meta → ℕ
enum_meta Meta.null = 0
enum_meta ok = 1
enum_meta not_implemented = 2
enum_meta error = 3
enum_meta Meta.undef = 4

-- The number of an enumerator.
unfoldable pub enum : SunsType → ℕ
enum SunsType.null = 0
enum int16 = 1
enum uint16 = 2
enum acc16 = 3
enum int32 = 4
enum uint32 = 5
enum float32 = 6
enum acc32 = 7
enum int64 = 8
enum uint64 = 9
enum float64 = 10
enum acc64 = 11
enum enum16 = 12
enum enum32 = 13
enum bitfield16 = 14
enum bitfield32 = 15
enum sf = 16
enum string = 17
enum pad = 18
enum ipv4 = 19
enum ipv6 = 20
enum SunsType.undef = 21

-- `a == b` on enumerators.
unfoldable pub is_type : SunsType → SunsType → Bool
unfolding enum
is_type a b = enum a == enum b

abbrev type_table : List String
type_table =
    "null" ∷ "int16" ∷ "uint16" ∷ "acc16" ∷ "int32" ∷ "uint32" ∷ "float32" ∷ "acc32" ∷ "int64"
    ∷ "uint64" ∷ "float64" ∷ "acc64" ∷ "enum16" ∷ "enum32" ∷ "bitfield16" ∷ "bitfield32" ∷ "sunssf"
    ∷ "string" ∷ "pad" ∷ "ipaddr" ∷ "ipv6addr" ∷ "undef" ∷ []

-- `NULL` for a number that is no enumerator.
unfoldable pub suns_type_string : ℕ → Option String
suns_type_string type = if ltb 21 type then none else get_elem? type_table type

unfoldable pub suns_value_meta_string : ℕ → Option String
suns_value_meta_string meta =
    if ltb 4 meta
    then none
    else get_elem? ("null" ∷ "ok" ∷ "not implemented" ∷ "error" ∷ "undef" ∷ []) meta

abbrev name_map : List (String × SunsType)
name_map =
    ("null", SunsType.null)
    ∷ ("int16", int16)
    ∷ ("uint16", uint16)
    ∷ ("acc16", acc16)
    ∷ ("int32", int32)
    ∷ ("uint32", uint32)
    ∷ ("float32", float32)
    ∷ ("acc32", acc32)
    ∷ ("int64", int64)
    ∷ ("uint64", uint64)
    ∷ ("float64", float64)
    ∷ ("acc64", acc64)
    ∷ ("enum16", enum16)
    ∷ ("enum32", enum32)
    ∷ ("bitfield16", bitfield16)
    ∷ ("bitfield32", bitfield32)
    ∷ ("sunssf", sf)
    ∷ ("string", string)
    ∷ ("pad", pad)
    ∷ ("ipaddr", ipv4)
    ∷ ("ipv6addr", ipv6)
    ∷ ("undef", SunsType.undef)
    ∷ []

unfoldable pub search_name_map : List (String × SunsType) → String → SunsType
search_name_map [] name = SunsType.undef
search_name_map ((n, t) ∷ rest) name = if str_eq n name then t else search_name_map rest name

unfoldable pub suns_type_from_name : String → SunsType
unfolding search_name_map
suns_type_from_name name = search_name_map name_map name

-- Bytes, in the order of the enumeration.
abbrev sizes : List ℕ
sizes = 0 ∷ 2 ∷ 2 ∷ 2 ∷ 4 ∷ 4 ∷ 4 ∷ 4 ∷ 8 ∷ 8 ∷ 8 ∷ 8 ∷ 2 ∷ 4 ∷ 2 ∷ 4 ∷ 2 ∷ 0 ∷ 2 ∷ 4 ∷ 8 ∷ 0 ∷ []

unfoldable pub suns_type_size : SunsType → ℕ
unfolding enum
suns_type_size type = get_or 0 sizes (enum type)

unfoldable pub suns_type_is_numeric : SunsType → Bool
unfolding is_type
suns_type_is_numeric t =
    is_type t int16
    || is_type t uint16
    || is_type t acc16
    || is_type t int32
    || is_type t float32
    || is_type t acc32
    || is_type t int64
    || is_type t uint64
    || is_type t float64
    || is_type t acc64

unfoldable pub suns_type_is_symbolic : SunsType → Bool
unfolding is_type
suns_type_is_symbolic t =
    is_type t enum16 || is_type t enum32 || is_type t bitfield16 || is_type t bitfield32
