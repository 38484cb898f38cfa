-- ===== src/Value.antt =====
-- Data points' values: `suns_type_pair_t`, `suns_value_t` and its accessors in src/suns_model.h
-- and src/suns_model.c. The union `value` is a number of 64 bits on a little-endian host, where
-- its 16- and 32-bit members are the low bits, or it is the pointer `s` with the object that it
-- points to. A pointer that a number overwrites is not kept. Fields that only the output reads
-- are left out.
pub mod Access
pub mod Set
use sunspec.Prelude.{
  ℕ, ◌+◌, ◌-◌, ◌*◌, ◌/◌, ◌%◌, ◌^◌, String, Bool, true, false, not, ◌&&◌, ◌||◌, Option, none, some,
  List, [], ◌∷◌, ◌++◌, ltb, ◌==◌, if◌then◌else◌, take, replicate,
}
use sunspec.Prelude.Bytes.{Bytes, codes, print_nat}
use sunspec.Prelude.Int.{ℤ, pos, negsuc, signed16}
use sunspec.Types.{SunsType, Meta, not_implemented, is_type}

-- A symbol of an enumeration or of a bit field, and a block of them.
pub record Define : Type 0 where
  pub name : String
  pub value : ℕ

pub record DefineBlock : Type 0 where
  pub name : String
  pub list : List Define

-- `name` holds the name of a scale factor or of a define block.
pub record TypePair : Type 0 where
  pub type : SunsType
  pub name : Option String
  pub len : ℕ
  pub sf : ℤ
  pub define : Option DefineBlock

pub data Payload : Type 0 where
  word : ℕ → Payload
  text : Bytes → Payload

-- `name_with_index` is null, the pointer `name` itself, or a string of its own.
pub data NameWithIndex : Type 0 where
  unset same : NameWithIndex
  own : Bytes → NameWithIndex

pub record SunsValue : Type 0 where
  pub name : Option String
  pub name_with_index : NameWithIndex
  pub tp : TypePair
  pub meta : Meta
  pub value : Payload
  pub raw : Bytes
  pub raw_len : ℕ
  pub index : ℕ
  pub repeating : Bool
  pub units : Option String
  pub label : Option String

abbrev pub suns_value_raw_size : ℕ
suns_value_raw_size = 8

-- `memset(tp, 0, sizeof(suns_type_pair_t))`
abbrev pub suns_type_pair_new : TypePair
suns_type_pair_new = record {
  type = SunsType.null;
  name = none;
  len = 0;
  sf = pos 0;
  define = none;
}

-- A value of zero bytes; `suns_value_init` and `suns_value_new` give the same.
abbrev pub suns_value_set_null : SunsValue
suns_value_set_null = record {
  name = none;
  name_with_index = unset;
  tp = suns_type_pair_new;
  meta = Meta.null;
  value = word 0;
  raw = replicate suns_value_raw_size 0;
  raw_len = 0;
  index = 0;
  repeating = false;
  units = none;
  label = none;
}

-- The number that the union holds, and its members.
abbrev pub bits : Payload → ℕ
bits (word w) = w
bits (text s) = 0

abbrev pub u16 : Payload → ℕ
u16 p = bits p % 2 ^ 16

abbrev pub u32 : Payload → ℕ
u32 p = bits p % 2 ^ 32

abbrev pub u64 : Payload → ℕ
u64 p = bits p % 2 ^ 64

-- `value.u16 = x`, `value.u32 = x`, `value.u64 = x`
abbrev pub put_u16 : Payload → ℕ → Payload
put_u16 p x = word (bits p / 2 ^ 16 * 2 ^ 16 + x % 2 ^ 16)

abbrev pub put_u32 : Payload → ℕ → Payload
put_u32 p x = word (bits p / 2 ^ 32 * 2 ^ 32 + x % 2 ^ 32)

abbrev pub put_u64 : Payload → ℕ → Payload
put_u64 p x = word (x % 2 ^ 64)

-- `isnan` on the IEEE 754 formats.
unfoldable pub isnan32 : ℕ → Bool
isnan32 w = w / 2 ^ 23 % 2 ^ 8 == 0xFF && not (w % 2 ^ 23 == 0)

unfoldable pub isnan64 : ℕ → Bool
isnan64 w = w / 2 ^ 52 % 2 ^ 11 == 0x7FF && not (w % 2 ^ 52 == 0)

abbrev pub unless : Bool → Meta
unless b = if b then not_implemented else Meta.ok

-- The scale factor is the member `i16`.
unfoldable pub suns_value_get_sunssf : SunsValue → ℤ
suns_value_get_sunssf v = signed16 (u16 v.value)

-- `meta` and the result are the same value.
unfoldable pub suns_check_not_implemented : TypePair → SunsValue → Meta
unfolding is_type isnan32 isnan64
suns_check_not_implemented tp v = unless (
    is_type tp.type SunsType.int16 && u16 v.value == 0x8000
    || is_type tp.type SunsType.uint16 && u16 v.value == 0xFFFF
    || is_type tp.type SunsType.enum16 && u16 v.value == 0xFFFF
    || is_type tp.type SunsType.sf && u16 v.value == 0x8000
    || is_type tp.type SunsType.bitfield16 && u16 v.value == 0xFFFF
    || is_type tp.type SunsType.int32 && u32 v.value == 0x8000_0000
    || is_type tp.type SunsType.uint32 && u32 v.value == 0xFFFF_FFFF
    || is_type tp.type SunsType.enum32 && u32 v.value == 0xFFFF_FFFF
    || is_type tp.type SunsType.bitfield32 && u32 v.value == 0xFFFF_FFFF
    || is_type tp.type SunsType.int64 && u64 v.value == 0x8000_0000_0000_0000
    || is_type tp.type SunsType.uint64 && u64 v.value == 0xFFFF_FFFF_FFFF_FFFF
    || is_type tp.type SunsType.float32 && isnan32 (u32 v.value)
    || is_type tp.type SunsType.float64 && isnan64 (u64 v.value)
    || is_type tp.type SunsType.ipv4 && u32 v.value == 0)

unfoldable pub suns_value_is_acc : SunsValue → Bool
unfolding is_type
suns_value_is_acc v =
    is_type v.tp.type SunsType.acc16
    || is_type v.tp.type SunsType.acc32
    || is_type v.tp.type SunsType.acc64

abbrev acc_is_zero : SunsType → Payload → Bool
acc_is_zero SunsType.acc16 p = u16 p == 0
acc_is_zero SunsType.acc32 p = u32 p == 0
acc_is_zero SunsType.acc64 p = u64 p == 0
acc_is_zero _ p = false

unfoldable pub suns_value_acc_is_zero : SunsValue → Bool
suns_value_acc_is_zero v = acc_is_zero v.tp.type v.value

-- `"%s,%02d"`, cut to the buffer of 128 bytes.
abbrev pub buffer_size : ℕ
buffer_size = 128

abbrev two_digits : ℕ → Bytes
two_digits n = if ltb n 10 then b'0' ∷ print_nat n else print_nat n

unfoldable pub suns_value_set_name : SunsValue → String → SunsValue
suns_value_set_name v name = record v {
  name = some name;
  name_with_index =
      if v.repeating
      then own (take (buffer_size - 1) (codes name ++ b',' ∷ two_digits v.index))
      else same;
}

abbrev rename : SunsValue → Option String → SunsValue
rename v none = v
rename v (some name) = suns_value_set_name v name

unfoldable pub suns_value_set_index : SunsValue → ℕ → SunsValue
unfolding suns_value_set_name
suns_value_set_index v index = let v' = record v { index = index } in rename v' v'.name
