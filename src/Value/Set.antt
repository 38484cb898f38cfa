-- ===== src/Value/Set.antt =====
-- The accessors suns_value_set_* of src/suns_model.c.
use sunspec.Prelude.{
  ℕ, Bool, true, false, Option, none, some, ◌==◌, if◌then◌else◌, Run, ok, fault, ◌>>=◌,
}
use sunspec.Prelude.Bytes.{Bytes, overwrite, strncpy}
use sunspec.Types.{SunsType, Meta, is_type}
use sunspec.Value.{
  Payload, word, text, SunsValue, put_u16, put_u32, put_u64, unless, isnan32, isnan64,
}

-- The type, the number and the meta value that an accessor sets.
abbrev set_as : SunsType → Payload → Meta → SunsValue → SunsValue
set_as t p m v = record v { tp = record v.tp { type = t }; meta = m; value = p }

-- Each accessor stores a number of its type's width. The stored type of a value is not tested by
-- `get` accessors, whose assertions are compiled out, so they are the members `u16`, `u32`, `u64`.
unfoldable pub suns_value_set_uint16 : SunsValue → ℕ → SunsValue
suns_value_set_uint16 v x = set_as SunsType.uint16 (put_u16 v.value x) (unless (x == 0xFFFF)) v

unfoldable pub suns_value_set_int16 : SunsValue → ℕ → SunsValue
suns_value_set_int16 v x = set_as SunsType.int16 (put_u16 v.value x) (unless (x == 0x8000)) v

unfoldable pub suns_value_set_acc16 : SunsValue → ℕ → SunsValue
suns_value_set_acc16 v x = set_as SunsType.acc16 (put_u16 v.value x) Meta.ok v

unfoldable pub suns_value_set_uint32 : SunsValue → ℕ → SunsValue
suns_value_set_uint32 v x = set_as SunsType.uint32 (put_u32 v.value x) (unless (x == 0xFFFF_FFFF)) v

unfoldable pub suns_value_set_enum32 : SunsValue → ℕ → SunsValue
suns_value_set_enum32 v x = set_as SunsType.enum32 (put_u32 v.value x) (unless (x == 0xFFFF_FFFF)) v

unfoldable pub suns_value_set_int32 : SunsValue → ℕ → SunsValue
suns_value_set_int32 v x = set_as SunsType.int32 (put_u32 v.value x) (unless (x == 0x8000_0000)) v

unfoldable pub suns_value_set_acc32 : SunsValue → ℕ → SunsValue
suns_value_set_acc32 v x = set_as SunsType.acc32 (put_u32 v.value x) Meta.ok v

unfoldable pub suns_value_set_uint64 : SunsValue → ℕ → SunsValue
suns_value_set_uint64 v x =
    set_as SunsType.uint64 (put_u64 v.value x) (unless (x == 0xFFFF_FFFF_FFFF_FFFF)) v

unfoldable pub suns_value_set_int64 : SunsValue → ℕ → SunsValue
suns_value_set_int64 v x =
    set_as SunsType.int64 (put_u64 v.value x) (unless (x == 0x8000_0000_0000_0000)) v

unfoldable pub suns_value_set_acc64 : SunsValue → ℕ → SunsValue
suns_value_set_acc64 v x = set_as SunsType.acc64 (put_u64 v.value x) Meta.ok v

unfoldable pub suns_value_set_float32 : SunsValue → ℕ → SunsValue
suns_value_set_float32 v x = set_as SunsType.float32 (put_u32 v.value x) (unless (isnan32 x)) v

unfoldable pub suns_value_set_float64 : SunsValue → ℕ → SunsValue
suns_value_set_float64 v x = set_as SunsType.float64 (put_u64 v.value x) (unless (isnan64 x)) v

unfoldable pub suns_value_set_enum16 : SunsValue → ℕ → SunsValue
suns_value_set_enum16 v x = set_as SunsType.enum16 (put_u16 v.value x) Meta.ok v

unfoldable pub suns_value_set_bitfield16 : SunsValue → ℕ → SunsValue
suns_value_set_bitfield16 v x = set_as SunsType.bitfield16 (put_u16 v.value x) Meta.ok v

unfoldable pub suns_value_set_bitfield32 : SunsValue → ℕ → SunsValue
suns_value_set_bitfield32 v x = set_as SunsType.bitfield32 (put_u32 v.value x) Meta.ok v

unfoldable pub suns_value_set_sunssf : SunsValue → ℕ → SunsValue
suns_value_set_sunssf v x = set_as SunsType.sf (put_u16 v.value x) Meta.ok v

unfoldable pub suns_value_set_ipv4 : SunsValue → ℕ → SunsValue
suns_value_set_ipv4 v x = set_as SunsType.ipv4 (put_u32 v.value x) Meta.ok v

-- Space for a string of `len` bytes: `none` is a new object. The old object is used again if the
-- value was a string of that length; otherwise its pointer goes to `realloc`.
abbrev reuse : Bool → Payload → ℕ → ℕ → Run (Option Bytes)
reuse false p old_len len = ok none
reuse true (text s) old_len len = ok (if old_len == len then some s else none)
reuse true (word w) old_len len = if w == 0 then ok none else fault

abbrev place : Option Bytes → Bytes → Run Bytes
place none stored = ok stored
place (some old) stored = overwrite old stored

-- The object is cleared and then holds at most `len` bytes of `string`.
unfoldable pub suns_value_set_string : SunsValue → Bytes → ℕ → Run SunsValue
unfolding is_type
suns_value_set_string v string len = do
  object ← reuse (is_type v.tp.type SunsType.string) v.value v.tp.len len
  stored ← strncpy string len
  s ← place object stored
  ok (record v { tp = record v.tp { type = SunsType.string; len = len }; value = text s })
