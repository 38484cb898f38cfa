-- ===== src/Wire.antt =====
-- Values to and from bytes in network order: `suns_value_to_buf`, `suns_buf_to_value` and
-- `suns_type_pair_size` of src/suns_model.c. A buffer is the object from the pointer on; the
-- argument `len` of `suns_value_to_buf` only selects messages, so it is not modelled. `realloc`
-- is taken to succeed.
pub mod Decoded
pub mod Raw
pub mod RoundTrip
pub mod Sentinel
pub mod Strings
pub mod ToBuffer
use sunspec.Prelude.{
  ℕ, zero, suc, ◌+◌, Bool, true, ◌==◌, List, [], ◌∷◌, ◌++◌, min, Run, ok, fault, ◌>>=◌,
  if◌then◌else◌, take,
}
use sunspec.Prelude.Bytes.{Bytes, overwrite, strncpy, be16, be32, be64, get16, get32, get64}
use sunspec.Prelude.Int.{ℤ, pos, negsuc}
use sunspec.Types.{SunsType, is_type, suns_type_size}
use sunspec.Value.{
  TypePair, Payload, word, text, SunsValue, u16, u32, u64, put_u16, put_u32, put_u64,
  suns_check_not_implemented,
}

-- Strings have the length of the type pair.
unfoldable pub suns_type_pair_size : TypePair → ℕ
unfolding is_type
suns_type_pair_size tp = if is_type tp.type SunsType.string then tp.len else suns_type_size tp.type

-- The width of a number on the wire, and the kinds of the two `switch` statements.
pub data Kind : Type 0 where
  half single double : Kind
  address characters padding unsupported : Kind

unfoldable pub kind : SunsType → Kind
kind SunsType.int16 = half
kind SunsType.uint16 = half
kind SunsType.acc16 = half
kind SunsType.enum16 = half
kind SunsType.bitfield16 = half
kind SunsType.sf = half
kind SunsType.int32 = single
kind SunsType.uint32 = single
kind SunsType.float32 = single
kind SunsType.acc32 = single
kind SunsType.enum32 = single
kind SunsType.bitfield32 = single
kind SunsType.ipv4 = single
kind SunsType.int64 = double
kind SunsType.uint64 = double
kind SunsType.float64 = double
kind SunsType.acc64 = double
kind SunsType.ipv6 = address
kind SunsType.string = characters
kind SunsType.pad = padding
kind SunsType.null = unsupported
kind SunsType.undef = unsupported

-- A number is no pointer to read from.
unfoldable pub copy_string : Payload → ℕ → Run Bytes
copy_string (text s) len = strncpy s len
copy_string (word w) len = fault

unfoldable pub to_buf_as : Kind → SunsValue → Bytes → Run (ℤ × Bytes)
unfolding copy_string
to_buf_as half v buf = do out ← overwrite buf (be16 (u16 v.value)); ok (pos 0, out)
to_buf_as single v buf = do out ← overwrite buf (be32 (u32 v.value)); ok (pos 0, out)
to_buf_as double v buf = do out ← overwrite buf (be64 (u64 v.value)); ok (pos 0, out)
to_buf_as address v buf = ok (pos 0, buf)
to_buf_as characters v buf = do
  s ← copy_string v.value v.tp.len
  out ← overwrite buf s
  ok (pos 0, out)
to_buf_as padding v buf = do out ← overwrite buf (0xFF ∷ 0xFF ∷ []); ok (pos 0, out)
to_buf_as unsupported v buf = ok (negsuc 1, buf)

-- The result code, and the buffer after the call.
unfoldable pub suns_value_to_buf : SunsValue → Bytes → Run (ℤ × Bytes)
unfolding to_buf_as kind
suns_value_to_buf v buf = to_buf_as (kind v.tp.type) v buf

-- `realloc` takes a pointer that it gave out before, or a null pointer.
abbrev pub can_realloc : Payload → Bool
can_realloc (text s) = true
can_realloc (word w) = w == 0

-- The union after the `switch`; the caller treats `unsupported` apart.
unfoldable pub read_payload : Kind → Bytes → ℕ → Payload → Run Payload
read_payload half buf len p = do x ← get16 buf; ok (put_u16 p x)
read_payload single buf len p = do x ← get32 buf; ok (put_u32 p x)
read_payload double buf len p = do x ← get64 buf; ok (put_u64 p x)
read_payload address buf len p = ok p
read_payload characters buf len p =
    if can_realloc p then (do s ← strncpy buf len; ok (text (s ++ 0 ∷ []))) else fault
read_payload padding buf len p = ok p
read_payload unsupported buf len p = ok p

-- `memcpy(v->raw, buf, raw_len)`
unfoldable pub stash_raw : Bytes → Bytes → ℕ → Run Bytes
stash_raw raw buf zero = ok raw
stash_raw [] buf (suc n) = fault
stash_raw (r ∷ raw) [] (suc n) = fault
stash_raw (r ∷ raw) (b ∷ buf) (suc n) = do rest ← stash_raw raw buf n; ok (b ∷ rest)

unfoldable pub finish_value : Payload → Bytes → TypePair → SunsValue → Run (ℤ × SunsValue)
finish_value p buf tp v =
    let read = record v { value = p } in
    let raw_len = min 16 (suns_type_size tp.type) in
    do
      raw ← stash_raw v.raw buf raw_len
      ok (
        pos 0,
        record read {
          meta = suns_check_not_implemented tp read;
          tp = tp;
          raw_len = raw_len;
          raw = raw;
        },
      )

unfoldable pub buf_to_value_as : Kind → Bytes → TypePair → SunsValue → Run (ℤ × SunsValue)
buf_to_value_as unsupported buf tp v = ok (negsuc 1, v)
buf_to_value_as k buf tp v = do p ← read_payload k buf tp.len v.value; finish_value p buf tp v

-- The result code, and the value after the call.
unfoldable pub suns_buf_to_value : Bytes → TypePair → SunsValue → Run (ℤ × SunsValue)
unfolding buf_to_value_as kind
suns_buf_to_value buf tp v = buf_to_value_as (kind tp.type) buf tp v
