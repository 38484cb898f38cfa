-- ===== src/Decode.antt =====
-- Decoding of a model's registers: `suns_decode_dp_block`, `suns_decode_data` and
-- `suns_resolve_scale_factors` of src/suns_model.c. Lengths and offsets are in bytes. The
-- messages about lengths are values (`Notice`); those about scale factors and `debug` messages are
-- not modelled.
pub mod Block
pub mod Rounds
pub mod Data
pub mod Scale
pub mod Named
use sunspec.Prelude.{
  ℕ, zero, suc, ◌+◌, ◌-◌, ◌*◌, ◌/◌, ◌%◌, ◌^◌, String, str_eq, Bool, true, false, not, ◌&&◌, Option,
  none, some, List, [], ◌∷◌, ◌++◌, leb, ltb, ◌==◌, if◌then◌else◌, drop, Run, ok, fault, ◌>>=◌,
}
use sunspec.Prelude.Bytes.{Bytes, get16}
use sunspec.Prelude.Int.{ℤ, pos, negsuc}
use sunspec.Types.{SunsType, Meta, not_implemented, is_type, suns_type_is_numeric, enum_meta}
use sunspec.Value.{
  TypePair, SunsValue, suns_value_set_null, suns_value_set_name, suns_value_set_index,
  suns_value_get_sunssf, suns_value_acc_is_zero,
}
use sunspec.Wire.{suns_buf_to_value, suns_type_pair_size}
use sunspec.Model.{
  Dp, DpBlock, SunsModel, ModelDid, suns_find_attribute, suns_find_did, suns_model_last_dp,
}

pub data Notice : Type 0 where
  unknown_did : ℕ → Notice
  partial_repeat no_trailing_pad device_short device_long overrun : Notice
  exceeds_data : String → Notice

-- What a loop of the decoder leaves: the byte offset, the values it appended and its messages.
pub record Decoding : Type 0 where
  pub stopped : Bool
  pub offset : ℕ
  pub values : List SunsValue
  pub notices : List Notice

-- `v->name_with_index` is kept by the accessors, the attributes are set behind the decoding, and
-- the result code of `suns_buf_to_value` is not looked at.
unfoldable pub decode_value : Bool → ℕ → Bytes → Dp → Run SunsValue
decode_value repeating index buf dp =
    let v = record suns_value_set_null { repeating = repeating } in
    let named = suns_value_set_index (suns_value_set_name v dp.name) index in
    do
      (rc, read) ← suns_buf_to_value buf dp.type_pair named
      ok (record read {
        units = suns_find_attribute dp "u";
        label = suns_find_attribute dp "label";
      })

abbrev stop_at : ℕ → Dp → Decoding
stop_at offset dp = record {
  stopped = true;
  offset = offset;
  values = [];
  notices = if is_type dp.type_pair.type SunsType.pad then [] else exceeds_data dp.name ∷ [];
}

abbrev add_value : SunsValue → Decoding → Decoding
add_value v rest = record rest { values = v ∷ rest.values }

-- One round of the inner loop; `stopped` is the early return.
unfoldable pub decode_dps : Bool → ℕ → Bytes → ℕ → List Dp → ℕ → Run Decoding
unfolding decode_value
decode_dps repeating index buf len [] offset =
    ok (record { stopped = false; offset = offset; values = []; notices = [] })
decode_dps repeating index buf len (dp ∷ dps) offset =
    let size = suns_type_pair_size dp.type_pair in
    if leb (offset + size) len
    then (do
      v ← decode_value repeating index (drop offset buf) dp
      rest ← decode_dps repeating index buf len dps (offset + size)
      ok (add_value v rest))
    else ok (stop_at offset dp)

abbrev join : Decoding → Decoding → Decoding
join first rest = record rest {
  values = first.values ++ rest.values;
  notices = first.notices ++ rest.notices;
}

-- The outer loop, over the rounds that are left.
unfoldable pub decode_rounds : ℕ → Bool → ℕ → Bytes → ℕ → List Dp → ℕ → Run Decoding
unfolding decode_dps
decode_rounds zero repeating index buf len dps offset =
    ok (record { stopped = false; offset = offset; values = []; notices = [] })
decode_rounds (suc n) repeating index buf len dps offset = do
  first ← decode_dps repeating index buf len dps offset
  let later = decode_rounds n repeating (index + 1) buf len dps first.offset
  if first.stopped then ok first else (do rest ← later; ok (join first rest))

-- `len / dp_block->len / 2`, which an `int` holds for the at most 131,070 bytes of a model; a
-- repeating block of length 0 divides by zero.
unfoldable pub len_multiple : DpBlock → ℕ → Run ℕ
len_multiple block len =
    if block.repeating then (if block.len == 0 then fault else ok (len / block.len / 2)) else ok 1

unfoldable pub suns_decode_dp_block : DpBlock → Bytes → ℕ → Run Decoding
suns_decode_dp_block block buf len = do
  rounds ← len_multiple block len
  decode_rounds rounds block.repeating 1 buf len block.dp_list 0

-- `(did_len * 2) - byte_offset` as a `size_t`
unfoldable pub bytes_left : (did_len offset : ℕ) → ℕ
bytes_left did_len offset =
    if leb offset (did_len * 2) then did_len * 2 - offset else 2 ^ 64 + did_len * 2 - offset

-- The loop over the blocks; `stopped` is the return on an overrun.
unfoldable pub decode_blocks : Bytes → ℕ → List DpBlock → ℕ → Run Decoding
decode_blocks buf did_len [] offset =
    ok (record { stopped = false; offset = offset; values = []; notices = [] })
decode_blocks buf did_len (block ∷ blocks) offset = do
  first ← suns_decode_dp_block block (drop (offset + 4) buf) (bytes_left did_len offset)
  let offset' = offset + first.offset
  let later = decode_blocks buf did_len blocks offset'
  let here = record first {
    stopped = true;
    offset = offset';
    notices = first.notices ++ overrun ∷ [];
  }
  if leb (did_len * 2 + 4) offset' then ok here else (do rest ← later; ok (join first rest))

-- |a - b|: a remainder of signed numbers is 0 exactly when that of their magnitudes is.
unfoldable pub distance : ℕ → ℕ → ℕ
distance a b = if leb a b then b - a else a - b

abbrev length_notice : SunsModel → ℕ → Dp → Notice
length_notice m did_len last =
    if did_len + 1 == m.len && is_type last.type_pair.type SunsType.pad
    then no_trailing_pad
    else if ltb did_len m.len
    then device_short
    else device_long

-- The messages about the length that the device gives.
unfoldable pub check_length : SunsModel → ℕ → Run (List Notice)
unfolding distance
check_length m did_len =
    if not (m.base_len == m.len)
    then (if distance did_len m.base_len % distance m.len m.base_len == 0
        then ok []
        else ok (partial_repeat ∷ []))
    else if m.len == did_len
    then ok []
    else (do last ← suns_model_last_dp m; ok (length_notice m did_len last ∷ []))

-- `strcmp` on a value's name. Every value that the decoder lists has one.
abbrev pub same_name : String → Option String → Bool
same_name name (some n) = str_eq name n
same_name name none = false

unfoldable pub suns_search_value_list : List SunsValue → String → Option SunsValue
suns_search_value_list [] name = none
suns_search_value_list (v ∷ vs) name =
    if same_name name v.name then some v else suns_search_value_list vs name

unfoldable pub is_not_implemented : Meta → Bool
unfolding enum_meta
is_not_implemented m = enum_meta m == enum_meta not_implemented

abbrev pub with_sf : ℤ → SunsValue → SunsValue
with_sf sf v = record v { tp = record v.tp { sf = sf } }

-- The value with its scale factor, or `none` when the model refers to another type.
abbrev pub apply_sf : SunsValue → Option SunsValue → Option SunsValue
apply_sf v none = some v
apply_sf v (some found) =
    if not (is_type found.tp.type SunsType.sf)
    then none
    else if is_not_implemented found.meta
    then some (with_sf (pos 0) v)
    else some (with_sf (suns_value_get_sunssf found) v)

abbrev pub refer : List SunsValue → SunsValue → Option String → Option SunsValue
refer all v none = some v
refer all v (some name) = apply_sf v (suns_search_value_list all name)

unfoldable pub resolve_value : List SunsValue → SunsValue → Option SunsValue
resolve_value all v = if suns_type_is_numeric v.tp.type then refer all v v.tp.name else some v

-- The loop writes only `tp.sf`, which neither the search nor the tests read: each value looks
-- through the list as it was at the start. `v` and what follows it are kept when the loop ends.
unfoldable pub resolve_values : List SunsValue → List SunsValue → List SunsValue × ℤ
resolve_values all [] = ([], pos 0)
resolve_values all (v ∷ vs) =
    let (rest, rc) = resolve_values all vs in
    elim (resolve_value all v) [ none ↦ (v ∷ vs, negsuc 0) | some v' ↦ (v' ∷ rest, rc) ]

-- The values, and the result code.
unfoldable pub suns_resolve_scale_factors : List SunsValue → List SunsValue × ℤ
suns_resolve_scale_factors values = resolve_values values values

pub record Dataset : Type 0 where
  pub did : ModelDid
  pub values : List SunsValue
  pub index : ℕ

-- The dataset, or null for an unknown number, and the messages.
abbrev decode_known : Bytes → ℕ → ModelDid → Run (Option Dataset × List Notice)
decode_known buf did_len did = do
  about ← check_length did.model did_len
  done ← decode_blocks buf did_len did.model.dp_blocks 0
  ok (
    some (record {
      did = did;
      values = if done.stopped then done.values else (suns_resolve_scale_factors done.values).0;
      index = 0;
    }),
    about ++ done.notices,
  )

abbrev decode_found :
    Bytes → (did did_len : ℕ) → Option ModelDid → Run (Option Dataset × List Notice)
decode_found buf did_value did_len none = ok (none, unknown_did did_value ∷ [])
decode_found buf did_value did_len (some did) = decode_known buf did_len did

-- The argument `len` of the source is not read there.
unfoldable pub suns_decode_data : List ModelDid → Bytes → Run (Option Dataset × List Notice)
suns_decode_data did_list buf = do
  did_value ← get16 buf
  did_len ← get16 (drop 2 buf)
  decode_found buf did_value did_len (suns_find_did did_list did_value)
