-- ===== src/Decode/Block.antt =====
-- One pass over the points of a block reads each point at its place, and never past the length.
use sunspec.Prelude.{
  ℕ, ◌+◌, ◌≤◌, ◌<◌, Bool, false, some, List, [], ◌∷◌, ◌≡◌, refl, sym, ◌∙◌, ap, ◌⊎◌, inl, inr, arith,
  leb, leb→le, Bool-cases, length, drop, length-drop, ok,
}
use sunspec.Prelude.Bytes.{Bytes}
use sunspec.Prelude.Int.{ℤ}
use sunspec.Value.{
  word, TypePair, SunsValue, suns_check_not_implemented, suns_value_set_null, suns_value_set_name,
  suns_value_set_index,
}
use sunspec.Wire.{kind, unsupported, read_payload, suns_type_pair_size}
use sunspec.Wire.Decoded.{Decoded, refused, decoded, Ready, suns_buf_to_value-Decoded}
use sunspec.Model.{Dp, suns_find_attribute}
use sunspec.Decode.{Decoding, decode_value, decode_dps, stop_at, add_value}

-- `v` is the point `dp` read from the start of `buf`: its name, its place in a repetition, and
-- (unless the type has no representation) its type, its number or string, and its meta value.
pub record Reads (index : ℕ) (buf : Bytes) (dp : Dp) (v : SunsValue) : Type 0 where
  pub name_is : v.name ≡ some dp.name
  pub index_is : v.index ≡ index
  pub content :
      (kind dp.type_pair.type ≡ unsupported)
      ⊎ ((v.tp ≡ dp.type_pair)
          × (read_payload (kind dp.type_pair.type) buf dp.type_pair.len (word 0) ≡ ok v.value)
          × (v.meta ≡ suns_check_not_implemented dp.type_pair v))

check-value :
    (tp : TypePair) (a b : SunsValue)
    → a.value ≡ b.value
    → suns_check_not_implemented tp a ≡ suns_check_not_implemented tp b
unfolding suns_check_not_implemented
check-value tp a b h = rw h

abbrev named : Bool → ℕ → Dp → SunsValue
named repeating index dp =
    suns_value_set_index
      (suns_value_set_name (record suns_value_set_null { repeating = repeating }) dp.name) index

abbrev labelled : Dp → SunsValue → SunsValue
labelled dp read = record read {
  units = suns_find_attribute dp "u";
  label = suns_find_attribute dp "label";
}

named-Ready :
    (repeating : Bool) (index : ℕ) (buf : Bytes) (dp : Dp)
    → suns_type_pair_size dp.type_pair ≤ length buf
    → Ready buf dp.type_pair (named repeating index dp)
unfolding suns_value_set_index
named-Ready repeating index buf dp h = record { room = h; raw_size = refl; pointer = refl }

Decoded-Reads :
    (repeating : Bool) (index : ℕ) (buf : Bytes) (dp : Dp) {r : ℤ × SunsValue}
    → Decoded buf dp.type_pair (named repeating index dp) r
    → Reads index buf dp (labelled dp r.1)
unfolding suns_value_set_index
Decoded-Reads repeating index buf dp (refused u) = record {
  name_is = refl;
  index_is = refl;
  content = inl u;
}
Decoded-Reads repeating index buf dp (decoded {u} p read is) = record {
  name_is = is.name_is;
  index_is = is.index_is;
  content = inr (
    is.type_pair,
    read ∙ ap ok (sym is.payload),
    is.meta_is ∙ check-value dp.type_pair _ (labelled dp u) (sym is.payload),
  );
}

decode_value-Reads :
    (repeating : Bool) (index : ℕ) (buf : Bytes) (dp : Dp)
    → suns_type_pair_size dp.type_pair ≤ length buf
    → (v : SunsValue) × (decode_value repeating index buf dp ≡ ok v) × Reads index buf dp v
unfolding decode_value
decode_value-Reads repeating index buf dp h =
    let (r, e, d) =
      suns_buf_to_value-Decoded buf dp.type_pair (named repeating index dp)
        (named-Ready repeating index buf dp h) in
    (labelled dp r.1, rw e, Decoded-Reads repeating index buf dp d)

-- The pass over `dps` from `offset`: each point in turn is read from its own bytes while it ends
-- within `len`, and the pass stops at the first that does not.
pub data Pass (index : ℕ) (buf : Bytes) (len : ℕ) : ℕ → List Dp → Decoding → Type 0 where
  end :
      {offset : ℕ} {d : Decoding}
      → d ≡ record { stopped = false; offset = offset; values = []; notices = [] }
      → Pass index buf len offset [] d
  read :
      {offset : ℕ} {dp : Dp} {dps : List Dp} {v : SunsValue} {d : Decoding}
      → offset + suns_type_pair_size dp.type_pair ≤ len
      → Reads index (drop offset buf) dp v
      → Pass index buf len (offset + suns_type_pair_size dp.type_pair) dps d
      → Pass index buf len offset (dp ∷ dps) (add_value v d)
  short :
      {offset : ℕ} {dp : Dp} {dps : List Dp}
      → len < offset + suns_type_pair_size dp.type_pair
      → Pass index buf len offset (dp ∷ dps) (stop_at offset dp)

module _ (repeating : Bool) (index : ℕ) (buf : Bytes) (len : ℕ) (inside : len ≤ length buf) where
  -- With a length that the buffer holds, one pass over the points of a block has no fault: each
  -- point is read from its own bytes, behind those of the points before it, as long as it ends
  -- within the length, and the pass stops at the first point that does not.
  pub decode_dps-Pass :
      (dps : List Dp) (offset : ℕ)
      → (d : Decoding) × (decode_dps repeating index buf len dps offset ≡ ok d)
        × Pass index buf len offset dps d
  unfolding decode_dps
  decode_dps-Pass [] offset = (_, refl, end refl)
  decode_dps-Pass (dp ∷ dps) offset =
      let size = suns_type_pair_size dp.type_pair in
      elim (Bool-cases (leb (offset + size) len)) [
        | inl fits ↦
            let le = leb→le (offset + size) len fits in
            let (v, e, r) =
              decode_value-Reads repeating index (drop offset buf) dp
                (omega (arith, length-drop offset buf)) in
            let (d, f, p) = decode_dps-Pass dps (offset + size) in
            (add_value v d, rw (fits, e, f), read le r p)
        | inr over ↦ (stop_at offset dp, rw over, short (ground arith))
      ]
