-- ===== src/Wire/Strings.antt =====
-- Strings on the wire: they are not terminated there, and are cut to the length of their type.
use sunspec.Prelude.{
  ◌≤◌, true, [], ◌∷◌, ◌++◌, ◌≡◌, refl, ap, sym, ◌∙◌, inl, inr, arith, length, take, drop, ok, ◌==◌,
  Bool-cases,
}
use sunspec.Prelude.Bytes.{Bytes, overwrite_lem}
use sunspec.Prelude.Copy.{c_string, strncpy-Copied, length-overwritten}
use sunspec.Prelude.Int.{pos}
use sunspec.Types.{SunsType, suns_type_size}
use sunspec.Value.{text, SunsValue, suns_value_raw_size}
use sunspec.Wire.{
  characters, kind, can_realloc, suns_value_to_buf, to_buf_as, copy_string, suns_buf_to_value,
  buf_to_value_as, read_payload,
}
use sunspec.Wire.Raw.{finish_value-ok}

take-c_string-append :
    (a rest : Bytes) → take (length a) (c_string (a ++ rest)) ≡ c_string (a ++ 0 ∷ [])
unfolding c_string
take-c_string-append [] rest = refl
take-c_string-append (b ∷ a) rest = elim (Bool-cases (b == 0)) [
  | inl p ↦ rw p
  | inr p ↦ rw p (ap (◌∷◌ b) (take-c_string-append a rest))
]

-- A string value whose object has at least the length of its type, written and read back, is the
-- same C string, cut to that length.
pub string-c_string :
    (s buf : Bytes) (v w : SunsValue)
    → v.tp.type ≡ SunsType.string
    → v.value ≡ text s
    → v.tp.len ≤ length s
    → v.tp.len ≤ length buf
    → length w.raw ≡ suns_value_raw_size
    → can_realloc w.value ≡ true
    → (out t : Bytes) × (u : SunsValue) × (suns_value_to_buf v buf ≡ ok (pos 0, out))
      × (suns_buf_to_value out v.tp w ≡ ok (pos 0, u))
      × (u.value ≡ text t)
      × (c_string t ≡ take v.tp.len (c_string s))
unfolding suns_value_to_buf to_buf_as kind copy_string suns_buf_to_value buf_to_value_as
    read_payload suns_type_size
string-c_string s buf v w is_string holds long room full pointer =
    let n = v.tp.len in
    let chars : kind v.tp.type ≡ characters = rw is_string refl in
    let (a, sent) = strncpy-Copied s n long in
    let out = a ++ drop (length a) buf in
    let fits : length a ≤ length buf = omega (arith, sent.length_is) in
    let same : length out ≡ length buf = length-overwritten buf a fits in
    let (b, read) = strncpy-Copied out n (omega arith) in
    let empty : suns_type_size v.tp.type ≡ 0 = rw is_string refl in
    let (u, made, is) = finish_value-ok (text (b ++ 0 ∷ [])) out v.tp w full (omega arith) in
    (
      out,
      b ++ 0 ∷ [],
      u,
      rw (chars, holds, sent.result, overwrite_lem buf a fits),
      rw (chars, pointer, read.result) made,
      is.payload,
      read.holds []
          ∙ ap (λ k. take k (c_string out)) (sym sent.length_is)
          ∙ take-c_string-append a (drop (length a) buf)
          ∙ sent.holds [],
    )
