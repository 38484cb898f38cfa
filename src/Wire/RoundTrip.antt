-- ===== src/Wire/RoundTrip.antt =====
-- Numbers written by `suns_value_to_buf` are read back by `suns_buf_to_value`.
use sunspec.Prelude.{
  ℕ, ◌*◌, ◌%◌, ◌^◌, ◌≤◌, Bool, true, false, [], ◌++◌, ◌≡◌, refl, ap, ◌∙◌, arith, length, drop, ok,
  ◌>>=◌, length-append, length-drop, drop-append,
}
use sunspec.Prelude.Bytes.{
  Bytes, overwrite_lem, be16, be32, be64, get16-be16, get32-be32, get64-be64,
}
use sunspec.Prelude.Int.{pos}
use sunspec.Types.{SunsType, suns_type_size}
use sunspec.Value.{TypePair, Payload, bits, SunsValue, u16, u32, u64, put_u16, put_u32, put_u64}
use sunspec.Wire.{
  Kind, half, single, double, kind, suns_value_to_buf, to_buf_as, suns_buf_to_value,
  buf_to_value_as, read_payload, finish_value,
}
use sunspec.Wire.Raw.{finish_value-ok}

-- The types whose value is one number of 16, 32 or 64 bits.
unfoldable pub is_number : Kind → Bool
is_number half = true
is_number single = true
is_number double = true
is_number _ = false

-- The number that a value of a type holds.
abbrev pub member : SunsType → Payload → ℕ
member t p = bits p % 2 ^ (8 * suns_type_size t)

abbrev pub wire : Kind → Payload → Bytes
wire half p = be16 (u16 p)
wire single p = be32 (u32 p)
wire double p = be64 (u64 p)
wire _ p = []

abbrev pub width : Kind → ℕ
width half = 2
width single = 4
width double = 8
width _ = 0

abbrev put : Kind → Payload → Payload → Payload
put half q p = put_u16 q (u16 p)
put single q p = put_u32 q (u32 p)
put double q p = put_u64 q (u64 p)
put _ q p = q

pub size-width : (t : SunsType) → is_number (kind t) ≡ true → suns_type_size t ≡ width (kind t)
unfolding is_number kind suns_type_size
size-width SunsType.int16 h = refl
size-width _ h = ground arith

member-put :
    (k : Kind) (q p : Payload)
    → is_number k ≡ true
    → bits (put k q p) % 2 ^ (8 * width k) ≡ bits p % 2 ^ (8 * width k)
unfolding is_number
member-put half q p h = omega arith
member-put single q p h = omega arith
member-put double q p h = omega arith
member-put _ q p h = cc

pub to_buf_as-wire :
    (k : Kind) (v : SunsValue) (buf : Bytes)
    → is_number k ≡ true
    → width k ≤ length buf
    → (to_buf_as k v buf ≡ ok (pos 0, wire k v.value ++ drop (width k) buf))
      × (length (wire k v.value) ≡ width k)
unfolding to_buf_as is_number
to_buf_as-wire half v buf h fits = (rw (overwrite_lem buf (be16 (u16 v.value)) fits), refl)
to_buf_as-wire single v buf h fits = (rw (overwrite_lem buf (be32 (u32 v.value)) fits), refl)
to_buf_as-wire double v buf h fits = (rw (overwrite_lem buf (be64 (u64 v.value)) fits), refl)
to_buf_as-wire _ v buf h fits = absurd (cc h)

pub length-wire : (k : Kind) (p : Payload) → is_number k ≡ true → length (wire k p) ≡ width k
unfolding is_number
length-wire half p h = refl
length-wire single p h = refl
length-wire double p h = refl
length-wire _ p h = absurd (cc h)

read_payload-wire :
    (k : Kind) (p q : Payload) (rest : Bytes) (len : ℕ)
    → is_number k ≡ true
    → read_payload k (wire k p ++ rest) len q ≡ ok (put k q p)
unfolding read_payload is_number
read_payload-wire half p q rest len h =
    rw (get16-be16 (u16 p) rest) (ap (λ x. ok (put_u16 q x)) (omega arith))
read_payload-wire single p q rest len h =
    rw (get32-be32 (u32 p) rest) (ap (λ x. ok (put_u32 q x)) (omega arith))
read_payload-wire double p q rest len h =
    rw (get64-be64 (u64 p) rest) (ap (λ x. ok (put_u64 q x)) (omega arith))
read_payload-wire _ p q rest len h = absurd (cc h)

buf_to_value_as-number :
    (k : Kind) (buf : Bytes) (tp : TypePair) (v : SunsValue)
    → is_number k ≡ true
    → buf_to_value_as k buf tp v
      ≡ (do p ← read_payload k buf tp.len v.value; finish_value p buf tp v)
unfolding buf_to_value_as is_number
buf_to_value_as-number half buf tp v h = refl
buf_to_value_as-number single buf tp v h = refl
buf_to_value_as-number double buf tp v h = refl
buf_to_value_as-number _ buf tp v h = absurd (cc h)

-- The bytes of a number are read as the number.
pub wire-read :
    (v w : SunsValue) (rest : Bytes)
    → is_number (kind v.tp.type) ≡ true
    → length w.raw ≡ 8
    → (u : SunsValue) × (suns_buf_to_value (wire (kind v.tp.type) v.value ++ rest) v.tp w
        ≡ ok (pos 0, u))
      × (u.tp ≡ v.tp)
      × (member v.tp.type u.value ≡ member v.tp.type v.value)
unfolding suns_buf_to_value
wire-read v w rest number full =
    let k = kind v.tp.type in
    let size = size-width v.tp.type number in
    let out = wire k v.value ++ rest in
    let long : width k ≤ length out =
      omega (arith, length-append (wire k v.value) rest, length-wire k v.value number) in
    let (u, made, is) = finish_value-ok (put k w.value v.value) out v.tp w full (omega arith) in
    (
      u,
      buf_to_value_as-number k out v.tp w number
          ∙ rw (read_payload-wire k v.value w.value rest v.tp.len number) made,
      is.type_pair,
      rw (is.payload, size) (member-put k w.value v.value number),
    )

-- A value of one number, written to a buffer with room for its type, is read back from the bytes
-- as the same number of the same type, whatever value is read into. Both calls return 0, and the
-- write keeps the buffer's size and every byte behind the number.
pub suns_buf_to_value-suns_value_to_buf :
    (v w : SunsValue) (buf : Bytes)
    → is_number (kind v.tp.type) ≡ true
    → suns_type_size v.tp.type ≤ length buf
    → length w.raw ≡ 8
    → (out : Bytes) × (u : SunsValue) × (suns_value_to_buf v buf ≡ ok (pos 0, out))
      × (suns_buf_to_value out v.tp w ≡ ok (pos 0, u))
      × (u.tp ≡ v.tp)
      × (member v.tp.type u.value ≡ member v.tp.type v.value)
      × (length out ≡ length buf)
      × (drop (suns_type_size v.tp.type) out ≡ drop (suns_type_size v.tp.type) buf)
unfolding suns_value_to_buf
suns_buf_to_value-suns_value_to_buf v w buf number fits full =
    let k = kind v.tp.type in
    let size = size-width v.tp.type number in
    let (sent, bytes) = to_buf_as-wire k v buf number (omega arith) in
    let rest : Bytes = drop (width k) buf in
    let same : length (wire k v.value ++ rest) ≡ length buf =
      omega (arith, length-append (wire k v.value) rest, length-drop (width k) buf) in
    let (u, got, type_is, member_is) = wire-read v w rest number full in
    (
      wire k v.value ++ rest,
      u,
      sent,
      got,
      type_is,
      member_is,
      same,
      rw (size, ← bytes) (drop-append (wire k v.value) (drop (length (wire k v.value)) buf)),
    )
