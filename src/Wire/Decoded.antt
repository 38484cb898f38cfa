-- ===== src/Wire/Decoded.antt =====
-- `suns_buf_to_value` on every type: when it is defined, what it returns, and strings.
use sunspec.Prelude.{
  ℕ, ◌+◌, ◌*◌, ◌^◌, ◌≤◌, true, [], ◌∷◌, ◌++◌, ◌≡◌, refl, arith, length, drop, length-drop, ok,
  ◌>>=◌, if◌then◌else◌,
}
use sunspec.Prelude.Bytes.{Bytes, get16, get32, get64}
use sunspec.Prelude.Copy.{strncpy-Copied}
use sunspec.Prelude.Int.{ℤ, pos, negsuc}
use sunspec.Types.{SunsType, is_type, suns_type_size}
use sunspec.Value.{
  TypePair, Payload, text, SunsValue, put_u16, put_u32, put_u64, suns_value_raw_size,
}
use sunspec.Wire.{
  Kind, half, single, double, address, characters, padding, unsupported, kind, can_realloc,
  suns_buf_to_value, buf_to_value_as, read_payload, finish_value, suns_type_pair_size,
}
use sunspec.Wire.Raw.{finish_value-ok, Finished}

get16-ok : (buf : Bytes) → 2 ≤ length buf → (x : ℕ) × (get16 buf ≡ ok x)
unfolding get16
get16-ok [] h = absurd (omega arith)
get16-ok (a ∷ []) h = absurd (omega arith)
get16-ok (a ∷ b ∷ buf) h = (_, refl)

get32-ok : (buf : Bytes) → 4 ≤ length buf → (x : ℕ) × (get32 buf ≡ ok x)
unfolding get32
get32-ok (a ∷ b ∷ c ∷ d ∷ buf) h = (_, refl)
get32-ok [] h = absurd (omega arith)
get32-ok (a ∷ []) h = absurd (omega arith)
get32-ok (a ∷ b ∷ []) h = absurd (omega arith)
get32-ok (a ∷ b ∷ c ∷ []) h = absurd (omega arith)

get64-ok : (buf : Bytes) → 8 ≤ length buf → (x : ℕ) × (get64 buf ≡ ok x)
unfolding get64
get64-ok buf h =
    let (hi, e) = get32-ok buf (omega arith) in
    let (lo, f) = get32-ok (drop 4 buf) (omega (arith, length-drop 4 buf)) in
    (hi * 2 ^ 32 + lo, rw (e, f))

-- The bytes that reading a value of a type takes.
abbrev need : Kind → ℕ → ℕ
need half len = 2
need single len = 4
need double len = 8
need characters len = len
need _ len = 0

read_payload-ok :
    (k : Kind) (buf : Bytes) (len : ℕ) (p : Payload)
    → need k len ≤ length buf
    → can_realloc p ≡ true
    → (q : Payload) × (read_payload k buf len p ≡ ok q)
unfolding read_payload
read_payload-ok half buf len p h r = let (x, e) = get16-ok buf h in (put_u16 p x, rw e)
read_payload-ok single buf len p h r = let (x, e) = get32-ok buf h in (put_u32 p x, rw e)
read_payload-ok double buf len p h r = let (x, e) = get64-ok buf h in (put_u64 p x, rw e)
read_payload-ok characters buf len p h r =
    let (s, c) = strncpy-Copied buf len h in (text (s ++ 0 ∷ []), rw (r, c.result))
read_payload-ok _ buf len p h r = (p, refl)

need-le : (tp : TypePair) → need (kind tp.type) tp.len ≤ suns_type_pair_size tp
unfolding kind suns_type_pair_size suns_type_size is_type
need-le tp = go tp.type tp.len
  where
    go :
        (t : SunsType) (len : ℕ)
        → need (kind t) len ≤ (if is_type t SunsType.string then len else suns_type_size t)
    go SunsType.null len = omega arith
    go _ len = omega arith

size-le-pair : (tp : TypePair) → suns_type_size tp.type ≤ suns_type_pair_size tp
unfolding suns_type_pair_size suns_type_size is_type
size-le-pair tp = go tp.type tp.len
  where
    go :
        (t : SunsType) (len : ℕ)
        → suns_type_size t ≤ (if is_type t SunsType.string then len else suns_type_size t)
    go SunsType.null len = omega arith
    go _ len = omega arith

-- The result of a decoding: an unsupported type gives -2 and leaves the value; any other gives 0.
pub data Decoded (buf : Bytes) (tp : TypePair) (v : SunsValue) : ℤ × SunsValue → Type 0 where
  refused : kind tp.type ≡ unsupported → Decoded buf tp v (negsuc 1, v)
  decoded :
      {u : SunsValue} (p : Payload)
      → read_payload (kind tp.type) buf tp.len v.value ≡ ok p
      → Finished p buf tp v u
      → Decoded buf tp v (pos 0, u)

-- A buffer that holds the value, a `raw` array of its size, and a payload that is no wild pointer.
pub record Ready (buf : Bytes) (tp : TypePair) (v : SunsValue) : Type 0 where
  pub room : suns_type_pair_size tp ≤ length buf
  pub raw_size : length v.raw ≡ suns_value_raw_size
  pub pointer : can_realloc v.value ≡ true

module _ (buf : Bytes) (tp : TypePair) (v : SunsValue) (ready : Ready buf tp v) where
  finish_after :
      (k : Kind)
      → kind tp.type ≡ k
      → (r : ℤ × SunsValue) × ((do p ← read_payload k buf tp.len v.value; finish_value p buf tp v)
          ≡ ok r)
        × Decoded buf tp v r
  finish_after k e =
      let enough : need k tp.len ≤ length buf = omega (arith, ready.room, rw e at (need-le tp)) in
      let (p, read) = read_payload-ok k buf tp.len v.value enough ready.pointer in
      let (u, done, is) =
        finish_value-ok p buf tp v ready.raw_size (omega (arith, ready.room, size-le-pair tp)) in
      ((pos 0, u), rw read done, decoded p (rw e read) is)

  by_kind :
      (k : Kind)
      → kind tp.type ≡ k
      → (r : ℤ × SunsValue) × (buf_to_value_as k buf tp v ≡ ok r) × Decoded buf tp v r
  unfolding buf_to_value_as
  by_kind unsupported e = ((negsuc 1, v), refl, refused e)
  by_kind half e = finish_after half e
  by_kind single e = finish_after single e
  by_kind double e = finish_after double e
  by_kind address e = finish_after address e
  by_kind characters e = finish_after characters e
  by_kind padding e = finish_after padding e

  -- Decoding into a prepared value from a buffer of at least the type's size is defined for every
  -- type. The types without a representation give -2 and leave the value; any other gives 0, the
  -- type pair, the payload read, its meta value, and the raw bytes, which stay in their array.
  pub suns_buf_to_value-Decoded :
      (r : ℤ × SunsValue) × (suns_buf_to_value buf tp v ≡ ok r) × Decoded buf tp v r
  unfolding suns_buf_to_value
  suns_buf_to_value-Decoded = by_kind (kind tp.type) refl
