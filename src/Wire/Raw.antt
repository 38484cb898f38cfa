-- ===== src/Wire/Raw.antt =====
-- The tail of `suns_buf_to_value`: the raw bytes never leave their array of eight bytes.
use sunspec.Prelude.{
  ℕ, zero, suc, ◌≤◌, min, [], ◌∷◌, ◌++◌, ◌≡◌, refl, arith, length, take, drop, ok, length-append,
  length-take, length-drop,
}
use sunspec.Prelude.Bytes.{Bytes}
use sunspec.Prelude.Int.{pos}
use sunspec.Types.{SunsType, suns_type_size}
use sunspec.Value.{TypePair, Payload, SunsValue, suns_check_not_implemented, suns_value_raw_size}
use sunspec.Wire.{stash_raw, finish_value}

stash_raw-ok :
    (raw buf : Bytes) (n : ℕ)
    → n ≤ length raw
    → n ≤ length buf
    → stash_raw raw buf n ≡ ok (take n buf ++ drop n raw)
unfolding stash_raw
stash_raw-ok raw buf zero h k = refl
stash_raw-ok [] buf (suc n) h k = absurd (omega arith)
stash_raw-ok (r ∷ raw) [] (suc n) h k = absurd (omega arith)
stash_raw-ok (r ∷ raw) (b ∷ buf) (suc n) h k =
    rw (stash_raw-ok raw buf n (omega arith) (omega arith))

pub size-le : (t : SunsType) → suns_type_size t ≤ suns_value_raw_size
unfolding suns_type_size
size-le SunsType.null = omega arith
size-le _ = omega arith

-- What a decoded value holds besides its payload.
pub record Finished (p : Payload) (buf : Bytes) (tp : TypePair) (v u : SunsValue) : Type 0 where
  pub payload : u.value ≡ p
  pub type_pair : u.tp ≡ tp
  pub meta_is : u.meta ≡ suns_check_not_implemented tp (record v { value = p })
  pub raw_len_is : u.raw_len ≡ suns_type_size tp.type
  pub raw_fits : length u.raw ≡ length v.raw
  pub raw_is : take u.raw_len u.raw ≡ take u.raw_len buf
  pub name_is : u.name ≡ v.name
  pub index_is : u.index ≡ v.index

take-take : (n : ℕ) (buf rest : Bytes) → n ≤ length buf → take n (take n buf ++ rest) ≡ take n buf
take-take zero buf rest h = refl
take-take (suc n) [] rest h = absurd (omega arith)
take-take (suc n) (b ∷ buf) rest h = rw (take-take n buf rest (omega arith))

min-size : (t : SunsType) → min 16 (suns_type_size t) ≡ suns_type_size t
min-size t = omega (arith, size-le t)

-- The copy stays inside both arrays if `raw` has its size and the buffer holds the value.
pub finish_value-ok :
    (p : Payload) (buf : Bytes) (tp : TypePair) (v : SunsValue)
    → length v.raw ≡ suns_value_raw_size
    → suns_type_size tp.type ≤ length buf
    → (u : SunsValue) × (finish_value p buf tp v ≡ ok (pos 0, u)) × Finished p buf tp v u
unfolding finish_value
finish_value-ok p buf tp v full fits =
    let n = suns_type_size tp.type in
    let copied = stash_raw-ok v.raw buf n (omega (arith, size-le tp.type)) fits in
    (
      record v {
        value = p;
        meta = suns_check_not_implemented tp (record v { value = p });
        tp = tp;
        raw_len = n;
        raw = take n buf ++ drop n v.raw;
      },
      rw (min-size tp.type, copied),
      record {
        payload = refl;
        type_pair = refl;
        meta_is = refl;
        raw_len_is = refl;
        raw_fits = omega (
          arith,
          length-append (take n buf) (drop n v.raw),
          length-take n buf,
          length-drop n v.raw,
          size-le tp.type,
        );
        raw_is = take-take n buf (drop n v.raw) fits;
        name_is = refl;
        index_is = refl;
      },
    )
