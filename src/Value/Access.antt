-- ===== src/Value/Access.antt =====
-- What the accessors of src/suns_model.c store, and when they mark a value as not implemented.
use sunspec.Prelude.{ℕ, ◌<◌, ◌^◌, ◌≡◌, ◌≢◌, ◌↔◌, arith}
use sunspec.Value.{SunsValue, suns_check_not_implemented}
use sunspec.Value.Set.{
  suns_value_set_uint16, suns_value_set_int16, suns_value_set_acc16, suns_value_set_uint32,
  suns_value_set_int32, suns_value_set_enum32, suns_value_set_acc32, suns_value_set_float32,
  suns_value_set_uint64, suns_value_set_int64, suns_value_set_acc64, suns_value_set_float64,
  suns_value_set_enum16, suns_value_set_bitfield16, suns_value_set_bitfield32,
  suns_value_set_sunssf, suns_value_set_ipv4,
}

-- The meta value of `w` is the one that the decoder would give it.
abbrev pub Marked : SunsValue → Type 0
Marked w = w.meta ≡ suns_check_not_implemented w.tp w

-- The accessors of one width.
module _ (v : SunsValue) (x : ℕ) (fits : x < 2 ^ 16) where
  word16-Marked :
      Marked (suns_value_set_uint16 v x)
      × Marked (suns_value_set_int16 v x)
      × Marked (suns_value_set_acc16 v x)
  unfolding suns_check_not_implemented suns_value_set_uint16 suns_value_set_int16
      suns_value_set_acc16
  word16-Marked = (ground arith, ground arith, ground arith)

module _ (v : SunsValue) (x : ℕ) (fits : x < 2 ^ 32) where
  word32-Marked :
      Marked (suns_value_set_uint32 v x)
      × Marked (suns_value_set_int32 v x)
      × Marked (suns_value_set_enum32 v x)
      × Marked (suns_value_set_acc32 v x)
      × Marked (suns_value_set_float32 v x)
  unfolding suns_check_not_implemented suns_value_set_uint32 suns_value_set_int32
      suns_value_set_enum32 suns_value_set_acc32 suns_value_set_float32
  word32-Marked = (ground arith, ground arith, ground arith, ground arith, ground arith)

module _ (v : SunsValue) (x : ℕ) (fits : x < 2 ^ 64) where
  word64-Marked :
      Marked (suns_value_set_uint64 v x)
      × Marked (suns_value_set_int64 v x)
      × Marked (suns_value_set_acc64 v x)
      × Marked (suns_value_set_float64 v x)
  unfolding suns_check_not_implemented suns_value_set_uint64 suns_value_set_int64
      suns_value_set_acc64 suns_value_set_float64
  word64-Marked = (ground arith, ground arith, ground arith, ground arith)

-- The accessors of the integer, accumulator, float and `enum32` types mark a number of their
-- width as not implemented exactly when the decoder does.
pub suns_value_set-Marked :
    (v : SunsValue) (x y z : ℕ)
    → x < 2 ^ 16
    → y < 2 ^ 32
    → z < 2 ^ 64
    → (Marked (suns_value_set_uint16 v x)
        × Marked (suns_value_set_int16 v x)
        × Marked (suns_value_set_acc16 v x))
      × (Marked (suns_value_set_uint32 v y)
          × Marked (suns_value_set_int32 v y)
          × Marked (suns_value_set_enum32 v y)
          × Marked (suns_value_set_acc32 v y)
          × Marked (suns_value_set_float32 v y))
      × (Marked (suns_value_set_uint64 v z)
          × Marked (suns_value_set_int64 v z)
          × Marked (suns_value_set_acc64 v z)
          × Marked (suns_value_set_float64 v z))
suns_value_set-Marked v x y z p q r =
    (word16-Marked v x p, word32-Marked v y q, word64-Marked v z r)

module _ (v : SunsValue) (x : ℕ) (fits : x < 2 ^ 16) where
  word16-unmarked :
      (Marked (suns_value_set_enum16 v x) ↔ (x ≢ 0xFFFF))
      × (Marked (suns_value_set_bitfield16 v x) ↔ (x ≢ 0xFFFF))
      × (Marked (suns_value_set_sunssf v x) ↔ (x ≢ 0x8000))
  unfolding suns_check_not_implemented suns_value_set_enum16 suns_value_set_bitfield16
      suns_value_set_sunssf
  word16-unmarked = (
    (λ h e. ground arith, λ h. ground arith),
    (λ h e. ground arith, λ h. ground arith),
    (λ h e. ground arith, λ h. ground arith),
  )

module _ (v : SunsValue) (x : ℕ) (fits : x < 2 ^ 32) where
  word32-unmarked :
      (Marked (suns_value_set_bitfield32 v x) ↔ (x ≢ 0xFFFF_FFFF))
      × (Marked (suns_value_set_ipv4 v x) ↔ (x ≢ 0))
  unfolding suns_check_not_implemented suns_value_set_bitfield32 suns_value_set_ipv4
  word32-unmarked =
      ((λ h e. ground arith, λ h. ground arith), (λ h e. ground arith, λ h. ground arith))

-- The accessors of `enum16`, `bitfield16`, `sunssf`, `bitfield32` and `ipaddr` agree with the
-- decoder on a number of their width exactly when it is not the type's "not implemented" number.
pub suns_value_set-unmarked :
    (v : SunsValue) (x y : ℕ)
    → x < 2 ^ 16
    → y < 2 ^ 32
    → (Marked (suns_value_set_enum16 v x) ↔ (x ≢ 0xFFFF))
      × (Marked (suns_value_set_bitfield16 v x) ↔ (x ≢ 0xFFFF))
      × (Marked (suns_value_set_sunssf v x) ↔ (x ≢ 0x8000))
      × (Marked (suns_value_set_bitfield32 v y) ↔ (y ≢ 0xFFFF_FFFF))
      × (Marked (suns_value_set_ipv4 v y) ↔ (y ≢ 0))
suns_value_set-unmarked v x y p q =
    let (a, b, c) = word16-unmarked v x p in let (d, e) = word32-unmarked v y q in (a, b, c, d, e)
