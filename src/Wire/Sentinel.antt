-- ===== src/Wire/Sentinel.antt =====
-- The values that stand for a point which a device does not implement.
use sunspec.Prelude.{
  ℕ, Option, none, some, ◌≡◌, ◌≢◌, ◌↔◌, ◌⊎◌, inl, inr, refl, arith, Bool, true, false,
}
use sunspec.Types.{SunsType, Meta, not_implemented, suns_type_size}
use sunspec.Value.{TypePair, SunsValue, suns_check_not_implemented, unless}
use sunspec.Wire.RoundTrip.{member}

-- The SunSpec number for "not implemented" of a type; a type without one has no such value.
unfoldable pub sentinel : SunsType → Option ℕ
sentinel SunsType.int16 = some 0x8000
sentinel SunsType.uint16 = some 0xFFFF
sentinel SunsType.enum16 = some 0xFFFF
sentinel SunsType.sf = some 0x8000
sentinel SunsType.bitfield16 = some 0xFFFF
sentinel SunsType.int32 = some 0x8000_0000
sentinel SunsType.uint32 = some 0xFFFF_FFFF
sentinel SunsType.enum32 = some 0xFFFF_FFFF
sentinel SunsType.bitfield32 = some 0xFFFF_FFFF
sentinel SunsType.int64 = some 0x8000_0000_0000_0000
sentinel SunsType.uint64 = some 0xFFFF_FFFF_FFFF_FFFF
sentinel SunsType.ipv4 = some 0
sentinel _ = none

marks : (b : Bool) → (unless b ≡ not_implemented) ⊎ (unless b ≡ Meta.ok)
marks true = inl refl
marks false = inr refl

check_as :
    (t : SunsType) (name : Option _) (len : ℕ) (sf : _) (define : _) (v : SunsValue)
    → t ≢ SunsType.float32
    → t ≢ SunsType.float64
    → (suns_check_not_implemented
          (record { type = t; name = name; len = len; sf = sf; define = define })
          v
        ≡ not_implemented)
      ↔ (sentinel t ≡ some (member t v.value))
unfolding suns_check_not_implemented sentinel suns_type_size
check_as SunsType.int16 name len sf define v p q = (λ h. ground arith, λ h. ground arith)
check_as _ name len sf define v p q = (λ h. ground arith, λ h. ground arith)

-- For every type but the floating-point ones, a value is marked as not implemented exactly when
-- the number that it holds is the sentinel of its type, and as valid otherwise.
pub suns_check_not_implemented-sentinel :
    (tp : TypePair) (v : SunsValue)
    → tp.type ≢ SunsType.float32
    → tp.type ≢ SunsType.float64
    → ((suns_check_not_implemented tp v ≡ not_implemented)
        ↔ (sentinel tp.type ≡ some (member tp.type v.value)))
      × ((suns_check_not_implemented tp v ≡ not_implemented)
          ⊎ (suns_check_not_implemented tp v ≡ Meta.ok))
unfolding suns_check_not_implemented
suns_check_not_implemented-sentinel tp v p q =
    (check_as tp.type tp.name tp.len tp.sf tp.define v p q, marks _)
