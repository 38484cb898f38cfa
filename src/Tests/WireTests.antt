-- ===== src/Tests/WireTests.antt =====
-- Values and their bytes.
use sunspec.Prelude.{ℕ, ◌≡◌, ◌↔◌, ◌≢◌, ◌⊎◌, refl, arith, some, [], ◌∷◌, length, take, drop, ok}
use sunspec.Prelude.Bytes.{Bytes}
use sunspec.Prelude.Copy.{c_string}
use sunspec.Prelude.Int.{ℤ, pos}
use sunspec.Types.{SunsType, Meta, not_implemented, suns_type_size}
use sunspec.Value.{
  TypePair, suns_type_pair_new, SunsValue, suns_value_set_null, text, suns_check_not_implemented,
}
use sunspec.Value.Set.{
  suns_value_set_uint16, suns_value_set_int16, suns_value_set_acc16, suns_value_set_uint32,
  suns_value_set_int32, suns_value_set_enum32, suns_value_set_acc32, suns_value_set_float32,
  suns_value_set_uint64, suns_value_set_int64, suns_value_set_acc64, suns_value_set_float64,
  suns_value_set_enum16, suns_value_set_bitfield16, suns_value_set_bitfield32,
  suns_value_set_sunssf, suns_value_set_ipv4,
}
use sunspec.Value.Access.{Marked, suns_value_set-Marked, suns_value_set-unmarked}
use sunspec.Wire.{kind, suns_type_pair_size, suns_value_to_buf, suns_buf_to_value}
use sunspec.Wire.Decoded.{Decoded, suns_buf_to_value-Decoded}
use sunspec.Wire.RoundTrip.{member, is_number, suns_buf_to_value-suns_value_to_buf}
use sunspec.Wire.Sentinel.{sentinel, suns_check_not_implemented-sentinel}
use sunspec.Wire.Strings.{string-c_string}
use sunspec.Tests.{typed, holding}

abbrev v0 : SunsValue
v0 = suns_value_set_null

suns_value_set-Marked_example :
    (Marked (suns_value_set_uint16 v0 0xFFFF)
      × Marked (suns_value_set_int16 v0 0xFFFF)
      × Marked (suns_value_set_acc16 v0 0xFFFF))
    × (Marked (suns_value_set_uint32 v0 0x7FC0_0000)
        × Marked (suns_value_set_int32 v0 0x7FC0_0000)
        × Marked (suns_value_set_enum32 v0 0x7FC0_0000)
        × Marked (suns_value_set_acc32 v0 0x7FC0_0000)
        × Marked (suns_value_set_float32 v0 0x7FC0_0000))
    × (Marked (suns_value_set_uint64 v0 7)
        × Marked (suns_value_set_int64 v0 7)
        × Marked (suns_value_set_acc64 v0 7)
        × Marked (suns_value_set_float64 v0 7))
suns_value_set-Marked_example =
    suns_value_set-Marked v0 0xFFFF 0x7FC0_0000 7 (omega arith) (omega arith) (omega arith)

abbrev all_ones : ℕ
all_ones = 0xFFFF

abbrev small : ℕ
small = 3

suns_value_set-unmarked_example :
    (Marked (suns_value_set_enum16 v0 all_ones) ↔ (all_ones ≢ 0xFFFF))
    × (Marked (suns_value_set_bitfield16 v0 all_ones) ↔ (all_ones ≢ 0xFFFF))
    × (Marked (suns_value_set_sunssf v0 all_ones) ↔ (all_ones ≢ 0x8000))
    × (Marked (suns_value_set_bitfield32 v0 small) ↔ (small ≢ 0xFFFF_FFFF))
    × (Marked (suns_value_set_ipv4 v0 small) ↔ (small ≢ 0))
suns_value_set-unmarked_example =
    suns_value_set-unmarked v0 all_ones small (omega arith) (omega arith)

abbrev energy : SunsValue
energy = holding (typed SunsType.acc32) 0x1234_5678

abbrev six : Bytes
six = 1 ∷ 2 ∷ 3 ∷ 4 ∷ 5 ∷ 6 ∷ []

suns_buf_to_value-suns_value_to_buf_example :
    (out : Bytes) × (u : SunsValue) × (suns_value_to_buf energy six ≡ ok (pos 0, out))
    × (suns_buf_to_value out energy.tp v0 ≡ ok (pos 0, u))
    × (u.tp ≡ energy.tp)
    × (member SunsType.acc32 u.value ≡ member SunsType.acc32 energy.value)
    × (length out ≡ length six)
    × (drop (suns_type_size SunsType.acc32) out ≡ drop (suns_type_size SunsType.acc32) six)
unfolding is_number suns_type_size kind
suns_buf_to_value-suns_value_to_buf_example =
    suns_buf_to_value-suns_value_to_buf energy v0 six refl (omega arith) refl

suns_buf_to_value-Decoded_example :
    (r : ℤ × SunsValue) × (suns_buf_to_value six (typed SunsType.enum16) v0 ≡ ok r)
    × Decoded six (typed SunsType.enum16) v0 r
unfolding suns_type_size suns_type_pair_size
suns_buf_to_value-Decoded_example =
    suns_buf_to_value-Decoded six (typed SunsType.enum16) v0
      (record { room = omega arith; raw_size = refl; pointer = refl })

-- "ab" in an object of four bytes, of a type of three.
abbrev name_type : TypePair
name_type = record suns_type_pair_new { type = SunsType.string; len = 3 }

abbrev maker : SunsValue
maker = record suns_value_set_null { tp = name_type; value = text (b'a' ∷ b'b' ∷ 0 ∷ 0 ∷ []) }

string-c_string_example :
    (out t : Bytes) × (u : SunsValue) × (suns_value_to_buf maker six ≡ ok (pos 0, out))
    × (suns_buf_to_value out name_type v0 ≡ ok (pos 0, u))
    × (u.value ≡ text t)
    × (c_string t ≡ take 3 (c_string (b'a' ∷ b'b' ∷ 0 ∷ 0 ∷ [])))
string-c_string_example =
    string-c_string (b'a' ∷ b'b' ∷ 0 ∷ 0 ∷ []) six maker v0 refl refl (omega arith) (omega arith)
      refl refl

suns_check_not_implemented-sentinel_example :
    ((suns_check_not_implemented (typed SunsType.int16) (holding (typed SunsType.int16) 0x8000)
        ≡ not_implemented)
      ↔ (sentinel SunsType.int16
          ≡ some (member SunsType.int16 (holding (typed SunsType.int16) 0x8000).value)))
    × ((suns_check_not_implemented (typed SunsType.int16) (holding (typed SunsType.int16) 0x8000)
          ≡ not_implemented)
        ⊎ (suns_check_not_implemented (typed SunsType.int16) (holding (typed SunsType.int16) 0x8000)
            ≡ Meta.ok))
suns_check_not_implemented-sentinel_example =
    suns_check_not_implemented-sentinel (typed SunsType.int16)
      (holding (typed SunsType.int16) 0x8000) (λ h. cc) (λ h. cc)
