-- ===== src/Model/Sizes.antt =====
-- The registers of a point, by its type.
use sunspec.Prelude.{ℕ, ◌+◌, ◌/◌, ◌≡◌, refl, arith}
use sunspec.Types.{SunsType, suns_type_size, is_type}
use sunspec.Value.{TypePair}
use sunspec.Model.{registers}

-- Registers of 16 bits, with `len` bytes for a string: a byte left over takes one more register.
abbrev pub width_of : SunsType → (len : ℕ) → ℕ
width_of SunsType.int16 len = 1
width_of SunsType.uint16 len = 1
width_of SunsType.acc16 len = 1
width_of SunsType.enum16 len = 1
width_of SunsType.bitfield16 len = 1
width_of SunsType.sf len = 1
width_of SunsType.pad len = 1
width_of SunsType.int32 len = 2
width_of SunsType.uint32 len = 2
width_of SunsType.acc32 len = 2
width_of SunsType.float32 len = 2
width_of SunsType.enum32 len = 2
width_of SunsType.bitfield32 len = 2
width_of SunsType.ipv4 len = 2
width_of SunsType.int64 len = 4
width_of SunsType.uint64 len = 4
width_of SunsType.acc64 len = 4
width_of SunsType.float64 len = 4
width_of SunsType.ipv6 len = 4
width_of SunsType.string len = (len + 1) / 2
width_of SunsType.null len = 0
width_of SunsType.undef len = 0

type-width_of : (t : SunsType) (tp : TypePair) → tp.type ≡ t → registers tp ≡ width_of t tp.len
unfolding registers suns_type_size is_type
type-width_of SunsType.string tp e = rw e (ground arith)
type-width_of _ tp e = rw e refl

pub registers-width_of : (tp : TypePair) → registers tp ≡ width_of tp.type tp.len
registers-width_of tp = type-width_of tp.type tp refl
