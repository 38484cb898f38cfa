-- ===== src/Tests.antt =====
-- Test data, and the theorems at concrete inputs.
mod BufferTests
mod ChainTests
mod DeviceTests
mod DisplayTests
mod EscapeTests
mod ModelTests
mod NumberTests
mod OutputTests
mod ScanTests
mod StringValueTests
mod WireTests
use sunspec.Modbus.{Modbus, Reply, registers, failed, slice, IsReliable, max_request}
use sunspec.Prelude.{
  ℕ, String, Bool, true, false, Option, some, none, List, [], ◌∷◌, ◌+◌, ◌≡◌, refl, ltb, arith,
}
use sunspec.Prelude.Bytes.{Bytes}
use sunspec.Prelude.Int.{pos, negsuc}
use sunspec.Types.{SunsType}
use sunspec.Value.{TypePair, suns_type_pair_new, SunsValue, suns_value_set_null, word}
use sunspec.Model.{Dp, DpBlock, SunsModel, ModelDid}

abbrev pub typed : SunsType → TypePair
typed t = record suns_type_pair_new { type = t }

abbrev pub point : String → TypePair → Dp
point name tp = record { name = name; offset = negsuc 0; type_pair = tp; attributes = [] }

-- A current with its scale factor, and a voltage for each module.
abbrev pub current : Dp
current = point "A" (record suns_type_pair_new { type = SunsType.int16; name = some "A_SF" })

abbrev pub fixed_block : DpBlock
fixed_block = record {
  repeating = false;
  dp_list = current ∷ point "A_SF" (typed SunsType.sf) ∷ [];
  len = 2;
}

abbrev pub module_block : DpBlock
module_block = record {
  repeating = true;
  dp_list = point "V" (typed SunsType.uint16) ∷ [];
  len = 1;
}

abbrev pub model_of : (len base_len : ℕ) → List DpBlock → SunsModel
model_of len base_len blocks = record {
  name = some "test";
  did_list = [];
  len = len;
  base_len = base_len;
  dp_blocks = blocks;
  defines = [];
}

abbrev pub modules : SunsModel
modules = model_of 3 2 (fixed_block ∷ module_block ∷ [])

abbrev pub flat : SunsModel
flat = model_of 2 2 (fixed_block ∷ [])

abbrev pub did_of : ℕ → SunsModel → ModelDid
did_of did m = record { did = did; name = none; model = m }

-- A value that holds a number.
abbrev pub holding : TypePair → ℕ → SunsValue
holding tp x = record suns_value_set_null { tp = tp; value = word x }

-- Ten bytes: a current of 5 with the scale factor -1, and the voltages 7 and 9 of two modules,
-- behind a number and a length.
abbrev pub two_modules : Bytes
two_modules = 0 ∷ 5 ∷ 0xFF ∷ 0xFF ∷ 0 ∷ 7 ∷ 0 ∷ 9 ∷ []

-- A request for more registers than are allowed fails; each request is counted.
abbrev pub limited : Bool → List ℕ → Reply
limited true rs = failed
limited false rs = registers rs

abbrev pub line_to : (ℕ → ℕ) → Modbus
line_to mem = record {
  State = ℕ;
  read_registers = λ s addr n. (s + 1, limited (ltb max_request n) (slice mem addr n));
}

limited-answers : (b : Bool) (xs : List ℕ) (rs : List ℕ) → limited b xs ≡ registers rs → rs ≡ xs
limited-answers true xs rs e = absurd (cc e)
limited-answers false xs rs e = cc e

pub line_to-IsReliable : (mem : ℕ → ℕ) → IsReliable (line_to mem) mem
line_to-IsReliable mem = record {
  honest = record {
    answers = λ s addr n rs e. limited-answers (ltb max_request n) (slice mem addr n) rs e;
  };
  replies = λ s addr n some_count few.
      let allowed : ltb max_request n ≡ false = ground arith in rw allowed refl;
}
