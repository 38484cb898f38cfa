-- ===== src/Model.antt =====
-- Device models of src/suns_model.h: points, blocks of points and models, with the searches and
-- checks of src/suns_model.c. An attribute list that is null is an empty list. A model refers to
-- its identifiers by their numbers and names.
pub mod Check
pub mod Defines
pub mod Offsets
pub mod Sizes
pub mod Search
use sunspec.Prelude.{
  ℕ, suc, ◌+◌, ◌-◌, ◌/◌, ◌%◌, ◌^◌, String, str_eq, Bool, true, false, not, ◌&&◌, ◌||◌, Option, none,
  some, List, [], ◌∷◌, ◌==◌, if◌then◌else◌, Run, ok, fault, ◌>>=◌, is_some,
}
use sunspec.Prelude.Int.{ℤ, pos, negsuc, pos_part, ltb_ℤ}
use sunspec.Types.{SunsType, is_type, suns_type_size, suns_type_is_numeric, suns_type_is_symbolic}
use sunspec.Value.{TypePair, Define, DefineBlock}

pub record Attribute : Type 0 where
  pub name : String
  pub value : String

-- `offset` is -1 in a new point.
pub record Dp : Type 0 where
  pub name : String
  pub offset : ℤ
  pub type_pair : TypePair
  pub attributes : List Attribute

pub record DpBlock : Type 0 where
  pub repeating : Bool
  pub dp_list : List Dp
  pub len : ℕ

pub record DidName : Type 0 where
  pub did : ℕ
  pub name : Option String

-- `len` and `base_len` are `uint16_t`.
pub record SunsModel : Type 0 where
  pub name : Option String
  pub did_list : List DidName
  pub len : ℕ
  pub base_len : ℕ
  pub dp_blocks : List DpBlock
  pub defines : List DefineBlock

pub record ModelDid : Type 0 where
  pub did : ℕ
  pub name : Option String
  pub model : SunsModel

-- Registers that a point takes; a string of odd length is rounded up.
unfoldable pub registers : TypePair → ℕ
unfolding is_type
registers tp =
    if is_type tp.type SunsType.string
    then (if tp.len % 2 == 0 then tp.len / 2 else tp.len / 2 + 1)
    else suns_type_size tp.type / 2

-- The loop over the points of a block. `offset` is the block's start, `n` is `dp_block_offset`.
unfoldable pub fill_dps : (offset n : ℕ) → List Dp → List Dp × ℕ
unfolding registers
fill_dps offset n [] = ([], n)
fill_dps offset n (dp ∷ dps) =
    let given = ltb_ℤ (pos 0) dp.offset in
    let here = if given then pos_part dp.offset - offset else n in
    let (rest, end) = fill_dps offset (here + registers dp.type_pair) dps in
    ((if given then dp else record dp { offset = pos (offset + n) }) ∷ rest, end)

-- The loop over the blocks. The source never advances `offset` from 0.
unfoldable pub fill_blocks : List DpBlock → (base_len len : ℕ) → List DpBlock × ℕ × ℕ
unfolding fill_dps
fill_blocks [] base_len len = ([], base_len, len)
fill_blocks (block ∷ blocks) base_len len =
    let (dps, n) = fill_dps 0 0 block.dp_list in
    let (rest, base_len', len') =
      fill_blocks blocks (if block.repeating then base_len else (base_len + n) % 2 ^ 16)
        ((len + n) % 2 ^ 16) in
    (record block { dp_list = dps; len = n } ∷ rest, base_len', len')

unfoldable pub suns_model_fill_offsets : SunsModel → SunsModel
unfolding fill_blocks
suns_model_fill_offsets m =
    let (blocks, base_len, len) = fill_blocks m.dp_blocks m.base_len m.len in
    record m { dp_blocks = blocks; base_len = base_len; len = len }

unfoldable pub search_dps : List Dp → String → Option Dp
search_dps [] name = none
search_dps (dp ∷ dps) name = if str_eq name dp.name then some dp else search_dps dps name

unfoldable pub suns_search_dp_block_for_dp_by_name : DpBlock → String → Option Dp
unfolding search_dps
suns_search_dp_block_for_dp_by_name block name = search_dps block.dp_list name

-- What the caller makes of the point found in one block.
abbrev pub found_in : DpBlock → Option Dp → Option (Dp × DpBlock) → Option (Dp × DpBlock)
found_in block (some dp) later = some (dp, block)
found_in block none later = later

-- The point, and the block that holds it.
unfoldable pub search_blocks : List DpBlock → String → Option (Dp × DpBlock)
search_blocks [] name = none
search_blocks (block ∷ blocks) name =
    found_in block (suns_search_dp_block_for_dp_by_name block name) (search_blocks blocks name)

unfoldable pub suns_search_model_for_dp_by_name : SunsModel → String → Option (Dp × DpBlock)
unfolding search_blocks
suns_search_model_for_dp_by_name m name = search_blocks m.dp_blocks name

unfoldable pub search_attributes : List Attribute → String → Option String
search_attributes [] name = none
search_attributes (a ∷ rest) name =
    if str_eq a.name name then some a.value else search_attributes rest name

unfoldable pub suns_find_attribute : Dp → String → Option String
unfolding search_attributes
suns_find_attribute dp name = search_attributes dp.attributes name

-- Whether a reference from a point of `block` is accepted.
abbrev pub reference_ok : DpBlock → Option (Dp × DpBlock) → Bool
reference_ok block (some (sf, holder)) = not (not block.repeating && holder.repeating)
reference_ok block none = false

abbrev pub checked_name : SunsModel → DpBlock → Option String → Bool
checked_name m block none = true
checked_name m block (some name) = reference_ok block (suns_search_model_for_dp_by_name m name)

unfoldable pub dp_ok : SunsModel → DpBlock → Dp → Bool
dp_ok m block dp =
    if suns_type_is_numeric dp.type_pair.type then checked_name m block dp.type_pair.name else true

-- The two loops only ever set `rc` to -1.
unfoldable pub check_dps : SunsModel → DpBlock → List Dp → ℤ → ℤ
unfolding dp_ok
check_dps m block [] rc = rc
check_dps m block (dp ∷ dps) rc = check_dps m block dps (if dp_ok m block dp then rc else negsuc 0)

unfoldable pub check_blocks : SunsModel → List DpBlock → ℤ → ℤ
unfolding check_dps
check_blocks m [] rc = rc
check_blocks m (block ∷ blocks) rc = check_blocks m blocks (check_dps m block block.dp_list rc)

unfoldable pub suns_check_scale_factors : SunsModel → ℤ
unfolding check_blocks
suns_check_scale_factors m = check_blocks m m.dp_blocks (pos 0)

-- A model with no name is reported by the first identifier, which must be there.
abbrev check_name : Option String → List DidName → ℤ → Run ℤ
check_name (some name) dids rc = ok rc
check_name none (did ∷ dids) rc = ok (negsuc 0)
check_name none [] rc = fault

unfoldable pub suns_model_check_consistency : SunsModel → Run ℤ
suns_model_check_consistency m = check_name m.name m.did_list (suns_check_scale_factors m)

unfoldable pub search_define_list : List DefineBlock → String → Option DefineBlock
search_define_list [] name = none
search_define_list (block ∷ rest) name =
    if str_eq block.name name then some block else search_define_list rest name

abbrev pub or_else : Option DefineBlock → Option DefineBlock → Option DefineBlock
or_else (some block) other = some block
or_else none other = other

-- The list of the model first, then the global one.
unfoldable pub suns_search_define_blocks :
    (list global : List DefineBlock) → String → Option DefineBlock
unfolding search_define_list
suns_search_define_blocks list global name =
    or_else (search_define_list list name) (search_define_list global name)

abbrev pub resolve_name : (list global : List DefineBlock) → Option String → Dp → Dp
resolve_name list global none dp = dp
resolve_name list global (some name) dp = record dp {
  type_pair = record dp.type_pair { define = suns_search_define_blocks list global name };
}

unfoldable pub resolve_dp : (list global : List DefineBlock) → Dp → Dp
resolve_dp list global dp =
    if suns_type_is_symbolic dp.type_pair.type
    then resolve_name list global dp.type_pair.name dp
    else dp

unfoldable pub resolve_dps : (list global : List DefineBlock) → List Dp → List Dp
unfolding resolve_dp
resolve_dps list global [] = []
resolve_dps list global (dp ∷ dps) = resolve_dp list global dp ∷ resolve_dps list global dps

unfoldable pub resolve_blocks : (list global : List DefineBlock) → List DpBlock → List DpBlock
unfolding resolve_dps
resolve_blocks list global [] = []
resolve_blocks list global (block ∷ blocks) =
    record block { dp_list = resolve_dps list global block.dp_list }
    ∷ resolve_blocks list global blocks

-- `global` is the parser's list of define blocks.
unfoldable pub suns_model_resolve_defines : (global : List DefineBlock) → SunsModel → SunsModel
unfolding resolve_blocks
suns_model_resolve_defines global m = record m {
  dp_blocks = resolve_blocks m.defines global m.dp_blocks;
}

unfoldable pub last {ℓ} : {A : Type ℓ} → List A → Run A
last [] = fault
last (x ∷ []) = ok x
last (x ∷ y ∷ xs) = last (y ∷ xs)

-- The tails of the two lists are read with no test.
unfoldable pub suns_model_last_dp : SunsModel → Run Dp
unfolding last
suns_model_last_dp m = do block ← last m.dp_blocks; last block.dp_list

unfoldable pub suns_search_enum_defines : List Define → ℕ → Option Define
suns_search_enum_defines [] value = none
suns_search_enum_defines (define ∷ rest) value =
    if define.value == value then some define else suns_search_enum_defines rest value

-- The first identifier with this number.
unfoldable pub suns_find_did : List ModelDid → ℕ → Option ModelDid
suns_find_did [] did = none
suns_find_did (d ∷ rest) did = if d.did == did then some d else suns_find_did rest did
