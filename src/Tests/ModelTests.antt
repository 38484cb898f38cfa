-- ===== src/Tests/ModelTests.antt =====
-- Models, and the decoding of their registers.
use sunspec.Prelude.{
  ℕ, ◌+◌, ◌*◌, ◌%◌, ◌^◌, ◌≤◌, ◌<◌, ◌≡◌, ◌↔◌, ◌⊎◌, refl, arith, false, some, List, [], ◌∷◌, ◌++◌,
  length, ok,
}
use sunspec.Prelude.Bytes.{Bytes, get16}
use sunspec.Prelude.Int.{pos, negsuc}
use sunspec.Types.{SunsType}
use sunspec.Value.{SunsValue}
use sunspec.Model.{
  suns_model_fill_offsets, suns_search_model_for_dp_by_name, suns_check_scale_factors,
  suns_find_did, suns_model_last_dp, last,
}
use sunspec.Model.Check.{ResolveBlocks, suns_check_scale_factors_iff}
use sunspec.Model.{SunsModel, suns_model_resolve_defines}
use sunspec.Model.Defines.{ResolvedBlocks, suns_model_resolve_defines-ResolvedBlocks}
use sunspec.Model.Offsets.{
  BlocksLaid, total_blocks, total_fixed, suns_model_fill_offsets-BlocksLaid,
}
use sunspec.Model.Search.{Searched, suns_search_model_for_dp_by_name-Searched}
use sunspec.Types.{suns_type_size}
use sunspec.Wire.{suns_type_pair_size}
use sunspec.Decode.{
  Decoding, Notice, decode_dps, len_multiple, suns_decode_dp_block, suns_decode_data,
  suns_resolve_scale_factors, check_length,
}
use sunspec.Decode.Block.{Pass, decode_dps-Pass}
use sunspec.Decode.Data.{BlocksRead, suns_decode_data-BlocksRead}
use sunspec.Decode.Rounds.{
  Rounds, bytes, suns_decode_dp_block-Rounds, suns_decode_dp_block_repeating,
}
use sunspec.Decode.Scale.{Resolved, suns_resolve_scale_factors-Resolved}
use sunspec.Value.{DefineBlock}
use sunspec.Tests.{
  point, model_of, typed, current, fixed_block, module_block, modules, did_of, holding, two_modules,
}

suns_model_fill_offsets-BlocksLaid_example :
    BlocksLaid modules.dp_blocks (suns_model_fill_offsets modules).dp_blocks
    × ((suns_model_fill_offsets modules).base_len ≡ (2 + total_fixed modules.dp_blocks) % 2 ^ 16)
    × ((suns_model_fill_offsets modules).len ≡ (3 + total_blocks modules.dp_blocks) % 2 ^ 16)
suns_model_fill_offsets-BlocksLaid_example =
    suns_model_fill_offsets-BlocksLaid modules ((refl, (refl, tt)), ((refl, tt), tt)) (omega arith)
      (omega arith)

suns_search_model_for_dp_by_name-Searched_example :
    Searched "V" modules.dp_blocks (suns_search_model_for_dp_by_name modules "V")
suns_search_model_for_dp_by_name-Searched_example =
    suns_search_model_for_dp_by_name-Searched modules "V"

suns_check_scale_factors_iff_example :
    ((suns_check_scale_factors modules ≡ pos 0) ↔ ResolveBlocks modules modules.dp_blocks)
    × ((suns_check_scale_factors modules ≡ pos 0) ⊎ (suns_check_scale_factors modules ≡ negsuc 0))
suns_check_scale_factors_iff_example = suns_check_scale_factors_iff modules

decode_dps-Pass_example :
    (d : Decoding) × (decode_dps false 1 two_modules 4 fixed_block.dp_list 0 ≡ ok d)
    × Pass 1 two_modules 4 0 fixed_block.dp_list d
decode_dps-Pass_example = decode_dps-Pass false 1 two_modules 4 (omega arith) fixed_block.dp_list 0

suns_decode_dp_block-Rounds_example :
    (n : ℕ) × (d : Decoding) × (len_multiple fixed_block 8 ≡ ok n)
    × (suns_decode_dp_block fixed_block two_modules 8 ≡ ok d)
    × Rounds two_modules 8 fixed_block.dp_list 1 n 0 d
    × (d.offset ≤ 8)
suns_decode_dp_block-Rounds_example =
    suns_decode_dp_block-Rounds fixed_block two_modules 8 (omega arith) (λ e. absurd (cc e))

abbrev voltages : Bytes
voltages = 0 ∷ 7 ∷ 0 ∷ 9 ∷ []

suns_decode_dp_block_repeating_example :
    (n : ℕ) × (d : Decoding) × (suns_decode_dp_block module_block voltages 4 ≡ ok d)
    × Rounds voltages 4 module_block.dp_list 1 n 0 d
    × (d.offset ≡ n * bytes module_block.dp_list)
    × (length d.values ≡ n * length module_block.dp_list)
    × (d.notices ≡ [])
    × (d.offset ≤ 4)
    × (4 < d.offset + bytes module_block.dp_list)
unfolding bytes suns_type_pair_size suns_type_size
suns_decode_dp_block_repeating_example =
    suns_decode_dp_block_repeating module_block voltages 4 refl (omega arith) (omega arith)
      (omega arith)

abbrev registers_read : Bytes
registers_read = 0 ∷ 103 ∷ 0 ∷ 4 ∷ two_modules

suns_decode_data-BlocksRead_example :
    (about : List Notice) × (d : Decoding) × (suns_decode_data
        (did_of 103 modules ∷ [])
        registers_read
      ≡ ok (
        some (record {
          did = did_of 103 modules;
          values = (suns_resolve_scale_factors d.values).0;
          index = 0;
        }),
        about ++ d.notices,
      ))
    × BlocksRead registers_read 4 0 modules.dp_blocks d
    × (d.offset ≤ 4 * 2)
    × (check_length modules 4 ≡ ok about)
unfolding get16 suns_find_did suns_model_last_dp last
suns_decode_data-BlocksRead_example =
    suns_decode_data-BlocksRead (did_of 103 modules ∷ []) (did_of 103 modules) registers_read refl
      refl refl (omega arith) ((λ e. absurd (cc e)), ((λ _ e. omega arith), tt)) refl

abbrev readings : List SunsValue
readings =
    record (holding current.type_pair 5) { name = some "A" }
    ∷ record (holding (typed SunsType.sf) 0xFFFF) { name = some "A_SF" }
    ∷ []

suns_resolve_scale_factors-Resolved_example :
    Resolved readings readings (suns_resolve_scale_factors readings)
suns_resolve_scale_factors-Resolved_example = suns_resolve_scale_factors-Resolved readings

-- A state that refers to a block of symbols.
abbrev states : DefineBlock
states = record { name = "St"; list = [] }

abbrev with_state : SunsModel
with_state = model_of 1 1 (
    record {
      repeating = false;
      dp_list = point "St" (record (typed SunsType.enum16) { name = some "St" }) ∷ [];
      len = 1;
    }
    ∷ [])

suns_model_resolve_defines-ResolvedBlocks_example :
    ResolvedBlocks []
      (states ∷ [])
      with_state.dp_blocks
      (suns_model_resolve_defines (states ∷ []) with_state).dp_blocks
suns_model_resolve_defines-ResolvedBlocks_example =
    suns_model_resolve_defines-ResolvedBlocks (states ∷ []) with_state
