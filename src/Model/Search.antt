-- ===== src/Model/Search.antt =====
-- `suns_search_model_for_dp_by_name` finds the first point with a name.
use sunspec.Prelude.{
  String, str_eq, eq_iff, Bool-cases, Option, none, some, List, [], ◌∷◌, ◌≡◌, ◌≢◌, sym, inl, inr,
}
use sunspec.Model.{
  Dp, DpBlock, SunsModel, found_in, search_dps, search_blocks, suns_search_dp_block_for_dp_by_name,
  suns_search_model_for_dp_by_name,
}

-- No point of these has the name.
abbrev pub Absent : String → List Dp → Type 0
Absent name [] = Unit {0}
Absent name (dp ∷ dps) = (dp.name ≢ name) × Absent name dps

abbrev pub AbsentFromAll : String → List DpBlock → Type 0
AbsentFromAll name [] = Unit {0}
AbsentFromAll name (b ∷ bs) = Absent name b.dp_list × AbsentFromAll name bs

-- `dp` is the first point of the list with the name.
pub data FirstDp (name : String) (dp : Dp) : List Dp → Type 0 where
  here : {dps : List Dp} → dp.name ≡ name → FirstDp name dp (dp ∷ dps)
  later : {d : Dp} {dps : List Dp} → d.name ≢ name → FirstDp name dp dps → FirstDp name dp (d ∷ dps)

-- `block` is the first block with such a point, and `dp` is the first one in it.
pub data FirstBlock (name : String) (dp : Dp) (block : DpBlock) : List DpBlock → Type 0 where
  here : {bs : List DpBlock} → FirstDp name dp block.dp_list → FirstBlock name dp block (block ∷ bs)
  later :
      {b : DpBlock} {bs : List DpBlock}
      → Absent name b.dp_list
      → FirstBlock name dp block bs
      → FirstBlock name dp block (b ∷ bs)

pub data SearchedDps (name : String) (dps : List Dp) : Option Dp → Type 0 where
  missing : Absent name dps → SearchedDps name dps none
  found : {dp : Dp} → FirstDp name dp dps → SearchedDps name dps (some dp)

pub data Searched (name : String) (blocks : List DpBlock) : Option (Dp × DpBlock) → Type 0 where
  missing : AbsentFromAll name blocks → Searched name blocks none
  found :
      {dp : Dp} {block : DpBlock}
      → FirstBlock name dp block blocks
      → Searched name blocks (some (dp, block))

skip_dp :
    {name : String} {d : Dp} {dps : List Dp} {r : Option Dp}
    → d.name ≢ name
    → SearchedDps name dps r
    → SearchedDps name (d ∷ dps) r
skip_dp p (SearchedDps.missing a) = SearchedDps.missing (p, a)
skip_dp p (SearchedDps.found f) = SearchedDps.found (FirstDp.later p f)

search_dps-SearchedDps :
    (name : String) (dps : List Dp) → SearchedDps name dps (search_dps dps name)
unfolding search_dps
search_dps-SearchedDps name [] = SearchedDps.missing tt
search_dps-SearchedDps name (dp ∷ dps) = elim (Bool-cases (str_eq name dp.name)) [
  | inl e ↦ rw e (SearchedDps.found (FirstDp.here (sym ((eq_iff name dp.name).0 e))))
  | inr e ↦
      rw e
        (skip_dp (λ p. cc ((eq_iff name dp.name).1 (sym p), e)) (search_dps-SearchedDps name dps))
]

step_block :
    {name : String} (b : DpBlock) {bs : List DpBlock} {r : Option Dp} {rest : Option (Dp × DpBlock)}
    → SearchedDps name b.dp_list r
    → Searched name bs rest
    → Searched name (b ∷ bs) (found_in b r rest)
step_block b (SearchedDps.found f) s = Searched.found (FirstBlock.here f)
step_block b (SearchedDps.missing a) (Searched.missing c) = Searched.missing (a, c)
step_block b (SearchedDps.missing a) (Searched.found f) = Searched.found (FirstBlock.later a f)

search_blocks-Searched :
    (name : String) (bs : List DpBlock) → Searched name bs (search_blocks bs name)
unfolding search_blocks suns_search_dp_block_for_dp_by_name
search_blocks-Searched name [] = Searched.missing tt
search_blocks-Searched name (b ∷ bs) =
    step_block b (search_dps-SearchedDps name b.dp_list) (search_blocks-Searched name bs)

-- The search returns the first point with the name in the first block that has one, with that
-- block, and null exactly when no point of the model has the name.
pub suns_search_model_for_dp_by_name-Searched :
    (m : SunsModel) (name : String)
    → Searched name m.dp_blocks (suns_search_model_for_dp_by_name m name)
unfolding suns_search_model_for_dp_by_name
suns_search_model_for_dp_by_name-Searched m name = search_blocks-Searched name m.dp_blocks
