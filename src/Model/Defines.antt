-- ===== src/Model/Defines.antt =====
-- `suns_model_resolve_defines` gives each symbolic point the block of symbols that it names.
use sunspec.Prelude.{
  String, str_eq, eq_iff, Bool-cases, true, false, Option, none, some, List, [], ◌∷◌, ◌≡◌, ◌≢◌,
  refl, inl, inr,
}
use sunspec.Types.{suns_type_is_symbolic}
use sunspec.Value.{DefineBlock}
use sunspec.Model.{
  Dp, DpBlock, SunsModel, search_define_list, suns_search_define_blocks, resolve_name, resolve_dp,
  resolve_dps, resolve_blocks, suns_model_resolve_defines, or_else,
}

-- No block of the list has the name.
abbrev pub NoDefine : String → List DefineBlock → Type 0
NoDefine name [] = Unit {0}
NoDefine name (b ∷ bs) = (b.name ≢ name) × NoDefine name bs

-- `block` is the first of the list with the name.
pub data FirstDefine (name : String) (block : DefineBlock) : List DefineBlock → Type 0 where
  here : {bs : List DefineBlock} → block.name ≡ name → FirstDefine name block (block ∷ bs)
  later :
      {b : DefineBlock} {bs : List DefineBlock}
      → b.name ≢ name
      → FirstDefine name block bs
      → FirstDefine name block (b ∷ bs)

-- The block for a name: from the model's own list, or else from the parser's, or none.
pub data Chosen (list global : List DefineBlock) (name : String) : Option DefineBlock → Type 0 where
  own : {b : DefineBlock} → FirstDefine name b list → Chosen list global name (some b)
  shared :
      {b : DefineBlock}
      → NoDefine name list
      → FirstDefine name b global
      → Chosen list global name (some b)
  missing : NoDefine name list → NoDefine name global → Chosen list global name none

data Searched (name : String) (bs : List DefineBlock) : Option DefineBlock → Type 0 where
  absent : NoDefine name bs → Searched name bs none
  present : {b : DefineBlock} → FirstDefine name b bs → Searched name bs (some b)

skip_define :
    {name : String} {b : DefineBlock} {bs : List DefineBlock} {r : Option DefineBlock}
    → b.name ≢ name
    → Searched name bs r
    → Searched name (b ∷ bs) r
skip_define p (absent a) = absent (p, a)
skip_define p (present f) = present (FirstDefine.later p f)

search_define_list-Searched :
    (bs : List DefineBlock) (name : String) → Searched name bs (search_define_list bs name)
unfolding search_define_list
search_define_list-Searched [] name = absent tt
search_define_list-Searched (b ∷ bs) name = elim (Bool-cases (str_eq b.name name)) [
  | inl e ↦ rw e (present (FirstDefine.here ((eq_iff b.name name).0 e)))
  | inr e ↦
      rw e
        (skip_define (λ p. cc ((eq_iff b.name name).1 p, e)) (search_define_list-Searched bs name))
]

choose :
    {list global : List DefineBlock} {name : String} {r g : Option DefineBlock}
    → Searched name list r
    → Searched name global g
    → Chosen list global name (or_else r g)
choose (present f) s = own f
choose (absent a) (present f) = shared a f
choose (absent a) (absent b) = missing a b

-- `dp'` is the point `dp` with its block of symbols, if it is symbolic and names one.
pub data ResolvedDp (list global : List DefineBlock) (dp : Dp) : Dp → Type 0 where
  plain : suns_type_is_symbolic dp.type_pair.type ≡ false → ResolvedDp list global dp dp
  unnamed : dp.type_pair.name ≡ none → ResolvedDp list global dp dp
  defined :
      {name : String} (block : Option DefineBlock)
      → suns_type_is_symbolic dp.type_pair.type ≡ true
      → dp.type_pair.name ≡ some name
      → Chosen list global name block
      → ResolvedDp list global dp (record dp { type_pair = record dp.type_pair { define = block } })

abbrev pub ResolvedDps : (list global : List DefineBlock) → List Dp → List Dp → Type 0
ResolvedDps list global [] [] = Unit {0}
ResolvedDps list global (d ∷ ds) (e ∷ es) =
    ResolvedDp list global d e × ResolvedDps list global ds es
ResolvedDps list global _ _ = ⊥

abbrev pub ResolvedBlocks : (list global : List DefineBlock) → List DpBlock → List DpBlock → Type 0
ResolvedBlocks list global [] [] = Unit {0}
ResolvedBlocks list global (b ∷ bs) (c ∷ cs) =
    (c.repeating ≡ b.repeating)
    × (c.len ≡ b.len)
    × ResolvedDps list global b.dp_list c.dp_list
    × ResolvedBlocks list global bs cs
ResolvedBlocks list global _ _ = ⊥

module _ (list global : List DefineBlock) where
  by_name :
      (dp : Dp) (n : Option String)
      → suns_type_is_symbolic dp.type_pair.type ≡ true
      → dp.type_pair.name ≡ n
      → ResolvedDp list global dp (resolve_name list global n dp)
  unfolding suns_search_define_blocks
  by_name dp none s e = unnamed e
  by_name dp (some name) s e =
      defined _ s e
        (choose (search_define_list-Searched list name) (search_define_list-Searched global name))

  resolve_dp-ResolvedDp : (dp : Dp) → ResolvedDp list global dp (resolve_dp list global dp)
  unfolding resolve_dp
  resolve_dp-ResolvedDp dp = elim (Bool-cases (suns_type_is_symbolic dp.type_pair.type)) [
    | inl s ↦ rw s (by_name dp dp.type_pair.name s refl)
    | inr s ↦ rw s (plain s)
  ]

  resolve_dps-ResolvedDps :
      (dps : List Dp) → ResolvedDps list global dps (resolve_dps list global dps)
  unfolding resolve_dps
  resolve_dps-ResolvedDps [] = tt
  resolve_dps-ResolvedDps (dp ∷ dps) = (resolve_dp-ResolvedDp dp, resolve_dps-ResolvedDps dps)

  resolve_blocks-ResolvedBlocks :
      (bs : List DpBlock) → ResolvedBlocks list global bs (resolve_blocks list global bs)
  unfolding resolve_blocks
  resolve_blocks-ResolvedBlocks [] = tt
  resolve_blocks-ResolvedBlocks (b ∷ bs) =
      (refl, refl, resolve_dps-ResolvedDps b.dp_list, resolve_blocks-ResolvedBlocks bs)

-- The resolution keeps the blocks and their points, and changes at most the definition of a
-- symbolic point that names a block of symbols: it becomes the first block of that name in the
-- model's own list, or else the first in the parser's list, or null if neither has one.
pub suns_model_resolve_defines-ResolvedBlocks :
    (global : List DefineBlock) (m : SunsModel)
    → ResolvedBlocks m.defines global m.dp_blocks (suns_model_resolve_defines global m).dp_blocks
unfolding suns_model_resolve_defines
suns_model_resolve_defines-ResolvedBlocks global m =
    resolve_blocks-ResolvedBlocks m.defines global m.dp_blocks
