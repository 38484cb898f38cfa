-- ===== src/Model/Check.antt =====
-- `suns_check_scale_factors` accepts exactly the models whose scale factors resolve.
use mathlib.Core.Option.{some-injective}
use sunspec.Prelude.{
  ◌⊎◌, String, Bool, true, false, Option, none, some, List, [], ◌∷◌, ◌≡◌, ◌↔◌, refl, arith,
  Bool-cases, inl, inr, not, ◌&&◌, if◌then◌else◌,
}
use sunspec.Prelude.Int.{ℤ, pos, negsuc}
use sunspec.Types.{suns_type_is_numeric}
use sunspec.Model.{
  Dp, DpBlock, SunsModel, suns_search_model_for_dp_by_name, reference_ok, checked_name, dp_ok,
  check_dps, check_blocks, suns_check_scale_factors,
}

-- The scale factor that a numeric point names is a point of the model, and it repeats only if the
-- point does.
abbrev pub Resolves : SunsModel → DpBlock → Dp → Type 0
Resolves m block dp =
    (name : String)
    → suns_type_is_numeric dp.type_pair.type ≡ true
    → dp.type_pair.name ≡ some name
    → (sf : Dp) × (holder : DpBlock) × (suns_search_model_for_dp_by_name m name ≡ some (sf, holder))
      × (block.repeating ≡ false → holder.repeating ≡ false)

abbrev pub ResolveAll : SunsModel → DpBlock → List Dp → Type 0
ResolveAll m block [] = Unit {0}
ResolveAll m block (dp ∷ dps) = Resolves m block dp × ResolveAll m block dps

abbrev pub ResolveBlocks : SunsModel → List DpBlock → Type 0
ResolveBlocks m [] = Unit {0}
ResolveBlocks m (block ∷ blocks) = ResolveAll m block block.dp_list × ResolveBlocks m blocks

Accepted : DpBlock → Option (Dp × DpBlock) → Type 0
Accepted block r =
    (sf : Dp) × (holder : DpBlock) × (r ≡ some (sf, holder))
    × (block.repeating ≡ false → holder.repeating ≡ false)

not_and : (a b : Bool) → (a ≡ false → b ≡ false) → not (not a && b) ≡ true
not_and true b h = refl
not_and false b h = rw (h refl)

reference_ok_iff :
    (block : DpBlock) (r : Option (Dp × DpBlock)) → (reference_ok block r ≡ true) ↔ Accepted block r
unfolding Accepted
reference_ok_iff block none = (λ h. absurd (cc h), λ a. absurd (cc (a.2)))
reference_ok_iff block (some (sf, holder)) = (
  λ h. (sf, holder, refl, λ p. ground arith),
  λ (s, b, e, k). let same : holder ≡ b = cc e in rw same (not_and block.repeating b.repeating k),
)

-- One point, by whether it is numeric and by the name that it refers to.
checked_name_iff :
    (m : SunsModel) (block : DpBlock) (numeric : Bool) (n : Option String)
    → ((if numeric then checked_name m block n else true) ≡ true) ↔ (
        (name : String)
        → numeric ≡ true
        → n ≡ some name
        → Accepted block (suns_search_model_for_dp_by_name m name))
checked_name_iff m block false n = (λ h name p e. absurd (cc p), λ a. refl)
checked_name_iff m block true none = (λ h name p e. absurd (cc e), λ a. refl)
checked_name_iff m block true (some n) =
    let r = reference_ok_iff block (suns_search_model_for_dp_by_name m n) in
    (λ h name p e. rw (some-injective n name e) at (r.0 h), λ a. r.1 (a n refl refl))

dp_ok_iff :
    (m : SunsModel) (block : DpBlock) (dp : Dp) → (dp_ok m block dp ≡ true) ↔ Resolves m block dp
unfolding dp_ok Accepted
dp_ok_iff m block dp =
    checked_name_iff m block (suns_type_is_numeric dp.type_pair.type) dp.type_pair.name

-- Once `rc` is -1 it stays -1.
check_dps-fail :
    (m : SunsModel) (block : DpBlock) (dps : List Dp) → check_dps m block dps (negsuc 0) ≡ negsuc 0
unfolding check_dps
check_dps-fail m block [] = refl
check_dps-fail m block (dp ∷ dps) = elim (Bool-cases (dp_ok m block dp)) [
  | inl e ↦ rw e (check_dps-fail m block dps)
  | inr e ↦ rw e (check_dps-fail m block dps)
]

check_blocks-fail : (m : SunsModel) (bs : List DpBlock) → check_blocks m bs (negsuc 0) ≡ negsuc 0
unfolding check_blocks
check_blocks-fail m [] = refl
check_blocks-fail m (b ∷ bs) = rw (check_dps-fail m b b.dp_list) (check_blocks-fail m bs)

-- The loops return 0 or -1.
data Checked (P : Type 0) : ℤ → Type 0 where
  passed : P → Checked P (pos 0)
  failed : ¬ P → Checked P (negsuc 0)

both : {P Q : Type 0} {z : ℤ} → P → Checked Q z → Checked (P × Q) z
both p (passed q) = passed (p, q)
both p (failed n) = failed (λ a. n a.1)

check_dps-Checked :
    (m : SunsModel) (block : DpBlock) (dps : List Dp)
    → Checked (ResolveAll m block dps) (check_dps m block dps (pos 0))
unfolding check_dps
check_dps-Checked m block [] = passed tt
check_dps-Checked m block (dp ∷ dps) = elim (Bool-cases (dp_ok m block dp)) [
  | inl e ↦ rw e (both ((dp_ok_iff m block dp).0 e) (check_dps-Checked m block dps))
  | inr e ↦ rw (e, check_dps-fail m block dps) (failed (λ a. cc ((dp_ok_iff m block dp).1 a.0, e)))
]

next :
    {P Q : Type 0} (m : SunsModel) (b : DpBlock) (bs : List DpBlock) {z : ℤ}
    → Checked P z
    → Checked Q (check_blocks m bs (pos 0))
    → Checked (P × Q) (check_blocks m bs z)
next m b bs (passed p) c = both p c
next m b bs (failed n) c = rw (check_blocks-fail m bs) (failed (λ a. n a.0))

read_result :
    {P : Type 0} {z : ℤ} → Checked P z → ((z ≡ pos 0) ↔ P) × ((z ≡ pos 0) ⊎ (z ≡ negsuc 0))
read_result (passed p) = ((λ _. p, λ _. refl), inl refl)
read_result (failed n) = ((λ e. absurd (cc e), λ p. absurd (n p)), inr refl)

check_blocks-Checked :
    (m : SunsModel) (bs : List DpBlock) → Checked (ResolveBlocks m bs) (check_blocks m bs (pos 0))
unfolding check_blocks
check_blocks-Checked m [] = passed tt
check_blocks-Checked m (b ∷ bs) =
    next m b bs (check_dps-Checked m b b.dp_list) (check_blocks-Checked m bs)

-- The check returns 0 exactly when every numeric point's scale factor is a point of the model
-- that repeats only if the point does, and -1 otherwise.
pub suns_check_scale_factors_iff :
    (m : SunsModel)
    → ((suns_check_scale_factors m ≡ pos 0) ↔ ResolveBlocks m m.dp_blocks)
      × ((suns_check_scale_factors m ≡ pos 0) ⊎ (suns_check_scale_factors m ≡ negsuc 0))
unfolding suns_check_scale_factors
suns_check_scale_factors_iff m = read_result (check_blocks-Checked m m.dp_blocks)
