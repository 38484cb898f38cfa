-- ===== src/Decode/Named.antt =====
-- `suns_search_value_list` finds the first value with a name.
use sunspec.Prelude.{
  String, eq_iff, Bool-cases, true, false, Option, none, some, List, [], ◌∷◌, ◌≡◌, ◌≢◌, sym, ap,
  inl, inr,
}
use mathlib.Core.Option.{some-injective}
use sunspec.Value.{SunsValue}
use sunspec.Decode.{same_name, suns_search_value_list}

-- `v` is the first value of the list with the name.
pub data FirstNamed (name : String) (v : SunsValue) : List SunsValue → Type 0 where
  here : {vs : List SunsValue} → v.name ≡ some name → FirstNamed name v (v ∷ vs)
  later :
      {u : SunsValue} {vs : List SunsValue}
      → u.name ≢ some name
      → FirstNamed name v vs
      → FirstNamed name v (u ∷ vs)

-- No value of these has the name.
abbrev pub NoneNamed : String → List SunsValue → Type 0
NoneNamed name [] = Unit {0}
NoneNamed name (v ∷ vs) = (v.name ≢ some name) × NoneNamed name vs

pub data SearchedValues (name : String) (vs : List SunsValue) : Option SunsValue → Type 0 where
  missing : NoneNamed name vs → SearchedValues name vs none
  located : {v : SunsValue} → FirstNamed name v vs → SearchedValues name vs (some v)

same_name_iff :
    (name : String) (n : Option String)
    → (same_name name n ≡ true → n ≡ some name) × (same_name name n ≡ false → n ≢ some name)
same_name_iff name none = (λ h. absurd (cc h), λ h p. cc p)
same_name_iff name (some n) = (
  λ h. ap some (sym ((eq_iff name n).0 h)),
  λ h p. cc ((eq_iff name n).1 (sym (some-injective n name p)), h),
)

skip_value :
    {name : String} {u : SunsValue} {vs : List SunsValue} {r : Option SunsValue}
    → u.name ≢ some name
    → SearchedValues name vs r
    → SearchedValues name (u ∷ vs) r
skip_value p (missing a) = missing (p, a)
skip_value p (located f) = located (later p f)

pub suns_search_value_list-SearchedValues :
    (vs : List SunsValue) (name : String) → SearchedValues name vs (suns_search_value_list vs name)
unfolding suns_search_value_list
suns_search_value_list-SearchedValues [] name = missing tt
suns_search_value_list-SearchedValues (v ∷ vs) name = elim (Bool-cases (same_name name v.name)) [
  | inl e ↦ rw e (located (here ((same_name_iff name v.name).0 e)))
  | inr e ↦
      rw e (
        skip_value ((same_name_iff name v.name).1 e)
          (suns_search_value_list-SearchedValues vs name))
]
