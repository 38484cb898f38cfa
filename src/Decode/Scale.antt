-- ===== src/Decode/Scale.antt =====
-- `suns_resolve_scale_factors`: what each value gets.
use sunspec.Decode.Named.{
  FirstNamed, NoneNamed, SearchedValues, missing, located, suns_search_value_list-SearchedValues,
}
use sunspec.Prelude.{
  String, true, false, Option, some, none, List, [], ◌∷◌, ◌≡◌, ◌≢◌, refl, inl, inr, Bool-cases,
  Bool, sym, ◌∙◌,
}
use sunspec.Prelude.Int.{ℤ, pos, negsuc, signed16}
use sunspec.Types.{SunsType, Meta, not_implemented, is_type, suns_type_is_numeric}
use sunspec.Value.{SunsValue, suns_value_get_sunssf, u16}
use sunspec.Decode.{
  is_not_implemented, with_sf, apply_sf, refer, resolve_value, resolve_values,
  suns_resolve_scale_factors,
}

-- The types with which a scale factor goes.
abbrev pub is_scalable : SunsType → Bool
is_scalable SunsType.int16 = true
is_scalable SunsType.uint16 = true
is_scalable SunsType.acc16 = true
is_scalable SunsType.int32 = true
is_scalable SunsType.float32 = true
is_scalable SunsType.acc32 = true
is_scalable SunsType.int64 = true
is_scalable SunsType.uint64 = true
is_scalable SunsType.float64 = true
is_scalable SunsType.acc64 = true
is_scalable _ = false

-- The value refers to `found`: its type is scalable, and `found` is the first value with the name
-- that its type pair gives.
pub record RefersTo (all : List SunsValue) (v found : SunsValue) : Type 0 where
  pub number : is_scalable v.tp.type ≡ true
  pub name : String
  pub name_is : v.tp.name ≡ some name
  pub first : FirstNamed name found all

-- `v'` is the value `v` after the resolution: it changes at most the scale factor, to the number
-- of the scale factor point that `v` refers to, or to 0 if the device does not implement that.
pub data Scaled (all : List SunsValue) (v : SunsValue) : SunsValue → Type 0 where
  no_number : is_scalable v.tp.type ≡ false → Scaled all v v
  no_name : v.tp.name ≡ none → Scaled all v v
  no_target : {name : String} → v.tp.name ≡ some name → NoneNamed name all → Scaled all v v
  scaled :
      {found v' : SunsValue}
      → RefersTo all v found
      → found.tp.type ≡ SunsType.sf
      → found.meta ≢ not_implemented
      → v' ≡ with_sf (signed16 (u16 found.value)) v
      → Scaled all v v'
  unimplemented :
      {found v' : SunsValue}
      → RefersTo all v found
      → found.tp.type ≡ SunsType.sf
      → found.meta ≡ not_implemented
      → v' ≡ with_sf (pos 0) v
      → Scaled all v v'

-- The value refers to a point that is no scale factor.
pub record Misdirected (all : List SunsValue) (v : SunsValue) : Type 0 where
  pub found : SunsValue
  pub refers : RefersTo all v found
  pub other_type : found.tp.type ≢ SunsType.sf

pub data ResolvedValue (all : List SunsValue) (v : SunsValue) : Option SunsValue → Type 0 where
  good : {v' : SunsValue} → Scaled all v v' → ResolvedValue all v (some v')
  bad : Misdirected all v → ResolvedValue all v none

is_not_implemented_iff :
    (m : Meta)
    → (is_not_implemented m ≡ true → m ≡ not_implemented)
      × (is_not_implemented m ≡ false → m ≢ not_implemented)
unfolding is_not_implemented
is_not_implemented_iff Meta.null = (λ h. cc, λ h p. cc)
is_not_implemented_iff not_implemented = (λ h. refl, λ h p. cc)
is_not_implemented_iff _ = (λ h. cc, λ h p. cc)

is_type-sf :
    (t : SunsType)
    → (is_type t SunsType.sf ≡ true → t ≡ SunsType.sf)
      × (is_type t SunsType.sf ≡ false → t ≢ SunsType.sf)
unfolding is_type
is_type-sf SunsType.sf = (λ h. refl, λ h p. cc h)
is_type-sf _ = (λ h. absurd (cc h), λ h p. cc p)

suns_type_is_numeric-is_scalable : (t : SunsType) → suns_type_is_numeric t ≡ is_scalable t
unfolding suns_type_is_numeric
suns_type_is_numeric-is_scalable SunsType.int16 = refl
suns_type_is_numeric-is_scalable _ = refl

module _ (all : List SunsValue) (v : SunsValue) (number : is_scalable v.tp.type ≡ true) where
  resolve_found :
      (found : SunsValue) → RefersTo all v found → ResolvedValue all v (apply_sf v (some found))
  unfolding suns_value_get_sunssf
  resolve_found found r = elim (Bool-cases (is_type found.tp.type SunsType.sf)) [
    | inr t ↦
        rw t
          (bad (record { found = found; refers = r; other_type = (is_type-sf found.tp.type).1 t }))
    | inl t ↦
        let sf = (is_type-sf found.tp.type).0 t in
        elim (Bool-cases (is_not_implemented found.meta)) [
          | inl n ↦
              rw (t, n) (good (unimplemented r sf ((is_not_implemented_iff found.meta).0 n) refl))
          | inr n ↦ rw (t, n) (good (scaled r sf ((is_not_implemented_iff found.meta).1 n) refl))
        ]
  ]

  resolve_searched :
      (name : String)
      → v.tp.name ≡ some name
      → {o : Option SunsValue} → SearchedValues name all o
      → ResolvedValue all v (apply_sf v o)
  resolve_searched name e (missing a) = good (no_target e a)
  resolve_searched name e (located {v = w} f) =
      resolve_found w (record { number = number; name = name; name_is = e; first = f })

  resolve_name : (n : Option String) → v.tp.name ≡ n → ResolvedValue all v (refer all v n)
  resolve_name none e = good (no_name e)
  resolve_name (some name) e =
      resolve_searched name e (suns_search_value_list-SearchedValues all name)

resolve_value-ResolvedValue :
    (all : List SunsValue) (v : SunsValue) → ResolvedValue all v (resolve_value all v)
unfolding resolve_value
resolve_value-ResolvedValue all v =
    let same = suns_type_is_numeric-is_scalable v.tp.type in
    elim (Bool-cases (suns_type_is_numeric v.tp.type)) [
      | inr n ↦ rw n (good (no_number (sym same ∙ n)))
      | inl n ↦ rw n (resolve_name all v (sym same ∙ n) v.tp.name refl)
    ]

-- The values and the result code: 0 if every value was resolved, -1 from the first value on that
-- refers to a point which is no scale factor.
pub data Resolved (all : List SunsValue) : List SunsValue → List SunsValue × ℤ → Type 0 where
  end : Resolved all [] ([], pos 0)
  step :
      {v v' : SunsValue} {vs out : List SunsValue} {rc : ℤ}
      → Scaled all v v'
      → Resolved all vs (out, rc)
      → Resolved all (v ∷ vs) (v' ∷ out, rc)
  bail :
      {v : SunsValue} {vs : List SunsValue}
      → Misdirected all v
      → Resolved all (v ∷ vs) (v ∷ vs, negsuc 0)

resolve_step :
    (all : List SunsValue) (v : SunsValue) (vs : List SunsValue) (r : List SunsValue × ℤ)
    {o : Option SunsValue}
    → ResolvedValue all v o
    → Resolved all vs r
    → Resolved all (v ∷ vs) (elim o [ none ↦ (v ∷ vs, negsuc 0) | some v' ↦ (v' ∷ r.0, r.1) ])
resolve_step all v vs r (good s) t = step s t
resolve_step all v vs r (bad m) t = bail m

resolve_values-Resolved : (all vs : List SunsValue) → Resolved all vs (resolve_values all vs)
unfolding resolve_values
resolve_values-Resolved all [] = end
resolve_values-Resolved all (v ∷ vs) =
    resolve_step all v vs (resolve_values all vs) (resolve_value-ResolvedValue all v)
      (resolve_values-Resolved all vs)

-- Each value of a numeric type that names a point of the dataset gets the number of the first value
-- with that name as its scale factor (0 if it is not implemented), a value without a name, or with
-- one that no value has, stays as it is, and nothing else changes. The result is 0, or -1 where the
-- named value is no scale factor: the resolution ends there and leaves the values from there on.
pub suns_resolve_scale_factors-Resolved :
    (values : List SunsValue) → Resolved values values (suns_resolve_scale_factors values)
unfolding suns_resolve_scale_factors
suns_resolve_scale_factors-Resolved values = resolve_values-Resolved values values
