-- ===== src/Scan/Notes.antt =====
-- The blocks that a scan goes over, and what it notes of the first one.
use sunspec.Prelude.{
  ℕ, ◌+◌, ◌-◌, ◌<◌, Bool, true, false, ◌&&◌, Option, some, none, List, [], ◌∷◌, ◌≡◌, ◌≢◌, refl, sym,
  ◌∙◌, arith, ◌==◌, if◌then◌else◌, is_some, Run, ok, ◌>>=◌, Bool-cases, inl, inr,
}
use sunspec.Prelude.Bytes.{Bytes}
use sunspec.Prelude.Int.{pos}
use sunspec.Model.{ModelDid, suns_find_did}
use sunspec.Decode.{Dataset, Notice, suns_decode_data}
use sunspec.Device.{attach_dataset}
use sunspec.Modbus.{Fetched, got, lost, slice}
use sunspec.Scan.{
  Tally, count_model, note_common, Scanned, done, by_header, by_registers, by_run, is_signature,
  meet_block, take_block, attach, length_unexpected,
}
use sunspec.Scan.Result.{starts_common}

-- The blocks of models behind each other, each its number and its length, up to the end marker.
pub data Blocks (mem : ℕ → ℕ) : (at : ℕ) → List (ℕ × ℕ) → Type 0 where
  end : {at : ℕ} → mem at ≡ 0xFFFF → mem (at + 1) ≡ 0 → Blocks mem at []
  block :
      {at did len : ℕ} {blocks : List (ℕ × ℕ)}
      → mem at ≡ did
      → mem (at + 1) ≡ len
      → did ≢ 0
      → Blocks mem (at + (len + 2)) blocks
      → Blocks mem at ((did, len) ∷ blocks)

-- `base` is one of the registers, and the signature "SunS" stands there.
pub data Signed (mem : ℕ → ℕ) (base : ℕ) : List ℕ → Type 0 where
  here :
      {rs : List ℕ}
      → is_signature (some (slice mem (base - 1) 2)) ≡ true
      → Signed mem base (base ∷ rs)
  later : {r : ℕ} {rs : List ℕ} → Signed mem base rs → Signed mem base (r ∷ rs)

module _ {S : Type 0} {s' : S} {t' : Tally} where
  -- A result of 0 comes from the end of each step.
  pub by_header-done :
      (s : S) (t : Tally) (r : Option (List ℕ)) {next : ℕ → ℕ → Scanned S}
      → by_header s t r next ≡ done s' t' (pos 0)
      → (did len : ℕ) × (rest : List ℕ) × (r ≡ some (did ∷ len ∷ rest))
        × (next did len ≡ done s' t' (pos 0))
  by_header-done s t none h = absurd (cc h)
  by_header-done s t (some []) h = absurd (cc h)
  by_header-done s t (some (did ∷ [])) h = absurd (cc h)
  by_header-done s t (some (did ∷ len ∷ rest)) h = (did, len, rest, refl, h)

  pub by_registers-done :
      (t : Tally) (r : Fetched S) {next : S → List ℕ → Scanned S}
      → by_registers t r next ≡ done s' t' (pos 0)
      → (s : S) × (regs : List ℕ) × (next s regs ≡ done s' t' (pos 0))
  by_registers-done t (got s regs) h = (s, regs, h)
  by_registers-done t (lost s) h = absurd (cc h)
  by_registers-done t Fetched.fault h = absurd (cc h)
  by_registers-done t Fetched.out_of_fuel h = absurd (cc h)

  pub by_run-done :
      {A : Type 0} (r : Run A) {next : A → Scanned S}
      → by_run r next ≡ done s' t' (pos 0)
      → (x : A) × (r ≡ ok x) × (next x ≡ done s' t' (pos 0))
  by_run-done Run.fault h = absurd (cc h)
  by_run-done (ok x) h = (x, refl, h)

bound :
    {A B : Type 0} (r : Run A) (next : A → Run B) {y : B}
    → (r >>= next) ≡ ok y
    → (x : A) × (r ≡ ok x) × (next x ≡ ok y)
bound Run.fault next h = absurd (cc h)
bound (ok x) next h = (x, refl, h)

-- The number of models counted, and whether the common model was the first of them.
abbrev pub SameCount : (t t' : Tally) → Type 0
SameCount t t' =
    (t'.model_count ≡ t.model_count) × (t'.found_common_model_first ≡ t.found_common_model_first)

abbrev first_noted : (did : ℕ) → (known : Bool) → Tally → Bool
first_noted did known t =
    if (did == 1 && known) && t.model_count == 1 then true else t.found_common_model_first

note_common-first :
    (did : ℕ) (t : Tally)
    → ((note_common did t).model_count ≡ t.model_count)
      × ((note_common did t).found_common_model_first ≡ first_noted did true t)
unfolding note_common
note_common-first did t = elim (Bool-cases (did == 1)) [
  | inl e ↦ rw e (refl, refl)
  | inr e ↦ rw e (refl, refl)
]

meet_block-first :
    (did len : ℕ) (t met : Tally) (found : Option ModelDid)
    → meet_block did len t found ≡ ok met
    → (met.model_count ≡ t.model_count)
      × (met.found_common_model_first ≡ first_noted did (is_some found) t)
unfolding meet_block
meet_block-first did len t met none h =
    let same : t ≡ met = cc h in
    elim (Bool-cases (did == 1)) [
      | inl e ↦ rw (sym same, e) (refl, refl)
      | inr e ↦ rw (sym same, e) (refl, refl)
    ]
meet_block-first did len t met (some known) h =
    let (_, _, noted) = bound (length_unexpected known.model len) _ h in
    let same : note_common did t ≡ met = cc noted in rw (sym same) (note_common-first did t)

attach-SameCount :
    (met taken : Tally) (decoded : Option Dataset × List Notice)
    → attach met decoded ≡ ok taken
    → SameCount met taken
attach-SameCount met taken (none, ns) h = absurd (cc h)
attach-SameCount met taken (some dataset, ns) h =
    let same : record met { device = attach_dataset met.device dataset } ≡ taken = cc h in
    rw (sym same) (refl, refl)

pub take_block-SameCount :
    (dids : List ModelDid) (buf : Bytes) (met taken : Tally) (found : Option ModelDid)
    → take_block dids buf met found ≡ ok taken
    → SameCount met taken
unfolding take_block
take_block-SameCount dids buf met taken none h =
    let same : met ≡ taken = cc h in rw (sym same) (refl, refl)
take_block-SameCount dids buf met taken (some known) h =
    let (decoded, _, attached) = bound (suns_decode_data dids buf) (attach met) h in
    attach-SameCount met taken decoded attached

-- What the rest of a scan says of the first model: nothing once a model is counted.
pub record Noted (dids : List ModelDid) (blocks : List (ℕ × ℕ)) (t t' : Tally) : Type 0 where
  pub counted : 0 < t.model_count → t'.found_common_model_first ≡ t.found_common_model_first
  pub uncounted :
      t.model_count ≡ 0
      → t.found_common_model_first ≡ false
      → t'.found_common_model_first ≡ true
      → starts_common dids blocks ≡ true

not_again : (x c f : Bool) → c ≡ false → (if x && c then true else f) ≡ f
not_again true c f h = rw h refl
not_again false c f h = refl

only_then : (x c f : Bool) → f ≡ false → (if x && c then true else f) ≡ true → x ≡ true
only_then true c f h k = refl
only_then false c f h k = absurd (cc (sym h ∙ k))

pub Noted-block :
    (dids : List ModelDid) (did len : ℕ) (blocks : List (ℕ × ℕ)) (t met taken t' : Tally)
    → meet_block did len (count_model t) (suns_find_did dids did) ≡ ok met
    → SameCount met taken
    → Noted dids blocks taken t'
    → Noted dids ((did, len) ∷ blocks) t t'
Noted-block dids did len blocks t met taken t' meets same rest =
    let (n, first) = meet_block-first did len (count_model t) met (suns_find_did dids did) meets in
    let kept = rest.counted (omega (arith, n, same.0)) in
    let noted = kept ∙ same.1 ∙ first in
    record {
      counted = λ some_models.
          let second : (t.model_count + 1 == 1) ≡ false = ground arith in
          noted ∙ not_again (did == 1 && is_some (suns_find_did dids did)) _ _ second;
      uncounted = λ no_models unnoted found.
          only_then (did == 1 && is_some (suns_find_did dids did)) (t.model_count + 1 == 1) _
            unnoted (sym noted ∙ found);
    }
