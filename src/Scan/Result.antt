-- ===== src/Scan/Result.antt =====
-- The result code of reading a device: whether the common model stands first.
use sunspec.Prelude.{
  ℕ, ◌+◌, ◌^◌, ◌<◌, Bool, true, false, some, List, [], ◌∷◌, ◌≡◌, refl, ap, ◌∙◌, arith, length, ◌==◌,
  ◌&&◌, if◌then◌else◌, is_some, Bool-cases, inl, inr, ◌≤◌,
}
use sunspec.Prelude.Int.{pos, negsuc}
use sunspec.Model.{ModelDid, suns_find_did}
use sunspec.Decode.{Dataset}
use sunspec.Device.{Device}
use sunspec.Modbus.{Modbus, IsReliable, max_request}
use sunspec.Scan.{
  Tally, new_tally, count_model, note_common, done, final_rc, suns_app_read_device,
  search_registers,
}
use sunspec.Scan.Layout.{
  Layout, FirstSignature, Attached, nil, skip, take, with_dataset, ModelIsReadable,
}
use sunspec.Scan.Walk.{scan_models-Attached, find_base-first}

-- Whether the first block is that of the common model, and this model is known.
abbrev pub starts_common : List ModelDid → List (ℕ × ℕ) → Bool
starts_common dids [] = false
starts_common dids ((did, _) ∷ blocks) = did == 1 && is_some (suns_find_did dids did)

abbrev Kept : Tally → Tally → Type 0
Kept t t' =
    (0 < t'.model_count)
    × (t'.found_common_model_first ≡ t.found_common_model_first)
    × (t.found_common_model ≡ true → t'.found_common_model ≡ true)

with_dataset-Kept :
    (did : ℕ) (d : Dataset) (t : Tally) → 0 < t.model_count → Kept t (with_dataset did d t)
unfolding note_common
with_dataset-Kept did d t h =
    let later : (t.model_count + 1 == 1) ≡ false = ground arith in
    elim (Bool-cases (did == 1)) [
      | inl e ↦ rw (e, later) (omega arith, refl, λ _. refl)
      | inr e ↦ rw e (omega arith, refl, λ c. c)
    ]

and_false : (b : Bool) → (b && false) ≡ false
and_false true = refl
and_false false = refl

common_noted :
    (did : ℕ) (d : Dataset) (device : Device)
    → (0 < (with_dataset did d (new_tally device)).model_count)
      × ((with_dataset did d (new_tally device)).found_common_model ≡ (did == 1))
      × ((with_dataset did d (new_tally device)).found_common_model_first ≡ (did == 1))
unfolding note_common
common_noted did d device = elim (Bool-cases (did == 1)) [
  | inl e ↦ rw e (omega arith, refl, refl)
  | inr e ↦ rw e (omega arith, refl, refl)
]

module _ {dids : List ModelDid} {mem : ℕ → ℕ} where
  Attached-Kept :
      {at : ℕ} {blocks : List (ℕ × ℕ)} {t last : Tally}
      → Attached dids mem at blocks t last
      → 0 < t.model_count
      → Kept t last
  Attached-Kept nil h = (h, refl, λ c. c)
  Attached-Kept (skip e a) h = Attached-Kept a (omega arith)
  Attached-Kept (take {did = did} {t = t} known d ns e f g a) h =
      let (n, first, common) = with_dataset-Kept did d t h in
      let (n', first', common') = Attached-Kept a n in (n', first' ∙ first, λ c. common' (common c))

  Attached-final_rc :
      {at : ℕ} (blocks : List (ℕ × ℕ)) {device : Device} {last : Tally}
      → Attached dids mem at blocks (new_tally device) last
      → final_rc (record (count_model last) { found_end_marker = true }) (pos 0)
        ≡ (if starts_common dids blocks then pos 0 else negsuc 0)
  unfolding final_rc
  Attached-final_rc _ nil = refl
  Attached-final_rc _ {last = last} (skip {did = did} e a) =
      let (_, first, _) = Attached-Kept a (omega arith) in
      rw (first, e, and_false last.found_common_model, and_false (did == 1)) refl
  Attached-final_rc _ {device = device} {last = last} (take {did = did} known d ns e f g a) =
      let (n, common, first) = common_noted did d device in
      let (_, first', common') = Attached-Kept a n in
      elim (Bool-cases (did == 1)) [
        | inl q ↦ rw (first' ∙ first, common' (common ∙ q), e, q) refl
        | inr q ↦ rw (first' ∙ first, e, q, and_false last.found_common_model) refl
      ]

-- A line that answers each request for 1 to 125 registers, to a device of 16-bit registers: the
-- signature at one of the searched registers, none at those before it, and the blocks and the end
-- marker laid out behind it, each block within the buffer. All models of the table can be read,
-- and there is at least one try and a request size from 1 to 125. Then the reading ends, with no
-- fault, after one round more than there are blocks: every block of a known number was decoded
-- and its dataset attached, in order, the end marker was found, and the result is 0 exactly if
-- the first block is that of the common model, and -1 otherwise.
pub suns_app_read_device-Attached :
    (dids : List ModelDid) (mem : ℕ → ℕ) (m : Modbus) (retries max_read fuel : ℕ) (s : m.State)
    (device : Device) {base : ℕ} {blocks : List (ℕ × ℕ)}
    → IsReliable m mem
    → ((a : ℕ) → mem a < 2 ^ 16)
    → ((v : ℕ) (k : ModelDid) → suns_find_did dids v ≡ some k → ModelIsReadable k.model)
    → 0 < retries
    → 0 < max_read
    → max_read ≤ max_request
    → FirstSignature mem search_registers base
    → Layout mem (base + 1) blocks
    → length blocks < fuel
    → (s' : m.State) × (last : Tally) × (suns_app_read_device m dids retries max_read fuel s device
        ≡ done s'
            (record (count_model last) { found_end_marker = true })
            (if starts_common dids blocks then pos 0 else negsuc 0))
      × Attached dids mem (base + 1) blocks (new_tally device) last
unfolding suns_app_read_device
suns_app_read_device-Attached dids mem m retries max_read fuel s device {base} {blocks} line words
      wf t k few first layout h =
    let (s', e) =
      find_base-first dids mem words wf m line retries max_read base t k few search_registers s
        first in
    let (s'', last, f, a) =
      scan_models-Attached dids mem words wf m line retries max_read base t k few fuel s' (base + 1)
        2 (new_tally device) blocks layout (omega arith) (omega arith) h in
    let ended = record (count_model last) { found_end_marker = true } in
    (s'', last, rw (e, f) (ap (done s'' ended) (Attached-final_rc blocks a)), a)
