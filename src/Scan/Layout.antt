-- ===== src/Scan/Layout.antt =====
-- The registers of a SunSpec device, as the specification describes them: the signature, the
-- blocks of the models, each with its number and its length in front, and the end marker.
use sunspec.Prelude.{
  ℕ, zero, suc, ◌+◌, ◌-◌, ◌*◌, ◌%◌, ◌^◌, ◌≤◌, ◌<◌, Bool, true, false, some, none, List, [], ◌∷◌,
  ◌≡◌, ◌≢◌, refl, ap, ◌∙◌, arith, length, get_elem?, drop, ok,
}
use sunspec.Prelude.Bytes.{get16}
use sunspec.Model.{Dp, SunsModel, ModelDid, suns_find_did, suns_model_last_dp}
use sunspec.Decode.{Dataset, Notice, suns_decode_data}
use sunspec.Decode.Data.{BlocksHaveLen, suns_decode_data-BlocksRead}
use sunspec.Device.{attach_dataset}
use sunspec.Modbus.{slice, swap_all}
use sunspec.Modbus.Chunks.{length-slice}
use sunspec.Modbus.Swap.{length-swap_all, swap_all-get16}
use sunspec.Scan.{Tally, count_model, note_common, length_unexpected, is_signature}

-- Each block is its number and its length in registers.
pub data Layout (mem : ℕ → ℕ) : (at : ℕ) → List (ℕ × ℕ) → Type 0 where
  end : {at : ℕ} → mem at ≡ 0xFFFF → mem (at + 1) ≡ 0 → Layout mem at []
  block :
      {at did len : ℕ} {blocks : List (ℕ × ℕ)}
      → mem at ≡ did
      → mem (at + 1) ≡ len
      → did ≢ 0
      → did < 0xFFFF
      → len + 2 ≤ 1024
      → Layout mem (at + (len + 2)) blocks
      → Layout mem at ((did, len) ∷ blocks)

-- The first of the registers to search at which the signature "SunS" stands.
pub data FirstSignature (mem : ℕ → ℕ) : List ℕ → ℕ → Type 0 where
  here :
      {r : ℕ} {rs : List ℕ}
      → is_signature (some (slice mem (r - 1) 2)) ≡ true
      → FirstSignature mem (r ∷ rs) r
  later :
      {r base : ℕ} {rs : List ℕ}
      → is_signature (some (slice mem (r - 1) 2)) ≡ false
      → FirstSignature mem rs base
      → FirstSignature mem (r ∷ rs) base

abbrev pub with_dataset : ℕ → Dataset → Tally → Tally
with_dataset did dataset t =
    let noted = note_common did (count_model t) in
    record noted { device = attach_dataset noted.device dataset }

-- What the scan of the blocks from `at` on makes of a tally: a model with an unknown number is
-- only counted, the registers of another one are decoded and its dataset is attached.
pub data Attached (dids : List ModelDid) (mem : ℕ → ℕ)
    : (at : ℕ) → List (ℕ × ℕ) → Tally → Tally → Type 0 where
  nil : {at : ℕ} {t : Tally} → Attached dids mem at [] t t
  skip :
      {at did len : ℕ} {blocks : List (ℕ × ℕ)} {t t' : Tally}
      → suns_find_did dids did ≡ none
      → Attached dids mem (at + (len + 2)) blocks (count_model t) t'
      → Attached dids mem at ((did, len) ∷ blocks) t t'
  take :
      {at did len : ℕ} {blocks : List (ℕ × ℕ)} {t t' : Tally} (known : ModelDid) (dataset : Dataset)
      (notices : List Notice)
      → suns_find_did dids did ≡ some known
      → suns_decode_data dids (swap_all (slice mem at (len + 2))) ≡ ok (some dataset, notices)
      → dataset.did ≡ known
      → Attached dids mem (at + (len + 2)) blocks (with_dataset did dataset t) t'
      → Attached dids mem at ((did, len) ∷ blocks) t t'

-- What the reading of a device needs of a model: a last point, and a length in each repeating
-- block that makes the test of the device's length possible.
pub record ModelIsReadable (m : SunsModel) : Type 0 where
  pub blocks_have_len : BlocksHaveLen m.dp_blocks
  pub has_last : (dp : Dp) × (suns_model_last_dp m ≡ ok dp)
  pub length_test : (len : ℕ) → (b : Bool) × (length_unexpected m len ≡ ok b)

slice-get : (mem : ℕ → ℕ) (at n i : ℕ) → i < n → get_elem? (slice mem at n) i ≡ some (mem (at + i))
unfolding slice
slice-get mem at zero i h = absurd (omega arith)
slice-get mem at (suc n) zero h = let z : at ≡ at + 0 = omega arith in ap (λ k. some (mem k)) z
slice-get mem at (suc n) (suc i) h =
    let z : at + 1 + i ≡ at + suc i = omega arith in
    slice-get mem (at + 1) n i (omega arith) ∙ ap (λ k. some (mem k)) z

get16-swapped :
    (mem : ℕ → ℕ) (at n i : ℕ)
    → i < n
    → mem (at + i) < 2 ^ 16
    → get16 (drop (2 * i) (swap_all (slice mem at n))) ≡ ok (mem (at + i))
get16-swapped mem at n i h w =
    let fits : mem (at + i) % 2 ^ 16 ≡ mem (at + i) = omega arith in
    swap_all-get16 (slice mem at n) i (mem (at + i)) (slice-get mem at n i h) ∙ ap ok fits

-- The block of a model that can be read is decoded, by the theorem on `suns_decode_data`.
pub block-decoded :
    (dids : List ModelDid) (mem : ℕ → ℕ) (at : ℕ) {did len : ℕ} (known : ModelDid)
    → ((a : ℕ) → mem a < 2 ^ 16)
    → mem at ≡ did
    → mem (at + 1) ≡ len
    → suns_find_did dids did ≡ some known
    → ModelIsReadable known.model
    → (dataset : Dataset) × (notices : List Notice) × (suns_decode_data dids
          (swap_all (slice mem at (len + 2)))
        ≡ ok (some dataset, notices))
      × (dataset.did ≡ known)
block-decoded dids mem at {did} {len} known words e f found readable =
    let regs = slice mem at (len + 2) in
    let z : at + 0 ≡ at = omega arith in
    let d : get16 (swap_all regs) ≡ ok did =
      get16-swapped mem at (len + 2) 0 (omega arith) (words (at + 0)) ∙ ap ok (ap mem z ∙ e) in
    let l : get16 (drop 2 (swap_all regs)) ≡ ok len =
      get16-swapped mem at (len + 2) 1 (omega arith) (words (at + 1)) ∙ ap ok f in
    let size : len * 2 + 4 ≤ length (swap_all regs) =
      omega (arith, length-swap_all regs, length-slice mem at (len + 2)) in
    let (_, _, g, _, _, _) =
      suns_decode_data-BlocksRead dids known (swap_all regs) d l found size readable.blocks_have_len
        readable.has_last.1 in
    (_, _, g, refl)
