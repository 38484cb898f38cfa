-- ===== src/Tests/ScanTests.antt =====
-- The reading of a device with a common model.
use mathlib.Core.Option.{some-injective}
use sunspec.Prelude.{
  ℕ, zero, suc, ◌+◌, ◌-◌, ◌^◌, ◌<◌, Bool, true, false, ◌≡◌, refl, sym, arith, inl, inr, some, List,
  [], ◌∷◌, get_or, ◌==◌, ok, Bool-cases, if◌then◌else◌,
}
use sunspec.Prelude.Int.{pos, negsuc}
use sunspec.Model.{ModelDid, suns_find_did, suns_model_last_dp, last}
use sunspec.Device.{suns_device_new}
use sunspec.Modbus.{Modbus, slice}
use sunspec.Scan.{
  Tally, new_tally, count_model, done, suns_app_read_device, search_registers, length_unexpected,
  tail_block,
}
use sunspec.Scan.Layout.{FirstSignature, end, block, Attached, ModelIsReadable}
use sunspec.Scan.Result.{starts_common, suns_app_read_device-Attached}
use sunspec.Scan.Notes.{Blocks, Signed}
use sunspec.Scan.Success.{suns_app_read_device-Signed}
use sunspec.Tests.{flat, did_of, line_to, line_to-IsReliable}

-- The signature, a block with the number 1 and two registers, and the end marker, from register
-- 40001 on, which has the address 40000.
abbrev contents : List ℕ
contents = 0x5375 ∷ 0x6e53 ∷ 1 ∷ 2 ∷ 7 ∷ 0xFFFE ∷ 0xFFFF ∷ 0 ∷ []

abbrev memory : ℕ → ℕ
memory a = get_or 0 contents (a - 40000)

abbrev AllWords : List ℕ → Type 0
AllWords [] = Unit {0}
AllWords (x ∷ xs) = (x < 2 ^ 16) × AllWords xs

get_or-word : (xs : List ℕ) (i : ℕ) → AllWords xs → get_or 0 xs i < 2 ^ 16
get_or-word [] i h = omega arith
get_or-word (x ∷ xs) zero h = h.0
get_or-word (x ∷ xs) (suc i) h = get_or-word xs i h.1

abbrev contents-AllWords : AllWords contents
contents-AllWords = (
  omega arith,
  (
    omega arith,
    (omega arith, (omega arith, (omega arith, (omega arith, (omega arith, (omega arith, tt)))))),
  ),
)

abbrev line : Modbus
line = line_to memory

abbrev known_dids : List ModelDid
known_dids = did_of 1 flat ∷ []

flat-length_test : (len : ℕ) → (b : Bool) × (length_unexpected flat len ≡ ok b)
unfolding length_unexpected tail_block
flat-length_test len = elim (Bool-cases (2 == len)) [
  | inl e ↦ (false, rw e refl)
  | inr e ↦ (false, rw e refl)
]

flat-IsReadable : ModelIsReadable flat
unfolding suns_model_last_dp last
flat-IsReadable = record {
  blocks_have_len = ((λ e. absurd (cc e)), tt);
  has_last = (_, refl);
  length_test = flat-length_test;
}

known-IsReadable :
    (v : ℕ) (k : ModelDid) → suns_find_did known_dids v ≡ some k → ModelIsReadable k.model
unfolding suns_find_did
known-IsReadable v k e = elim (Bool-cases (1 == v)) [
  | inl h ↦
      let same : k ≡ did_of 1 flat = sym (some-injective (did_of 1 flat) k (rw h at e)) in
      rw same flat-IsReadable
  | inr h ↦ absurd (cc (rw h at e))
]

suns_app_read_device-Attached_example :
    (s : ℕ) × (found : Tally) × (suns_app_read_device line known_dids 2 125 5 0 suns_device_new
      ≡ done s
          (record (count_model found) { found_end_marker = true })
          (if starts_common known_dids ((1, 2) ∷ []) then pos 0 else negsuc 0))
    × Attached known_dids memory 40002 ((1, 2) ∷ []) (new_tally suns_device_new) found
unfolding slice
suns_app_read_device-Attached_example =
    suns_app_read_device-Attached known_dids memory line 2 125 5 0 suns_device_new
      (line_to-IsReliable memory) (λ a. get_or-word contents (a - 40000) contents-AllWords)
      known-IsReadable (omega arith) (omega arith) (omega arith) (FirstSignature.here refl)
      (block refl refl (omega arith) (omega arith) (omega arith) (end refl refl)) (omega arith)

-- The same run, for its tally.
reading :
    (s : ℕ) × (found : Tally) × (suns_app_read_device line known_dids 2 125 5 0 suns_device_new
      ≡ done s
          (record (count_model found) { found_end_marker = true })
          (if starts_common known_dids ((1, 2) ∷ []) then pos 0 else negsuc 0))
    × Attached known_dids memory 40002 ((1, 2) ∷ []) (new_tally suns_device_new) found
unfolding slice
reading =
    suns_app_read_device-Attached known_dids memory line 2 125 5 0 suns_device_new
      (line_to-IsReliable memory) (λ a. get_or-word contents (a - 40000) contents-AllWords)
      known-IsReadable (omega arith) (omega arith) (omega arith) (FirstSignature.here refl)
      (block refl refl (omega arith) (omega arith) (omega arith) (end refl refl)) (omega arith)

suns_app_read_device-Signed_example :
    (base : ℕ) × (blocks : List (ℕ × ℕ)) × Signed memory base search_registers
    × Blocks memory (base + 1) blocks
    × (starts_common known_dids blocks ≡ true)
unfolding suns_find_did
suns_app_read_device-Signed_example =
    suns_app_read_device-Signed known_dids memory line 2 125 (line_to-IsReliable memory).honest 5 0
      reading.0 suns_device_new (record (count_model reading.1) { found_end_marker = true })
      reading.2
