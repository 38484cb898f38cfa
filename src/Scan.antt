-- ===== src/Scan.antt =====
-- Reading a device: `suns_app_read_device` of src/suns_app.c. Its messages and dumps are not
-- modelled. `regs[1024]` and `buf[2048]` are the two buffers of the function.
pub mod Layout
pub mod Success
pub mod Notes
pub mod Rounds
pub mod Walk
pub mod Result
use sunspec.Prelude.{
  ℕ, zero, suc, ◌+◌, ◌-◌, ◌*◌, ◌%◌, Bool, true, false, not, ◌&&◌, Option, some, none, List, [], ◌∷◌,
  ◌==◌, if◌then◌else◌, Run, ok, ◌>>=◌,
}
use sunspec.Prelude.Bytes.{Bytes}
use sunspec.Prelude.Int.{ℤ, pos, negsuc}
use sunspec.Model.{DpBlock, SunsModel, ModelDid, suns_find_did}
use sunspec.Decode.{Dataset, Notice, suns_decode_data, distance}
use sunspec.Device.{Device, attach_dataset}
use sunspec.Modbus.{
  Modbus, Reply, registers, illegal_address, failed, Fetched, got, lost, try_read,
  suns_app_read_registers, suns_app_swap_registers,
}

-- What the loop over the models keeps.
pub record Tally : Type 0 where
  pub model_count : ℕ
  pub found_common_model : Bool
  pub found_common_model_first : Bool
  pub found_end_marker : Bool
  pub device : Device

abbrev pub new_tally : Device → Tally
new_tally device = record {
  model_count = 0;
  found_common_model = false;
  found_common_model_first = false;
  found_end_marker = false;
  device = device;
}

-- The end of the loop with `rc`. A fault is an access outside an object, a null pointer or a
-- division by zero.
pub data Scanned (S : Type 0) : Type 0 where
  done : S → Tally → ℤ → Scanned S
  fault out_of_fuel : Scanned S

-- `did->model->dp_blocks->tail->data`
unfoldable pub tail_block : List DpBlock → Run DpBlock
tail_block [] = Run.fault
tail_block (b ∷ []) = ok b
tail_block (b ∷ c ∷ bs) = tail_block (c ∷ bs)

-- Whether the message about an unexpected length is printed.
unfoldable pub length_unexpected : SunsModel → ℕ → Run Bool
length_unexpected m len = do
  last ← tail_block m.dp_blocks
  let round = distance m.len m.base_len
  let uneven = not (distance len m.base_len % round == 0)
  let tested = if round == 0 then Run.fault else ok uneven
  if not (m.len == len) && last.repeating then tested else ok false

abbrev pub count_model : Tally → Tally
count_model t = record t { model_count = t.model_count + 1 }

-- The note on a model with the number `did` that is known.
unfoldable pub note_common : ℕ → Tally → Tally
note_common did t =
    if did == 1
    then record t {
      found_common_model = true;
      found_common_model_first = if t.model_count == 1 then true else t.found_common_model_first;
    }
    else t

-- The decoded data is used without a test for null.
abbrev pub attach : Tally → Option Dataset × List Notice → Run Tally
attach t (none, _) = Run.fault
attach t (some dataset, _) = ok (record t { device = attach_dataset t.device dataset })

-- The tests on the header of a block, before its registers are read.
unfoldable pub meet_block : (did len : ℕ) → Tally → Option ModelDid → Run Tally
meet_block did len t none = ok t
meet_block did len t (some known) = do _ ← length_unexpected known.model len; ok (note_common did t)

-- A block of a number that is known is decoded and attached; another one is skipped.
unfoldable pub take_block : List ModelDid → Bytes → Tally → Option ModelDid → Run Tally
take_block did_list buf t none = ok t
take_block did_list buf t (some known) = do
  decoded ← suns_decode_data did_list buf
  attach t decoded

-- The two registers of a header. An answer of fewer registers than asked for is no answer of
-- libmodbus; it is a fault here.
abbrev pub by_header : {S : Type 0} → S → Tally → Option (List ℕ) → (ℕ → ℕ → Scanned S) → Scanned S
by_header s t none next = done s t (negsuc 0)
by_header s t (some (did ∷ len ∷ _)) next = next did len
by_header s t (some _) next = fault

abbrev pub by_registers : {S : Type 0} → Tally → Fetched S → (S → List ℕ → Scanned S) → Scanned S
by_registers t (got s regs) next = next s regs
by_registers t (lost s) next = done s t (negsuc 0)
by_registers t Fetched.fault next = fault
by_registers t Fetched.out_of_fuel next = out_of_fuel

abbrev pub by_run : {S A : Type 0} → Run A → (A → Scanned S) → Scanned S
by_run Run.fault next = fault
by_run (ok x) next = next x

-- The search for the signature: the answer to the request for two registers, if any.
abbrev pub is_signature : Option (List ℕ) → Bool
is_signature (some (high ∷ low ∷ _)) = high == 0x5375 && low == 0x6e53
is_signature _ = false

-- One answer in the retry loop of the search, which an illegal address ends.
abbrev pub by_probe : {S : Type 0} → S → (again : S × Option (List ℕ)) → Reply → S × Option (List ℕ)
by_probe s again (registers rs) = (s, some rs)
by_probe s again illegal_address = (s, none)
by_probe s again failed = again

abbrev pub search_registers : List ℕ
search_registers = 40001 ∷ 1 ∷ 50001 ∷ 0x40001 ∷ []

-- The last tests of the function, on `rc`.
unfoldable pub final_rc : Tally → ℤ → ℤ
final_rc t rc =
    if t.found_common_model && t.found_common_model_first && t.found_end_marker
    then rc
    else negsuc 0

module _ (m : Modbus) (did_list : List ModelDid) (retries max_modbus_read : ℕ) where
  open m use {State, read_registers}

  unfoldable pub probe : ℕ → State → (addr : ℕ) → State × Option (List ℕ)
  probe zero s addr = (s, none)
  probe (suc tries) s addr =
      let (s', reply) = read_registers s addr 2 in by_probe s' (probe tries s' addr) reply

  -- The base register, or `none`.
  unfoldable pub find_base : List ℕ → State → State × Option ℕ
  find_base [] s = (s, none)
  find_base (r ∷ rs) s =
      let (s', answer) = probe retries s (r - 1) in
      let later = find_base rs s' in if is_signature answer then (s', some r) else later

  -- The loop over the models; `fuel` are the rounds that are left.
  unfoldable pub scan_models : ℕ → State → (base_register offset : ℕ) → Tally → Scanned State
  scan_models zero s base offset t = out_of_fuel
  scan_models (suc fuel) s base offset t =
      let at = base + offset - 1 in
      let (s', header) = try_read m retries s at 2 in
      by_header s' t header λ did len.
        let t' = count_model t in
        let known = suns_find_did did_list did in
        let block = by_run (meet_block did len t' known) λ met.
          by_registers met (suns_app_read_registers m retries max_modbus_read 1024 s' at (len + 2))
            λ s'' regs. by_run (suns_app_swap_registers 2048 regs) λ buf.
              by_run (take_block did_list buf met known)
                λ taken. scan_models fuel s'' base (offset + (len + 2)) taken in
        if did == 0xFFFF && len == 0x0000
        then done s' (record t' { found_end_marker = true }) (pos 0)
        else if did == 0
        then done s' t' (negsuc 0)
        else block

  abbrev pub finish : Scanned State → Scanned State
  finish (done s t rc) = done s t (final_rc t rc)
  finish fault = fault
  finish out_of_fuel = out_of_fuel

  abbrev pub from_base : ℕ → Device → State × Option ℕ → Scanned State
  from_base fuel device (s, none) = done s (new_tally device) (negsuc 0)
  from_base fuel device (s, some base) = finish (scan_models fuel s base 2 (new_tally device))

  unfoldable pub suns_app_read_device : ℕ → State → Device → Scanned State
  suns_app_read_device fuel s device = from_base fuel device (find_base search_registers s)
