-- ===== src/Scan/Success.antt =====
-- What a result of 0 says about the device.
use mathlib.Core.Path.{subst}
use sunspec.Prelude.{
  ℕ, ◌+◌, ◌-◌, Bool, true, false, ◌&&◌, Option, some, none, List, ◌≡◌, refl, sym, ap, ◌∙◌, arith,
  if◌then◌else◌,
}
use sunspec.Prelude.Int.{ℤ, pos, negsuc}
use sunspec.Model.{ModelDid}
use sunspec.Device.{Device}
use sunspec.Modbus.{Modbus, IsHonest}
use sunspec.Scan.{
  Tally, new_tally, Scanned, done, fault, out_of_fuel, final_rc, finish, from_base,
  suns_app_read_device, find_base, search_registers, scan_models,
}
use sunspec.Scan.Result.{starts_common}
use sunspec.Scan.Notes.{Blocks, Signed}
use sunspec.Scan.Rounds.{find_base-Signed, scan_models-Noted}

-- A result of 0 comes from a result of 0 of the loop, with the common model found first.
all_three :
    (a b c : Bool) (rc : ℤ)
    → (if a && b && c then rc else negsuc 0) ≡ pos 0
    → (b ≡ true) × (rc ≡ pos 0)
all_three true true true rc h = (refl, h)
all_three true true false rc h = absurd (cc h)
all_three true false c rc h = absurd (cc h)
all_three false b c rc h = absurd (cc h)

final_rc-zero :
    (t : Tally) (rc : ℤ)
    → final_rc t rc ≡ pos 0
    → (t.found_common_model_first ≡ true) × (rc ≡ pos 0)
unfolding final_rc
final_rc-zero t rc h =
    all_three t.found_common_model t.found_common_model_first t.found_end_marker rc h

module _ (dids : List ModelDid) (mem : ℕ → ℕ) (m : Modbus) (retries max_read : ℕ) where
  finish-zero :
      (r : Scanned m.State) {s : m.State} {t : Tally}
      → finish m dids retries max_read r ≡ done s t (pos 0)
      → (r ≡ done s t (pos 0)) × (t.found_common_model_first ≡ true)
  finish-zero (done s' t' rc) {s} {t} h =
      let same_state : s' ≡ s = cc h in
      let same : t' ≡ t = cc h in
      let zero_rc : final_rc t' rc ≡ pos 0 = cc h in
      let (first, z) = final_rc-zero t' rc zero_rc in
      (
        rw (same_state, same, z) refl,
        ap (λ (u : Tally). u.found_common_model_first) (sym same) ∙ first,
      )
  finish-zero fault h = absurd (cc h)
  finish-zero out_of_fuel h = absurd (cc h)

  from_base-zero :
      (honest : IsHonest m mem) (fuel : ℕ) (device : Device) (r : m.State × Option ℕ) {s : m.State}
      {t : Tally}
      → ((b : ℕ) → r.1 ≡ some b → Signed mem b search_registers)
      → from_base m dids retries max_read fuel device r ≡ done s t (pos 0)
      → (base : ℕ) × (blocks : List (ℕ × ℕ)) × Signed mem base search_registers
        × Blocks mem (base + 1) blocks
        × (starts_common dids blocks ≡ true)
  from_base-zero honest fuel device (s', none) sign h = absurd (cc h)
  from_base-zero honest fuel device (s', some base) {s} {t} sign h =
      let (scanned, first) =
        finish-zero (scan_models m dids retries max_read fuel s' base 2 (new_tally device)) h in
      let (blocks, chain, noted) =
        scan_models-Noted dids mem m honest retries max_read fuel s' s base 2 (new_tally device) t
          (omega arith) scanned in
      let next : base + 2 - 1 ≡ base + 1 = omega arith in
      (
        base,
        blocks,
        sign base refl,
        subst (λ a. Blocks mem a blocks) next chain,
        noted.uncounted refl refl first,
      )

  -- Whatever else the line does, if its successful requests give the registers asked for, a reading
  -- with the result 0 has read from a SunSpec device: at one of the registers searched stands the
  -- signature, blocks with a number and a length stand behind each other from there on up to the end
  -- marker, and the first of them is that of the common model, which is known.
  pub suns_app_read_device-Signed :
      (honest : IsHonest m mem) (fuel : ℕ) (s s' : m.State) (device : Device) (t : Tally)
      → suns_app_read_device m dids retries max_read fuel s device ≡ done s' t (pos 0)
      → (base : ℕ) × (blocks : List (ℕ × ℕ)) × Signed mem base search_registers
        × Blocks mem (base + 1) blocks
        × (starts_common dids blocks ≡ true)
  unfolding suns_app_read_device
  suns_app_read_device-Signed honest fuel s s' device t h =
      from_base-zero honest fuel device (find_base m dids retries max_read search_registers s)
        (λ b e. find_base-Signed dids mem m honest retries max_read search_registers s e) h
