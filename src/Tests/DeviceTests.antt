-- ===== src/Tests/DeviceTests.antt =====
-- The datasets of a device, and its registers.
use sunspec.Prelude.{
  ℕ, zero, suc, ◌+◌, ◌*◌, ◌%◌, ◌^◌, ◌≡◌, refl, arith, some, List, [], ◌∷◌, length, drop, get_elem?,
  ok,
}
use sunspec.Prelude.Bytes.{Bytes, get16}
use sunspec.Decode.{Dataset}
use sunspec.Device.{Device, suns_device_new, attach_dataset, suns_model_get_did_index}
use sunspec.Device.Index.{searched, suns_model_get_did_index-searched}
use sunspec.Device.Numbering.{IsNumbered, count, attach_dataset-IsNumbered}
use sunspec.Modbus.{
  Modbus, Reply, registers, failed, slice, IsHonest, got, suns_app_read_registers,
  suns_app_swap_registers,
}
use sunspec.Modbus.Chunks.{Fetches, suns_app_read_registers-Fetches, suns_app_read_registers-slice}
use sunspec.Modbus.Swap.{suns_app_swap_registers-get16}
use sunspec.Tests.{modules, did_of, line_to, line_to-IsReliable}

abbrev dataset : ℕ → Dataset
dataset did = record { did = did_of did modules; values = []; index = 0 }

-- One dataset of each of two numbers.
abbrev pair : List Dataset
pair = dataset 1 ∷ dataset 103 ∷ []

suns_model_get_did_index-searched_example : suns_model_get_did_index pair 103 ≡ searched pair 103
suns_model_get_did_index-searched_example = suns_model_get_did_index-searched pair 103

abbrev holder : Device
holder = record suns_device_new { datasets = pair }

attach_dataset-IsNumbered_example : IsNumbered (attach_dataset holder (dataset 1)).datasets
unfolding count
attach_dataset-IsNumbered_example = attach_dataset-IsNumbered holder (dataset 1) (refl, (refl, tt))

-- Register `a` holds `a + 3`. Each request is counted; on the bad line, every second one fails.
abbrev shifted : ℕ → ℕ
shifted a = a + 3

abbrev on_odd : ℕ → Reply → Reply
on_odd zero r = failed
on_odd (suc _) r = r

abbrev bad_line : Modbus
bad_line = record {
  State = ℕ;
  read_registers = λ s addr n. (s + 1, on_odd (s % 2) (registers (slice shifted addr n)));
}

on_odd-answers :
    (k : ℕ) (xs : List ℕ) (rs : List ℕ) → on_odd k (registers xs) ≡ registers rs → rs ≡ xs
on_odd-answers zero xs rs e = absurd (cc e)
on_odd-answers (suc k) xs rs e = cc e

bad_line-IsHonest : IsHonest bad_line shifted
bad_line-IsHonest = record { answers = λ s addr n rs e. on_odd-answers (s % 2) _ rs e }

suns_app_read_registers-Fetches_example :
    Fetches Unit (slice shifted 10 5) (suns_app_read_registers bad_line 2 2 8 0 10 5)
suns_app_read_registers-Fetches_example =
    suns_app_read_registers-Fetches bad_line shifted bad_line-IsHonest 2 2 8 0 10 5 (omega arith)
      (omega arith)

suns_app_read_registers-slice_example :
    (s : ℕ) × (suns_app_read_registers (line_to shifted) 1 2 8 0 10 5 ≡ got s (slice shifted 10 5))
suns_app_read_registers-slice_example =
    suns_app_read_registers-slice (line_to shifted) shifted (line_to-IsReliable shifted) 1 2 8 0 10
      5 (omega arith) (omega arith) (omega arith) (omega arith)

abbrev three : List ℕ
three = 1 ∷ 0x1234 ∷ 0xFFFF ∷ []

suns_app_swap_registers-get16_example :
    (buf : Bytes) × (suns_app_swap_registers 8 three ≡ ok buf)
    × (length buf ≡ 2 * length three)
    × ((i r : ℕ) → get_elem? three i ≡ some r → get16 (drop (2 * i) buf) ≡ ok (r % 2 ^ 16))
suns_app_swap_registers-get16_example = suns_app_swap_registers-get16 8 three (omega arith)
