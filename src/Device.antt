-- ===== src/Device.antt =====
-- A logical device: `suns_device_t`, `suns_device_add_dataset` and `suns_model_get_did_index` of
-- src/suns_model.c. Only the fields that these functions use are kept; a dataset is a value, so
-- `common` is the position in the list of the dataset that it points to.
pub mod Index
pub mod Numbering
use sunspec.Prelude.{
  ℕ, zero, suc, ◌+◌, String, Bool, true, false, Option, some, none, List, [], ◌∷◌, ◌++◌, ◌==◌,
  if◌then◌else◌, length, ◌||◌,
}
use sunspec.Value.{Payload, SunsValue}
use sunspec.Decode.{Dataset, suns_search_value_list}

pub record Device : Type 0 where
  pub datasets : List Dataset
  pub common : Option ℕ
  pub manufacturer : Option Payload
  pub model : Option Payload
  pub serial_number : Option Payload

abbrev pub suns_device_new : Device
suns_device_new = record {
  datasets = [];
  common = none;
  manufacturer = none;
  model = none;
  serial_number = none;
}

abbrev pub number : Dataset → ℕ
number d = d.did.did

-- The pointer is set only if the value is there.
abbrev cache : Option SunsValue → Option Payload → Option Payload
cache (some v) old = some v.value
cache none old = old

unfoldable pub add_common : Dataset → Device → Device
add_common dataset device = record device {
  manufacturer = cache (suns_search_value_list dataset.values "Mn") device.manufacturer;
  model = cache (suns_search_value_list dataset.values "Md") device.model;
  serial_number = cache (suns_search_value_list dataset.values "SN") device.serial_number;
}

-- The device, and the count of its datasets.
unfoldable pub suns_device_add_dataset : Device → Dataset → Device × ℕ
unfolding add_common
suns_device_add_dataset device dataset =
    let added = record device { datasets = device.datasets ++ dataset ∷ [] } in
    let rc = length added.datasets in
    (
      if number dataset == 1
          then add_common dataset (record added { common = some (length device.datasets) })
          else added,
      rc,
    )

abbrev pub with_index : ℕ → Dataset → Dataset
with_index i d = record d { index = i }

-- The last dataset of the list, its tail.
unfoldable pub tail : List Dataset → Option Dataset
tail [] = none
tail (d ∷ []) = some d
tail (d ∷ e ∷ ds) = tail (e ∷ ds)

unfoldable pub mark_tail : List Dataset → List Dataset
mark_tail [] = []
mark_tail (d ∷ []) = with_index 1 d ∷ []
mark_tail (d ∷ e ∷ ds) = d ∷ mark_tail (e ∷ ds)

abbrev pub last_found : Option Dataset → Option Dataset → Option Dataset
last_found (some d) now = some d
last_found none now = now

-- The loop over all datasets leaves the last one with the number.
unfoldable pub find_last : ℕ → List Dataset → Option Dataset
find_last did [] = none
find_last did (d ∷ ds) = last_found (find_last did ds) (if number d == did then some d else none)

unfoldable pub has : ℕ → List Dataset → Bool
has did [] = false
has did (d ∷ ds) = number d == did || has did ds

-- `found->index = 1` on that dataset.
unfoldable pub mark_last : ℕ → List Dataset → List Dataset
unfolding has
mark_last did [] = []
mark_last did (d ∷ ds) =
    if has did ds
    then d ∷ mark_last did ds
    else if number d == did
    then with_index 1 d ∷ ds
    else d ∷ ds

abbrev pub by_search : List Dataset → ℕ → Option Dataset → List Dataset × ℕ
by_search ds did none = (ds, 0)
by_search ds did (some found) =
    if found.index == 0 then (mark_last did ds, 2) else (ds, found.index + 1)

abbrev pub by_tail : List Dataset → ℕ → Option Dataset → List Dataset × ℕ
by_tail ds did none = by_search ds did (find_last did ds)
by_tail ds did (some last) =
    if number last == did
    then (if last.index == 0 then (mark_tail ds, 2) else (ds, last.index + 1))
    else by_search ds did (find_last did ds)

-- The datasets after the side effect, and the index.
unfoldable pub suns_model_get_did_index : List Dataset → ℕ → List Dataset × ℕ
suns_model_get_did_index ds did = if length ds == 0 then (ds, 0) else by_tail ds did (tail ds)

-- What `suns_app_read_device` does with a decoded dataset: the index, then the addition.
unfoldable pub attach_dataset : Device → Dataset → Device
attach_dataset device dataset =
    let (ds, i) = suns_model_get_did_index device.datasets (number dataset) in
    (suns_device_add_dataset (record device { datasets = ds }) (with_index i dataset)).0
