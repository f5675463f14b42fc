-- ===== src/Selection.antt =====
-- src/app/gui/core/dmn-device-selection-model.cpp: the devices to choose from, and the draft and the
-- saved choice. `std::stable_sort` is a stable insertion sort with the comparison of the source.
mod Distinct
mod Listing
mod Invariant
mod Monitoring
mod Sorted
mod Tests
use dmn.Prelude.{
  ℕ, zero, suc, Bool, true, false, not, ◌&&◌, ◌||◌, Option, none, some, List, [], ◌∷◌, ◌++◌, ltb,
  ◌==◌, if◌then◌else◌, length, take,
}
use dmn.Device.{DeviceIdentity, same_identity, contains_identity}
use dmn.Device.Display.{DeviceEntry, DeviceSortColumn, name, is_nil, normalize_identity, precedes}

pub record SelectionModel : Type 0 where
  pub selection_limit : ℕ
  pub devices : List DeviceEntry
  pub saved_selection : List DeviceIdentity
  pub draft_selection : List DeviceIdentity
  pub sort_column : DeviceSortColumn
  pub sort_ascending : Bool

-- The constructor throws on a limit of 0.
pub new : ℕ → Option SelectionModel
new limit =
    if limit == 0
    then none
    else some (record {
      selection_limit = limit;
      devices = [];
      saved_selection = [];
      draft_selection = [];
      sort_column = name;
      sort_ascending = true;
    })

-- An equal device that came later stays behind.
pub place : (DeviceEntry → DeviceEntry → Bool) → DeviceEntry → List DeviceEntry → List DeviceEntry
place before d [] = d ∷ []
place before d (e ∷ es) =
    let rest = place before d es in if before e d then e ∷ rest else d ∷ e ∷ es

pub stable_sort : (DeviceEntry → DeviceEntry → Bool) → List DeviceEntry → List DeviceEntry
unfolding place
stable_sort before [] = []
stable_sort before (d ∷ ds) = place before d (stable_sort before ds)

pub apply_sort : SelectionModel → SelectionModel
apply_sort m = record m {
  devices = stable_sort (precedes m.sort_column m.sort_ascending) m.devices;
}

pub sort_devices : DeviceSortColumn → Bool → SelectionModel → SelectionModel
unfolding apply_sort
sort_devices column ascending m =
    apply_sort (record m { sort_column = column; sort_ascending = ascending })

pub present_only : List DeviceEntry → List DeviceEntry
present_only [] = []
present_only (d ∷ ds) = let rest = present_only ds in if d.present then d ∷ rest else rest

pub lists : List DeviceEntry → DeviceIdentity → Bool
lists [] i = false
lists (d ∷ ds) i = let rest = lists ds i in same_identity d.identity i || rest

abbrev pub unavailable_entry : DeviceIdentity → DeviceEntry
unavailable_entry i = record {
  identity = i;
  display_name = i.device_address;
  paired = none;
  connected = none;
  present = false;
  seen_during_discovery = false;
}

-- The loop of `mergeSavedDevices`.
pub add_missing : List DeviceIdentity → List DeviceEntry → List DeviceEntry
unfolding lists
add_missing [] ds = ds
add_missing (i ∷ is) ds = add_missing is (if lists ds i then ds else ds ++ unavailable_entry i ∷ [])

pub merge_saved_devices : SelectionModel → SelectionModel
unfolding apply_sort present_only add_missing
merge_saved_devices m =
    apply_sort (record m { devices = add_missing m.saved_selection (present_only m.devices) })

normalize_devices : List DeviceEntry → List DeviceEntry
normalize_devices [] = []
normalize_devices (d ∷ ds) =
    record d { identity = normalize_identity d.identity } ∷ normalize_devices ds

pub replace_inventory : List DeviceEntry → SelectionModel → SelectionModel
unfolding merge_saved_devices normalize_devices
replace_inventory inventory m =
    merge_saved_devices (record m { devices = normalize_devices inventory })

-- The loop of `loadSavedSelection`, over the identities kept so far.
pub normalized : List DeviceIdentity → List DeviceIdentity → List DeviceIdentity
normalized [] kept = kept
normalized (i ∷ is) kept =
    let stable = normalize_identity i in
    normalized is (
      if is_nil stable.adapter_address || is_nil stable.device_address
      then kept
      else if contains_identity kept stable
      then kept
      else kept ++ stable ∷ [])

pub load_saved_selection : List DeviceIdentity → SelectionModel → SelectionModel
unfolding normalized merge_saved_devices
load_saved_selection selection m =
    let kept = take m.selection_limit (normalized selection []) in
    merge_saved_devices (record m { saved_selection = kept; draft_selection = kept })

pub erase : DeviceIdentity → List DeviceIdentity → List DeviceIdentity
erase i [] = []
erase i (x ∷ xs) = let rest = erase i xs in if same_identity x i then xs else x ∷ rest

pub presents : List DeviceEntry → DeviceIdentity → Bool
presents [] i = false
presents (d ∷ ds) i = let rest = presents ds i in (same_identity d.identity i && d.present) || rest

pub set_draft_selected : DeviceIdentity → Bool → SelectionModel → SelectionModel × Bool
unfolding erase presents
set_draft_selected identity selected m =
    let i = normalize_identity identity in
    let drafted = contains_identity m.draft_selection i in
    if not selected && drafted
    then (record m { draft_selection = erase i m.draft_selection }, true)
    else if not (presents m.devices i) && not (contains_identity m.saved_selection i)
    then (m, false)
    else if not selected
    then (m, true)
    else if drafted
    then (m, true)
    else if length m.draft_selection == m.selection_limit
    then (m, false)
    else (record m { draft_selection = m.draft_selection ++ i ∷ [] }, true)

pub save_selection : SelectionModel → SelectionModel
unfolding merge_saved_devices
save_selection m = merge_saved_devices (record m { saved_selection = m.draft_selection })

pub discard_changes : SelectionModel → SelectionModel
unfolding merge_saved_devices
discard_changes m = merge_saved_devices (record m { draft_selection = m.saved_selection })

same_selection : List DeviceIdentity → List DeviceIdentity → Bool
same_selection [] [] = true
same_selection [] (j ∷ js) = false
same_selection (i ∷ is) [] = false
same_selection (i ∷ is) (j ∷ js) = let rest = same_selection is js in same_identity i j && rest

pub has_unsaved_changes : SelectionModel → Bool
unfolding same_selection
has_unsaved_changes m = not (same_selection m.saved_selection m.draft_selection)

all_present : List DeviceIdentity → List DeviceEntry → Bool
unfolding presents
all_present [] ds = true
all_present (i ∷ is) ds = let rest = all_present is ds in presents ds i && rest

abbrev pub no_identity : List DeviceIdentity → Bool
no_identity [] = true
no_identity (i ∷ is) = false

pub can_start_monitoring : SelectionModel → Bool
unfolding has_unsaved_changes all_present
can_start_monitoring m =
    if has_unsaved_changes m || no_identity m.saved_selection
    then false
    else all_present m.saved_selection m.devices
