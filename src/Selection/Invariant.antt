-- ===== src/Selection/Invariant.antt =====
-- src/app/gui/core/dmn-device-selection-model.cpp: what every sequence of calls keeps.
use dmn.Prelude.{
  ℕ, ◌≤◌, ◌≡◌, ◌≢◌, inl, inr, Bool, false, not, ◌&&◌, some, List, [], ◌∷◌, ◌++◌, ◌==◌, length, take,
  arith, Bool-cases, length-append, length-take,
}
use dmn.Device.{DeviceIdentity, contains_identity}
use dmn.Device.Display.{DeviceEntry, DeviceSortColumn, normalize_identity, precedes}
use dmn.Selection.{
  normalize_devices, SelectionModel, new, apply_sort, sort_devices, present_only, add_missing,
  merge_saved_devices, replace_inventory, normalized, load_saved_selection, erase, presents,
  set_draft_selected, save_selection, discard_changes,
}
use dmn.Selection.Distinct.{
  Distinct, Distinct-take, Distinct-normalized, Distinct-erase, Distinct-append_one, length-erase,
}
use dmn.Selection.Listing.{
  Listed, Listed-add_missing, Listed-stable_sort, Explained, Explained-present_only,
  Explained-add_missing, Explained-stable_sort, Among-self,
}

-- The choices: within the limit, and nothing twice.
pub record Chosen (limit : ℕ) (is : List DeviceIdentity) : Type 0 where
  pub bounded : length is ≤ limit
  pub distinct : Distinct is

pub record IsValid (m : SelectionModel) : Type 0 where
  pub saved : Chosen m.selection_limit m.saved_selection
  pub draft : Chosen m.selection_limit m.draft_selection
  pub listed : Listed m.saved_selection m.devices
  pub explained : Explained m.saved_selection m.devices

merge-IsValid :
    (m : SelectionModel)
    → Chosen m.selection_limit m.saved_selection
    → Chosen m.selection_limit m.draft_selection
    → IsValid (merge_saved_devices m)
unfolding merge_saved_devices apply_sort
merge-IsValid m s d =
    let merged = add_missing m.saved_selection (present_only m.devices) in
    let before = precedes m.sort_column m.sort_ascending in
    record {
      saved = s;
      draft = d;
      listed =
          Listed-stable_sort before m.saved_selection merged
            (Listed-add_missing m.saved_selection (present_only m.devices));
      explained = Explained-stable_sort m.saved_selection before merged (
          Explained-add_missing m.saved_selection m.saved_selection (present_only m.devices)
            (Among-self m.saved_selection) (Explained-present_only m.saved_selection m.devices));
    }

sort-IsValid :
    (column : DeviceSortColumn) (ascending : Bool) (m : SelectionModel)
    → IsValid m
    → IsValid (sort_devices column ascending m)
unfolding sort_devices apply_sort
sort-IsValid column ascending m v = record {
  saved = v.saved;
  draft = v.draft;
  listed = Listed-stable_sort (precedes column ascending) m.saved_selection m.devices v.listed;
  explained =
      Explained-stable_sort m.saved_selection (precedes column ascending) m.devices v.explained;
}

load-IsValid : (is : List DeviceIdentity) (m : SelectionModel) → IsValid (load_saved_selection is m)
unfolding load_saved_selection
load-IsValid is m =
    let kept = take m.selection_limit (normalized is []) in
    let choice : Chosen m.selection_limit kept = record {
      bounded = omega (arith, length-take m.selection_limit (normalized is []));
      distinct = Distinct-take m.selection_limit (normalized is []) (Distinct-normalized is [] tt);
    } in
    merge-IsValid (record m { saved_selection = kept; draft_selection = kept }) choice choice

redrafted :
    (m : SelectionModel) (is : List DeviceIdentity)
    → IsValid m
    → Chosen m.selection_limit is
    → IsValid (record m { draft_selection = is })
redrafted m is v c = record {
  saved = v.saved;
  draft = c;
  listed = v.listed;
  explained = v.explained;
}

added_one :
    (limit : ℕ) (is : List DeviceIdentity) (i : DeviceIdentity)
    → Chosen limit is
    → contains_identity is i ≡ false
    → (length is == limit) ≡ false
    → Chosen limit (is ++ i ∷ [])
added_one limit is i c h room =
    let len = length-append is (i ∷ []) in
    let bound = c.bounded in
    let other : length is ≢ limit = λ e. ground arith in
    record { bounded = omega arith; distinct = Distinct-append_one is i c.distinct h }

draft-IsValid :
    (identity : DeviceIdentity) (selected : Bool) (m : SelectionModel)
    → IsValid m
    → IsValid (set_draft_selected identity selected m).0
unfolding set_draft_selected
draft-IsValid identity selected m v =
    let i = normalize_identity identity in
    let erased : Chosen m.selection_limit (erase i m.draft_selection) = record {
      bounded = omega (arith, length-erase i m.draft_selection, v.draft.bounded);
      distinct = Distinct-erase i m.draft_selection v.draft.distinct;
    } in
    let there = contains_identity m.draft_selection i in
    let unknown = not (presents m.devices i) && not (contains_identity m.saved_selection i) in
    elim (Bool-cases selected) [
      | inr off ↦ elim (Bool-cases there) [
        | inl gone ↦ simp (off, gone) (redrafted m _ v erased)
        | inr missing ↦ elim (Bool-cases unknown) [
          | inl bad ↦ simp (off, missing, bad) v
          | inr good ↦ simp (off, missing, good) v
        ]
      ]
      | inl on ↦ elim (Bool-cases unknown) [
        | inl bad ↦ simp (on, bad) v
        | inr good ↦ elim (Bool-cases there) [
          | inl old ↦ simp (on, good, old) v
          | inr missing ↦ elim (Bool-cases (length m.draft_selection == m.selection_limit)) [
            | inl full ↦ simp (on, good, missing, full) v
            | inr room ↦
                simp (on, good, missing, room)
                  (redrafted m _ v
                    (added_one m.selection_limit m.draft_selection i v.draft missing room))
          ]
        ]
      ]
    ]

pub data Command : Type 0 where
  replaces : List DeviceEntry → Command
  loads : List DeviceIdentity → Command
  drafts : DeviceIdentity → Bool → Command
  saves discards : Command
  sorts : DeviceSortColumn → Bool → Command

abbrev pub apply : Command → SelectionModel → SelectionModel
apply (replaces inventory) m = replace_inventory inventory m
apply (loads is) m = load_saved_selection is m
apply (drafts i selected) m = (set_draft_selected i selected m).0
apply saves m = save_selection m
apply discards m = discard_changes m
apply (sorts column ascending) m = sort_devices column ascending m

pub history : List Command → SelectionModel → SelectionModel
history [] m = m
history (c ∷ cs) m = history cs (apply c m)

apply-IsValid : (c : Command) (m : SelectionModel) → IsValid m → IsValid (apply c m)
unfolding replace_inventory save_selection discard_changes
apply-IsValid (replaces inventory) m v =
    merge-IsValid (record m { devices = normalize_devices inventory }) v.saved v.draft
apply-IsValid (loads is) m v = load-IsValid is m
apply-IsValid (drafts i selected) m v = draft-IsValid i selected m v
apply-IsValid saves m v =
    merge-IsValid (record m { saved_selection = m.draft_selection }) v.draft v.draft
apply-IsValid discards m v =
    merge-IsValid (record m { draft_selection = m.saved_selection }) v.saved v.saved
apply-IsValid (sorts column ascending) m v = sort-IsValid column ascending m v

history_from : (cs : List Command) (m : SelectionModel) → IsValid m → IsValid (history cs m)
unfolding history
history_from [] m v = v
history_from (c ∷ cs) m v = history_from cs (apply c m) (apply-IsValid c m v)

-- Whatever inventories are shown, choices loaded, devices ticked, and changes saved or discarded, in
-- whatever order: the saved and the draft choice are within the limit and name no device twice, every
-- saved device is listed, and a listed device that is not present is a saved one.
pub history-IsValid :
    (limit : ℕ) (m : SelectionModel) (cs : List Command)
    → new limit ≡ some m
    → IsValid (history cs m)
unfolding new
history-IsValid limit m cs e =
    let no_saved : m.saved_selection ≡ [] = ground arith in
    let no_draft : m.draft_selection ≡ [] = ground arith in
    let no_devices : m.devices ≡ [] = ground arith in
    history_from cs m (record {
      saved = rw no_saved (record { bounded = omega arith; distinct = tt });
      draft = rw no_draft (record { bounded = omega arith; distinct = tt });
      listed = rw no_saved tt;
      explained = rw no_devices tt;
    })
