-- ===== src/Selection/Monitoring.antt =====
-- src/app/gui/core/dmn-device-selection-model.cpp: when monitoring may start, and the choice is changed.
use dmn.Prelude.{
  ◌≡◌, ◌≢◌, refl, ◌↔◌, inl, inr, ◌⊎◌, true, false, ◌&&◌, List, [], ◌∷◌, arith, Bool-cases,
}
use dmn.Device.{DeviceIdentity, same_identity, same_identity_sound, same_identity_self}
use dmn.Device.Display.{DeviceEntry}
use dmn.Selection.{
  SelectionModel, presents, same_selection, has_unsaved_changes, all_present, no_identity,
  can_start_monitoring,
}

-- A present device of the list has the identity.
abbrev pub Present : DeviceIdentity → List DeviceEntry → Type 0
Present i [] = ⊥
Present i (d ∷ ds) = ((d.identity ≡ i) × (d.present ≡ true)) ⊎ Present i ds

abbrev pub EachPresent : List DeviceIdentity → List DeviceEntry → Type 0
EachPresent [] ds = Unit {0}
EachPresent (i ∷ is) ds = Present i ds × EachPresent is ds

presents_sound : (ds : List DeviceEntry) (i : DeviceIdentity) → presents ds i ≡ true → Present i ds
unfolding presents
presents_sound [] i h = cc
presents_sound (d ∷ ds) i h = elim (Bool-cases (same_identity d.identity i && d.present)) [
  | inl here ↦ inl (same_identity_sound d.identity i (ground arith), ground arith)
  | inr there ↦ inr (presents_sound ds i (ground arith))
]

presents_complete :
    (ds : List DeviceEntry) (i : DeviceIdentity) → Present i ds → presents ds i ≡ true
unfolding presents
presents_complete [] i h = absurd h
presents_complete (d ∷ ds) i (inl (same, on)) =
    let here : same_identity d.identity i ≡ true = rw same (same_identity_self i) in ground arith
presents_complete (d ∷ ds) i (inr there) = let r = presents_complete ds i there in ground arith

same_selection_sound : (is js : List DeviceIdentity) → same_selection is js ≡ true → is ≡ js
unfolding same_selection
same_selection_sound [] [] h = refl
same_selection_sound [] (j ∷ js) h = cc
same_selection_sound (i ∷ is) [] h = cc
same_selection_sound (i ∷ is) (j ∷ js) h =
    let e = same_identity_sound i j (ground arith) in
    let r = same_selection_sound is js (ground arith) in cc

same_selection_self : (is : List DeviceIdentity) → same_selection is is ≡ true
unfolding same_selection
same_selection_self [] = refl
same_selection_self (i ∷ is) =
    let self = same_identity_self i in let r = same_selection_self is in ground arith

all_present_sound :
    (is : List DeviceIdentity) (ds : List DeviceEntry)
    → all_present is ds ≡ true
    → EachPresent is ds
unfolding all_present
all_present_sound [] ds h = tt
all_present_sound (i ∷ is) ds h =
    (presents_sound ds i (ground arith), all_present_sound is ds (ground arith))

all_present_complete :
    (is : List DeviceIdentity) (ds : List DeviceEntry)
    → EachPresent is ds
    → all_present is ds ≡ true
unfolding all_present
all_present_complete [] ds v = refl
all_present_complete (i ∷ is) ds v =
    let here = presents_complete ds i v.0 in let r = all_present_complete is ds v.1 in ground arith

no_identity-ne : (is : List DeviceIdentity) → is ≢ [] → no_identity is ≡ false
no_identity-ne [] n = absurd (n refl)
no_identity-ne (i ∷ is) n = refl

-- Monitoring may start exactly when the draft is the saved choice, this choice is not empty, and every
-- saved device is listed as present.
pub can_start_monitoring_iff :
    (m : SelectionModel)
    → (can_start_monitoring m ≡ true) ↔ (
        (m.saved_selection ≡ m.draft_selection)
        × (m.saved_selection ≢ [])
        × EachPresent m.saved_selection m.devices)
unfolding can_start_monitoring has_unsaved_changes
can_start_monitoring_iff m = (
  λ h. (
    same_selection_sound m.saved_selection m.draft_selection (ground arith),
    λ e. let none_chosen : no_identity m.saved_selection ≡ true = rw e refl in ground arith,
    all_present_sound m.saved_selection m.devices (ground arith),
  ),
  λ v.
      let same : same_selection m.saved_selection m.draft_selection ≡ true =
        rw (← v.0) (same_selection_self m.saved_selection) in
      let chosen = no_identity-ne m.saved_selection v.1 in
      let there = all_present_complete m.saved_selection m.devices v.2 in
      simp (same, chosen, there),
)
