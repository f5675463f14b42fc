-- ===== src/Selection/Sorted.antt =====
-- src/app/gui/core/dmn-device-selection-model.cpp: the order of the listed devices.
use dmn.Prelude.{◌≡◌, inl, inr, Bool, false, List, [], ◌∷◌, Bool-cases}
use dmn.Device.Display.{DeviceEntry, DeviceSortColumn, precedes}
use dmn.Device.Display.StrictWeak.{IsStrictWeakOrder, precedes-IsStrictWeakOrder}
use dmn.Selection.{SelectionModel, place, stable_sort, apply_sort, sort_devices}

-- No device of the list should stand before `d`.
abbrev pub NoneBefore : (DeviceEntry → DeviceEntry → Bool) → DeviceEntry → List DeviceEntry → Type 0
NoneBefore before d [] = Unit {0}
NoneBefore before d (e ∷ es) = (before e d ≡ false) × NoneBefore before d es

abbrev pub Sorted : (DeviceEntry → DeviceEntry → Bool) → List DeviceEntry → Type 0
Sorted before [] = Unit {0}
Sorted before (d ∷ ds) = NoneBefore before d ds × Sorted before ds

module _ (before : DeviceEntry → DeviceEntry → Bool) (o : IsStrictWeakOrder before) where
  NoneBefore-weaken :
      (d e : DeviceEntry) (es : List DeviceEntry)
      → before e d ≡ false
      → NoneBefore before e es
      → NoneBefore before d es
  NoneBefore-weaken d e [] h v = tt
  NoneBefore-weaken d e (x ∷ es) h v = (o.not_before x e d v.0 h, NoneBefore-weaken d e es h v.1)

  NoneBefore-place :
      (d e : DeviceEntry) (es : List DeviceEntry)
      → before d e ≡ false
      → NoneBefore before e es
      → NoneBefore before e (place before d es)
  unfolding place
  NoneBefore-place d e [] h v = (h, tt)
  NoneBefore-place d e (x ∷ es) h v = elim (Bool-cases (before x d)) [
    | inl first ↦ rw first (v.0, NoneBefore-place d e es h v.1)
    | inr here ↦ rw here (h, v)
  ]

  place-Sorted :
      (d : DeviceEntry) (es : List DeviceEntry)
      → Sorted before es
      → Sorted before (place before d es)
  unfolding place
  place-Sorted d [] v = (tt, tt)
  place-Sorted d (e ∷ es) v = elim (Bool-cases (before e d)) [
    | inl first ↦
        rw first (NoneBefore-place d e es (o.asymmetric e d first) v.0, place-Sorted d es v.1)
    | inr here ↦ rw here ((here, NoneBefore-weaken d e es here v.0), v)
  ]

  stable_sort-Sorted : (ds : List DeviceEntry) → Sorted before (stable_sort before ds)
  unfolding stable_sort
  stable_sort-Sorted [] = tt
  stable_sort-Sorted (d ∷ ds) = place-Sorted d (stable_sort before ds) (stable_sort-Sorted ds)

-- After `sortDevices`, whatever the devices were: no device stands behind one that it precedes in the
-- chosen column and direction.
pub sort_devices-Sorted :
    (column : DeviceSortColumn) (ascending : Bool) (m : SelectionModel)
    → Sorted (precedes column ascending) (sort_devices column ascending m).devices
unfolding sort_devices apply_sort
sort_devices-Sorted column ascending m =
    stable_sort-Sorted (precedes column ascending) (precedes-IsStrictWeakOrder column ascending)
      m.devices
