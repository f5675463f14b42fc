-- ===== src/Selection/Listing.antt =====
-- src/app/gui/core/dmn-device-selection-model.cpp: which devices `mergeSavedDevices` and `applySort` list.
use dmn.Prelude.{◌≡◌, refl, ◌∙◌, inl, inr, Bool, true, ◌||◌, List, [], ◌∷◌, ◌++◌, arith, Bool-cases}
use dmn.Device.{DeviceIdentity, same_identity, contains_identity, same_identity_self}
use dmn.Device.Display.{DeviceEntry}
use dmn.Selection.{place, stable_sort, present_only, lists, add_missing, unavailable_entry}

-- Every identity of the list has an entry.
abbrev pub Listed : List DeviceIdentity → List DeviceEntry → Type 0
Listed [] ds = Unit {0}
Listed (i ∷ is) ds = (lists ds i ≡ true) × Listed is ds

pub lists-append :
    (ds es : List DeviceEntry) (i : DeviceIdentity)
    → lists (ds ++ es) i ≡ (lists ds i || lists es i)
unfolding lists
lists-append [] es i = refl
lists-append (d ∷ ds) es i = let r = lists-append ds es i in ground arith

pub lists-place :
    (before : DeviceEntry → DeviceEntry → Bool) (d : DeviceEntry) (ds : List DeviceEntry)
    (i : DeviceIdentity)
    → lists (place before d ds) i ≡ (same_identity d.identity i || lists ds i)
unfolding lists place
lists-place before d [] i = refl
lists-place before d (e ∷ es) i = let r = lists-place before d es i in ground arith

pub lists_cons :
    (d : DeviceEntry) (ds es : List DeviceEntry) (i : DeviceIdentity)
    → lists ds i ≡ lists es i
    → (same_identity d.identity i || lists ds i) ≡ lists (d ∷ es) i
unfolding lists
lists_cons d ds es i e = rw e refl

pub lists-stable_sort :
    (before : DeviceEntry → DeviceEntry → Bool) (ds : List DeviceEntry) (i : DeviceIdentity)
    → lists (stable_sort before ds) i ≡ lists ds i
unfolding stable_sort
lists-stable_sort before [] i = refl
lists-stable_sort before (d ∷ ds) i =
    lists-place before d (stable_sort before ds) i
    ∙ lists_cons d (stable_sort before ds) ds i (lists-stable_sort before ds i)

pub lists-add_missing :
    (is : List DeviceIdentity) (ds : List DeviceEntry) (j : DeviceIdentity)
    → lists ds j ≡ true
    → lists (add_missing is ds) j ≡ true
unfolding add_missing
lists-add_missing [] ds j h = h
lists-add_missing (i ∷ is) ds j h = elim (Bool-cases (lists ds i)) [
  | inl there ↦ rw there (lists-add_missing is ds j h)
  | inr missing ↦ rw missing (
      lists-add_missing is (ds ++ unavailable_entry i ∷ []) j
        (lists-append ds (unavailable_entry i ∷ []) j ∙ rw h refl))
]

pub lists_last :
    (ds : List DeviceEntry) (i : DeviceIdentity) → lists (ds ++ unavailable_entry i ∷ []) i ≡ true
unfolding lists
lists_last ds i =
    let self = same_identity_self i in lists-append ds (unavailable_entry i ∷ []) i ∙ ground arith

pub Listed-add_missing :
    (is : List DeviceIdentity) (ds : List DeviceEntry) → Listed is (add_missing is ds)
unfolding add_missing
Listed-add_missing [] ds = tt
Listed-add_missing (i ∷ is) ds = elim (Bool-cases (lists ds i)) [
  | inl there ↦ rw there (lists-add_missing is ds i there, Listed-add_missing is ds)
  | inr missing ↦ rw missing (
    lists-add_missing is (ds ++ unavailable_entry i ∷ []) i (lists_last ds i),
    Listed-add_missing is (ds ++ unavailable_entry i ∷ []),
  )
]

pub Listed-stable_sort :
    (before : DeviceEntry → DeviceEntry → Bool) (is : List DeviceIdentity) (ds : List DeviceEntry)
    → Listed is ds
    → Listed is (stable_sort before ds)
Listed-stable_sort before [] ds v = tt
Listed-stable_sort before (i ∷ is) ds v =
    (lists-stable_sort before ds i ∙ v.0, Listed-stable_sort before is ds v.1)

-- Every entry of a device that is not present stands for a saved identity.
abbrev pub Explained : List DeviceIdentity → List DeviceEntry → Type 0
Explained is [] = Unit {0}
Explained is (d ∷ ds) = ((d.present || contains_identity is d.identity) ≡ true) × Explained is ds

pub Explained-present_only :
    (is : List DeviceIdentity) (ds : List DeviceEntry) → Explained is (present_only ds)
unfolding present_only
Explained-present_only is [] = tt
Explained-present_only is (d ∷ ds) = elim (Bool-cases d.present) [
  | inl on ↦ rw on (refl, Explained-present_only is ds)
  | inr off ↦ rw off (Explained-present_only is ds)
]

pub Explained-append_one :
    (is : List DeviceIdentity) (ds : List DeviceEntry) (d : DeviceEntry)
    → Explained is ds
    → (d.present || contains_identity is d.identity) ≡ true
    → Explained is (ds ++ d ∷ [])
Explained-append_one is [] d v h = (h, tt)
Explained-append_one is (e ∷ es) d v h = (v.0, Explained-append_one is es d v.1 h)

-- The identities `is` are among `all`.
abbrev pub Among : List DeviceIdentity → List DeviceIdentity → Type 0
Among all [] = Unit {0}
Among all (i ∷ is) = (contains_identity all i ≡ true) × Among all is

pub Explained-add_missing :
    (all is : List DeviceIdentity) (ds : List DeviceEntry)
    → Among all is
    → Explained all ds
    → Explained all (add_missing is ds)
unfolding add_missing
Explained-add_missing all [] ds a v = v
Explained-add_missing all (i ∷ is) ds a v = elim (Bool-cases (lists ds i)) [
  | inl there ↦ rw there (Explained-add_missing all is ds a.1 v)
  | inr missing ↦ rw missing (
      Explained-add_missing all is (ds ++ unavailable_entry i ∷ []) a.1
        (Explained-append_one all ds (unavailable_entry i) v a.0))
]

pub Among-cons :
    (all is : List DeviceIdentity) (j : DeviceIdentity) → Among all is → Among (j ∷ all) is
unfolding contains_identity
Among-cons all [] j a = tt
Among-cons all (i ∷ is) j a = let h = a.0 in (ground arith, Among-cons all is j a.1)

pub contains_head :
    (i : DeviceIdentity) (is : List DeviceIdentity) → contains_identity (i ∷ is) i ≡ true
unfolding contains_identity
contains_head i is = let self = same_identity_self i in ground arith

pub Among-self : (is : List DeviceIdentity) → Among is is
Among-self [] = tt
Among-self (i ∷ is) = (contains_head i is, Among-cons is is i (Among-self is))

pub Explained-place :
    (is : List DeviceIdentity) (before : DeviceEntry → DeviceEntry → Bool) (d : DeviceEntry)
    (ds : List DeviceEntry)
    → (d.present || contains_identity is d.identity) ≡ true
    → Explained is ds
    → Explained is (place before d ds)
unfolding place
Explained-place is before d [] h v = (h, tt)
Explained-place is before d (e ∷ es) h v = elim (Bool-cases (before e d)) [
  | inl later ↦ rw later (v.0, Explained-place is before d es h v.1)
  | inr here ↦ rw here (h, v)
]

pub Explained-stable_sort :
    (is : List DeviceIdentity) (before : DeviceEntry → DeviceEntry → Bool) (ds : List DeviceEntry)
    → Explained is ds
    → Explained is (stable_sort before ds)
unfolding stable_sort
Explained-stable_sort is before [] v = tt
Explained-stable_sort is before (d ∷ ds) v =
    Explained-place is before d (stable_sort before ds) v.0 (Explained-stable_sort is before ds v.1)
