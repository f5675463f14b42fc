-- ===== src/Selection/Distinct.antt =====
-- src/app/gui/core/dmn-device-selection-model.cpp: lists of identities without repetition.
use dmn.Prelude.{
  ℕ, zero, suc, ◌≤◌, ◌≡◌, refl, inl, inr, true, false, ◌||◌, List, [], ◌∷◌, ◌++◌, length, take,
  arith, Bool-cases,
}
use dmn.Device.{
  DeviceIdentity, same_identity, contains_identity, same_identity_sound, same_identity_self,
}
use dmn.Device.Display.{is_nil, normalize_identity}
use dmn.Selection.{normalized, erase}

-- No identity stands in the list twice.
abbrev pub Distinct : List DeviceIdentity → Type 0
Distinct [] = Unit {0}
Distinct (i ∷ is) = (contains_identity is i ≡ false) × Distinct is

same_identity_swap : (i j : DeviceIdentity) → same_identity i j ≡ false → same_identity j i ≡ false
same_identity_swap i j h = elim (Bool-cases (same_identity j i)) [
  | inl same ↦
      let e = same_identity_sound j i same in
      let back : same_identity i j ≡ true = rw e (same_identity_self i) in cc
  | inr other ↦ other
]

pub contains-append_one :
    (is : List DeviceIdentity) (i j : DeviceIdentity)
    → contains_identity is j ≡ false
    → same_identity i j ≡ false
    → contains_identity (is ++ i ∷ []) j ≡ false
unfolding contains_identity
contains-append_one [] i j h n = rw n refl
contains-append_one (x ∷ is) i j h n =
    let r = contains-append_one is i j (ground arith) n in ground arith

pub Distinct-append_one :
    (is : List DeviceIdentity) (i : DeviceIdentity)
    → Distinct is
    → contains_identity is i ≡ false
    → Distinct (is ++ i ∷ [])
unfolding contains_identity
Distinct-append_one [] i v h = (refl, tt)
Distinct-append_one (x ∷ is) i v h = (
  contains-append_one is i x v.0 (same_identity_swap x i (ground arith)),
  Distinct-append_one is i v.1 (ground arith),
)

pub contains-take :
    (n : ℕ) (is : List DeviceIdentity) (i : DeviceIdentity)
    → contains_identity is i ≡ false
    → contains_identity (take n is) i ≡ false
unfolding contains_identity
contains-take zero is i h = refl
contains-take (suc n) [] i h = refl
contains-take (suc n) (x ∷ is) i h = let r = contains-take n is i (ground arith) in ground arith

pub Distinct-take : (n : ℕ) (is : List DeviceIdentity) → Distinct is → Distinct (take n is)
Distinct-take zero is v = tt
Distinct-take (suc n) [] v = tt
Distinct-take (suc n) (x ∷ is) v = (contains-take n is x v.0, Distinct-take n is v.1)

pub contains-erase :
    (i j : DeviceIdentity) (is : List DeviceIdentity)
    → contains_identity is j ≡ false
    → contains_identity (erase i is) j ≡ false
unfolding contains_identity erase
contains-erase i j [] h = refl
contains-erase i j (x ∷ is) h = let r = contains-erase i j is (ground arith) in ground arith

pub Distinct-erase :
    (i : DeviceIdentity) (is : List DeviceIdentity) → Distinct is → Distinct (erase i is)
unfolding erase
Distinct-erase i [] v = tt
Distinct-erase i (x ∷ is) v = elim (Bool-cases (same_identity x i)) [
  | inl same ↦ rw same v.1
  | inr other ↦ rw other (contains-erase i x is v.0, Distinct-erase i is v.1)
]

pub length-erase : (i : DeviceIdentity) (is : List DeviceIdentity) → length (erase i is) ≤ length is
unfolding erase
length-erase i [] = omega arith
length-erase i (x ∷ is) = elim (Bool-cases (same_identity x i)) [
  | inl same ↦ rw same (omega arith)
  | inr other ↦ rw other (omega (arith, length-erase i is))
]

pub Distinct-normalized :
    (is kept : List DeviceIdentity) → Distinct kept → Distinct (normalized is kept)
unfolding normalized
Distinct-normalized [] kept v = v
Distinct-normalized (i ∷ is) kept v =
    let stable = normalize_identity i in
    Distinct-normalized is _
      (elim (Bool-cases (is_nil stable.adapter_address || is_nil stable.device_address)) [
        | inl blank ↦ rw blank v
        | inr named ↦ elim (Bool-cases (contains_identity kept stable)) [
          | inl there ↦ rw (named, there) v
          | inr missing ↦ rw (named, missing) (Distinct-append_one kept stable v missing)
        ]
      ])
