-- ===== src/Device.antt =====
-- include/app/gui/core/dmn-device-selection-model.hpp: the identity of a device, and equality of strings.
-- A `std::string` is the list of its bytes.
pub mod Display
use dmn.Prelude.{
  ℕ, ◌≡◌, ◌≢◌, refl, ◌↔◌, Bool, true, false, ◌&&◌, ◌||◌, List, [], ◌∷◌, ◌==◌, arith, inl, inr,
  Bool-cases,
}

pub record DeviceIdentity : Type 0 where
  pub adapter_address : List ℕ
  pub device_address : List ℕ

-- `operator==` of strings.
unfoldable pub same_text : List ℕ → List ℕ → Bool
same_text [] [] = true
same_text [] (y ∷ ys) = false
same_text (x ∷ xs) [] = false
same_text (x ∷ xs) (y ∷ ys) = let rest = same_text xs ys in x == y && rest

-- The defaulted `operator==`.
unfoldable pub same_identity : DeviceIdentity → DeviceIdentity → Bool
unfolding same_text
same_identity i j =
    same_text i.adapter_address j.adapter_address && same_text i.device_address j.device_address

unfoldable pub contains_identity : List DeviceIdentity → DeviceIdentity → Bool
contains_identity [] j = false
contains_identity (i ∷ is) j = let rest = contains_identity is j in same_identity i j || rest

same_text_sound : (xs ys : List ℕ) → same_text xs ys ≡ true → xs ≡ ys
unfolding same_text
same_text_sound [] [] h = refl
same_text_sound [] (y ∷ ys) h = cc
same_text_sound (x ∷ xs) [] h = cc
same_text_sound (x ∷ xs) (y ∷ ys) h =
    let e : x ≡ y = ground arith in let r = same_text_sound xs ys (ground arith) in cc

same_text_self : (xs : List ℕ) → same_text xs xs ≡ true
unfolding same_text
same_text_self [] = refl
same_text_self (x ∷ xs) = let r = same_text_self xs in ground arith

pub same_identity_sound : (i j : DeviceIdentity) → same_identity i j ≡ true → i ≡ j
unfolding same_identity
same_identity_sound i j h =
    let a = same_text_sound i.adapter_address j.adapter_address (ground arith) in
    let d = same_text_sound i.device_address j.device_address (ground arith) in cc

pub same_identity_self : (i : DeviceIdentity) → same_identity i i ≡ true
unfolding same_identity
same_identity_self i = rw (same_text_self i.adapter_address, same_text_self i.device_address) refl

pub same_identity_iff : (i j : DeviceIdentity) → (same_identity i j ≡ true) ↔ (i ≡ j)
same_identity_iff i j = (same_identity_sound i j, λ e. rw e (same_identity_self j))
