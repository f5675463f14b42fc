-- ===== src/Json.antt =====
-- src/app/engine/dmn-json.cpp, include/app/engine/dmn-json.hpp: `Dmn_JsonValue`, its members and its
-- accessors. A text is the list of its bytes. A `double` is a value of the parameter `D`: printing and
-- reading one is the C library's.
pub mod Text
pub mod Dump
pub mod Parse
pub mod Members
pub mod Within
pub mod Tokens
pub mod Sound
pub mod Numbers
pub mod RoundTrip
mod Tests
use dmn.Prelude.{ℕ, Bool, true, false, ◌&&◌, List, [], ◌∷◌, Option, none, some, ◌==◌, if◌then◌else◌}

abbrev pub Bytes : Type 0
Bytes = List ℕ

-- `std::variant`'s alternatives: `Items` is `Array`, `Fields` is `Object`.
mutual
  pub data Value (D : Type 0) : Type 0 where
    null : Value D
    bool : Bool → Value D
    number : D → Value D
    string : Bytes → Value D
    array : Items D → Value D
    object : Fields D → Value D

  pub data Items (D : Type 0) : Type 0 where
    no_items : Items D
    item : Value D → Items D → Items D

  pub data Fields (D : Type 0) : Type 0 where
    no_fields : Fields D
    field : Bytes → Value D → Fields D → Fields D

abbrev pub equal : Bytes → Bytes → Bool
equal [] [] = true
equal [] (y ∷ ys) = false
equal (x ∷ xs) [] = false
equal (x ∷ xs) (y ∷ ys) = let rest = equal xs ys in x == y && rest

module _ {D : Type 0} where
  abbrev pub push_back : Items D → Value D → Items D
  push_back no_items v = item v no_items
  push_back (item w xs) v = item w (push_back xs v)

  -- The loop of `set`, and `emplace_back` where it finds no member.
  abbrev pub set_field : Bytes → Value D → Fields D → Fields D
  set_field key v no_fields = field key v no_fields
  set_field key v (field k w fs) =
      let rest = set_field key v fs in if equal k key then field k v fs else field k w rest

  abbrev pub find_field : Bytes → Fields D → Option (Value D)
  find_field key no_fields = none
  find_field key (field k w fs) =
      let rest = find_field key fs in if equal k key then some w else rest

  pub set : Bytes → Value D → Value D → Value D
  set key v (object fs) = object (set_field key v fs)
  set key v w = w

  pub push : Value D → Value D → Value D
  push v (array xs) = array (push_back xs v)
  push v w = w

  pub find : Bytes → Value D → Option (Value D)
  find key (object fs) = find_field key fs
  find key w = none

  pub items : Value D → Items D
  items (array xs) = xs
  items w = no_items

  abbrev pub string_or : Bytes → Value D → Bytes
  string_or fallback (string s) = s
  string_or fallback w = fallback

  abbrev pub bool_or : Bool → Value D → Bool
  bool_or fallback (bool b) = b
  bool_or fallback w = fallback

  abbrev pub number_or : D → Value D → D
  number_or fallback (number d) = d
  number_or fallback w = fallback

  -- A member's value, or the fallback where there is none.
  abbrev member_or {ℓ} : {A : Type ℓ} → (Value D → A) → A → Option (Value D) → A
  member_or read fallback none = fallback
  member_or read fallback (some v) = read v

  pub get_string : Bytes → Bytes → Value D → Bytes
  unfolding find
  get_string key fallback w = member_or (string_or fallback) fallback (find key w)

  pub get_bool : Bytes → Bool → Value D → Bool
  unfolding find
  get_bool key fallback w = member_or (bool_or fallback) fallback (find key w)

  pub get_number : Bytes → D → Value D → D
  unfolding find
  get_number key fallback w = member_or (number_or fallback) fallback (find key w)
