-- ===== src/Device/Display.antt =====
-- src/app/gui/core/dmn-device-selection-model.cpp: how a device is shown and how two are compared. A string is the list of its bytes; `std::tolower` and `std::toupper` are those of the C
-- locale.
pub mod Actions
mod Order
mod Precedes
pub mod StrictWeak
use dmn.Prelude.{
  ℕ, zero, suc, ◌+◌, ◌-◌, Bool, true, false, not, ◌&&◌, ◌||◌, Option, none, some, List, [], ◌∷◌,
  ◌++◌, map, ltb, leb, ◌==◌, if◌then◌else◌, length, take,
}
use dmn.Device.{DeviceIdentity, same_text}

pub record DeviceEntry : Type 0 where
  pub identity : DeviceIdentity
  pub display_name : List ℕ
  pub paired : Option Bool
  pub connected : Option Bool
  pub present : Bool
  pub seen_during_discovery : Bool

pub data DeviceSortColumn : Type 0 where
  name status : DeviceSortColumn

pub to_lower : ℕ → ℕ
to_lower c = if leb 65 c && leb c 90 then c + 32 else c

pub to_upper : ℕ → ℕ
to_upper c = if leb 97 c && leb c 122 then c - 32 else c

pub data Comparison : Type 0 where
  less equal greater : Comparison

-- The sign of the result of `compareCaseInsensitive`; a proper prefix is less.
pub compare_case_insensitive : List ℕ → List ℕ → Comparison
unfolding to_lower
compare_case_insensitive [] [] = equal
compare_case_insensitive [] (r ∷ rs) = less
compare_case_insensitive (l ∷ ls) [] = greater
compare_case_insensitive (l ∷ ls) (r ∷ rs) =
    let rest = compare_case_insensitive ls rs in
    if to_lower l == to_lower r
    then rest
    else if ltb (to_lower l) (to_lower r)
    then less
    else greater

-- `operator<` of strings.
pub text_less : List ℕ → List ℕ → Bool
text_less l [] = false
text_less [] (r ∷ rs) = true
text_less (l ∷ ls) (r ∷ rs) = let rest = text_less ls rs in if l == r then rest else ltb l r

pub normalize_identity : DeviceIdentity → DeviceIdentity
unfolding to_upper
normalize_identity i = record {
  adapter_address = map to_upper i.adapter_address;
  device_address = map to_upper i.device_address;
}

abbrev pub is_nil : List ℕ → Bool
is_nil [] = true
is_nil (c ∷ cs) = false

abbrev pub is_equal : Comparison → Bool
is_equal equal = true
is_equal less = false
is_equal greater = false

abbrev pub is_less : Comparison → Bool
is_less less = true
is_less equal = false
is_less greater = false

abbrev pub is_greater : Comparison → Bool
is_greater greater = true
is_greater equal = false
is_greater less = false

pub device_display_name : DeviceEntry → List ℕ
unfolding compare_case_insensitive
device_display_name d =
    if is_nil d.display_name
      || is_equal (compare_case_insensitive d.display_name d.identity.device_address)
    then d.identity.device_address
    else d.display_name

-- "Unavailable"
abbrev pub unavailable : List ℕ
unavailable = 85 ∷ 110 ∷ 97 ∷ 118 ∷ 97 ∷ 105 ∷ 108 ∷ 97 ∷ 98 ∷ 108 ∷ 101 ∷ []

-- "Paired"
abbrev pub paired_text : List ℕ
paired_text = 80 ∷ 97 ∷ 105 ∷ 114 ∷ 101 ∷ 100 ∷ []

-- "Not paired"
abbrev pub not_paired : List ℕ
not_paired = 78 ∷ 111 ∷ 116 ∷ 32 ∷ 112 ∷ 97 ∷ 105 ∷ 114 ∷ 101 ∷ 100 ∷ []

-- "Pairing status unavailable"
abbrev pub pairing_unavailable : List ℕ
pairing_unavailable =
    80 ∷ 97 ∷ 105 ∷ 114 ∷ 105 ∷ 110 ∷ 103 ∷ 32 ∷ 115 ∷ 116 ∷ 97 ∷ 116 ∷ 117 ∷ 115 ∷ 32 ∷ 117 ∷ 110
    ∷ 97 ∷ 118 ∷ 97 ∷ 105 ∷ 108 ∷ 97 ∷ 98 ∷ 108 ∷ 101 ∷ []

-- " (U+00B7) Connected"
abbrev pub connected_text : List ℕ
connected_text = 32 ∷ 194 ∷ 183 ∷ 32 ∷ 67 ∷ 111 ∷ 110 ∷ 110 ∷ 101 ∷ 99 ∷ 116 ∷ 101 ∷ 100 ∷ []

-- " (U+00B7) Disconnected"
abbrev pub disconnected : List ℕ
disconnected =
    32 ∷ 194 ∷ 183 ∷ 32 ∷ 68 ∷ 105 ∷ 115 ∷ 99 ∷ 111 ∷ 110 ∷ 110 ∷ 101 ∷ 99 ∷ 116 ∷ 101 ∷ 100 ∷ []

-- " (U+00B7) Connection status unavailable"
abbrev pub connection_unavailable : List ℕ
connection_unavailable =
    32 ∷ 194 ∷ 183 ∷ 32 ∷ 67 ∷ 111 ∷ 110 ∷ 110 ∷ 101 ∷ 99 ∷ 116 ∷ 105 ∷ 111 ∷ 110 ∷ 32 ∷ 115 ∷ 116
    ∷ 97 ∷ 116 ∷ 117 ∷ 115 ∷ 32 ∷ 117 ∷ 110 ∷ 97 ∷ 118 ∷ 97 ∷ 105 ∷ 108 ∷ 97 ∷ 98 ∷ 108 ∷ 101 ∷ []

-- " (U+00B7) Found by scan"
abbrev pub found_by_scan : List ℕ
found_by_scan =
    32 ∷ 194 ∷ 183 ∷ 32 ∷ 70 ∷ 111 ∷ 117 ∷ 110 ∷ 100 ∷ 32 ∷ 98 ∷ 121 ∷ 32 ∷ 115 ∷ 99 ∷ 97 ∷ 110 ∷ []

abbrev pub value_or : Option Bool → Bool → Bool
value_or none b = b
value_or (some a) b = a

abbrev pub known : Option Bool → List ℕ → List ℕ → List ℕ → List ℕ
known none on off unknown = unknown
known (some true) on off unknown = on
known (some false) on off unknown = off

pub device_display_status : DeviceEntry → List ℕ
device_display_status d =
    if not d.present
    then unavailable
    else known d.paired paired_text not_paired pairing_unavailable
      ++ (known d.connected connected_text disconnected connection_unavailable
          ++ (if d.seen_during_discovery then found_by_scan else []))

abbrev pub by_sign : Comparison → Bool → Bool → Bool → Bool
by_sign less below same above = below
by_sign equal below same above = same
by_sign greater below same above = above

abbrev pub primary : DeviceSortColumn → DeviceEntry → List ℕ
primary name d = device_display_name d
primary status d = device_display_status d

-- The comparison that `applySort` sorts by.
pub precedes : DeviceSortColumn → Bool → DeviceEntry → DeviceEntry → Bool
unfolding compare_case_insensitive text_less
precedes column ascending l r =
    let address =
      if not (same_text l.identity.adapter_address r.identity.adapter_address)
      then text_less l.identity.adapter_address r.identity.adapter_address
      else text_less l.identity.device_address r.identity.device_address in
    let by_name =
      by_sign (compare_case_insensitive (device_display_name l) (device_display_name r)) true
        address false in
    by_sign (compare_case_insensitive (primary column l) (primary column r)) ascending by_name
      (not ascending)

pub record ActionContext : Type 0 where
  pub saved : Bool
  pub selection_dirty : Bool
  pub monitor_active : Bool
  pub monitor_requested : Bool
  pub monitor_busy : Bool
  pub monitor_start_pending : Bool
  pub monitor_cancel_requested : Bool
  pub connection_pending : Bool
  pub disconnect_pending : Bool
  pub connect_after_monitor_stop : Bool
  pub operation_busy : Bool
  pub close_requested : Bool

pub record ActionAvailability : Type 0 where
  pub can_connect : Bool
  pub can_disconnect : Bool
  pub can_start_monitoring : Bool
  pub can_stop_monitoring : Bool

pub device_action_availability : DeviceEntry → ActionContext → ActionAvailability
device_action_availability d c =
    let connected = value_or d.connected false in
    let target_ready = c.saved && (d.present && value_or d.paired false) in
    let connection_actions_allowed = target_ready && not c.close_requested in
    let monitoring_allowed = target_ready && (connected && not c.close_requested) in
    let monitoring_requested =
      c.monitor_requested || (c.monitor_start_pending && not c.monitor_cancel_requested) in
    record {
      can_connect = connection_actions_allowed && (not connected && not c.connection_pending);
      can_disconnect = connection_actions_allowed && (connected || c.connection_pending);
      can_start_monitoring =
          monitoring_allowed && (not c.selection_dirty && not monitoring_requested);
      can_stop_monitoring = monitoring_allowed && monitoring_requested;
    }
