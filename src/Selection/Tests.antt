-- ===== src/Selection/Tests.antt =====
-- src/app/gui/core/dmn-device-selection-model.cpp: two devices, one of which is chosen.
use dmn.Prelude.{◌≡◌, refl, true, false, some, List, [], ◌∷◌}
use dmn.Device.{DeviceIdentity}
use dmn.Device.Display.{DeviceEntry, name, status, ActionContext}
use dmn.Selection.{SelectionModel, new}
use dmn.Device.Display.{precedes}
use dmn.Selection.{sort_devices}
use dmn.Device.Display.StrictWeak.{IsStrictWeakOrder, precedes-IsStrictWeakOrder}
use dmn.Selection.Sorted.{Sorted, sort_devices-Sorted}
use dmn.Selection.Invariant.{
  IsValid, Command, replaces, drafts, saves, sorts, history, history-IsValid,
}

abbrev first_phone : DeviceIdentity
first_phone = record { adapter_address = 65 ∷ []; device_address = 66 ∷ [] }

abbrev second_phone : DeviceIdentity
second_phone = record { adapter_address = 65 ∷ []; device_address = 67 ∷ [] }

abbrev entry : DeviceIdentity → DeviceEntry
entry i = record {
  identity = i;
  display_name = 80 ∷ [];
  paired = some true;
  connected = some true;
  present = true;
  seen_during_discovery = false;
}

abbrev empty_model : SelectionModel
empty_model = record {
  selection_limit = 1;
  devices = [];
  saved_selection = [];
  draft_selection = [];
  sort_column = name;
  sort_ascending = true;
}

new-one : new 1 ≡ some empty_model
unfolding new
new-one = refl

abbrev commands : List Command
commands =
    replaces (entry first_phone ∷ entry second_phone ∷ [])
    ∷ drafts first_phone true
    ∷ drafts second_phone true
    ∷ saves
    ∷ replaces []
    ∷ sorts status false
    ∷ []

history-IsValid_example : IsValid (history commands empty_model)
history-IsValid_example = history-IsValid 1 empty_model commands new-one

abbrev chosen : SelectionModel
chosen = record empty_model {
  devices = entry first_phone ∷ [];
  saved_selection = first_phone ∷ [];
  draft_selection = first_phone ∷ [];
}

abbrev context : ActionContext
context = record {
  saved = true;
  selection_dirty = false;
  monitor_active = false;
  monitor_requested = true;
  monitor_busy = false;
  monitor_start_pending = false;
  monitor_cancel_requested = false;
  connection_pending = false;
  disconnect_pending = false;
  connect_after_monitor_stop = false;
  operation_busy = false;
  close_requested = false;
}

sort_devices-Sorted_example : Sorted (precedes name false) (sort_devices name false chosen).devices
sort_devices-Sorted_example = sort_devices-Sorted name false chosen

precedes-IsStrictWeakOrder_example : IsStrictWeakOrder (precedes status true)
precedes-IsStrictWeakOrder_example = precedes-IsStrictWeakOrder status true
