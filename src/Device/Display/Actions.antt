-- ===== src/Device/Display/Actions.antt =====
-- src/app/gui/core/dmn-device-selection-model.cpp: the buttons of a device.
use dmn.Prelude.{◌≡◌, true, false, not, ◌&&◌, ◌||◌, arith}
use dmn.Device.Display.{DeviceEntry, ActionContext, value_or, device_action_availability}

-- Two buttons of a pair are never offered together, monitoring is only offered for a connected device,
-- and none of the four is offered for a device that is not saved, present and paired, or once closing
-- has been asked for.
pub actions_exclusive :
    (d : DeviceEntry) (c : ActionContext)
    → let a = device_action_availability d c in
      ((a.can_connect && a.can_disconnect) ≡ false)
      × ((a.can_start_monitoring && a.can_stop_monitoring) ≡ false)
      × ((not (a.can_start_monitoring || a.can_stop_monitoring) || value_or d.connected false)
          ≡ true)
      × ((not (
              a.can_connect
              || (a.can_disconnect || (a.can_start_monitoring || a.can_stop_monitoring)))
            || ((c.saved && (d.present && value_or d.paired false)) && not c.close_requested))
          ≡ true)
unfolding device_action_availability
actions_exclusive d c = (ground arith, ground arith, ground arith, ground arith)
