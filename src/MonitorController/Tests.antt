-- ===== src/MonitorController/Tests.antt =====
-- src/app/gui/core/dmn-device-monitor-controller.cpp: a device that cannot be started twice in a row.
use dmn.Prelude.{◌+◌, ◌*◌, ◌≡◌, refl, true, false, [], ◌∷◌, arith}
use dmn.Effect.{returned}
use dmn.Device.{DeviceIdentity, same_identity, same_text}
use dmn.MonitorController.{
  DeviceState, reset_retries, retry_state_for, record_start_failure, reconcile, jittered, backoff,
}
use dmn.MonitorController.Backoff.{Failure, record_failures, failure_delay}
use dmn.MonitorController.Commands.{AllJustified, reconcile-AllJustified}
use dmn.MonitorController.Retries.{commands_for, retry_respected}

abbrev phone : DeviceIdentity
phone = record { adapter_address = 65 ∷ []; device_address = 66 ∷ [] }

abbrev tablet : DeviceIdentity
tablet = record { adapter_address = 65 ∷ []; device_address = 67 ∷ [] }

abbrev first_failure : Failure
first_failure = record { at = 1000; jitter_percent = 100 }

abbrev second_failure : Failure
second_failure = record { at = 6000000000; jitter_percent = 80 }

failure_delay_example :
    let (after, r) =
      record_start_failure phone 6000000000 80
        (record_failures phone (first_failure ∷ []) (reset_retries phone [])) in
    (r ≡ returned 8000) × ((retry_state_for phone after).next_attempt ≡ 6000000000 + 8000 * 1000000)
failure_delay_example =
    failure_delay phone (first_failure ∷ []) second_failure [] ((omega arith, omega arith), tt)
      (omega arith, omega arith)

distinct : same_identity phone tablet ≡ false
unfolding same_identity same_text
distinct = refl

abbrev ready : DeviceState
ready = record {
  identity = phone;
  saved = true;
  monitoring_requested = true;
  present = true;
  paired = true;
  connected = true;
  monitor_active = false;
  monitor_restart_required = false;
  monitor_busy = false;
}

abbrev lost : DeviceState
lost = record ready { identity = tablet; connected = false; monitor_active = true }

reconcile-AllJustified_example :
    AllJustified true (ready ∷ lost ∷ []) (reconcile true 5 (ready ∷ lost ∷ []) []).0
reconcile-AllJustified_example = reconcile-AllJustified true 5 (ready ∷ lost ∷ []) []

first_delay : (record_start_failure phone 1000 90 []).1 ≡ returned 4500
unfolding record_start_failure jittered backoff
first_delay = refl

-- The tablet, out of reach, does not end the phone's delay.
retry_respected_example :
    commands_for phone
      (reconcile true 2000 (lost ∷ ready ∷ []) (record_start_failure phone 1000 90 []).0).0
    ≡ []
retry_respected_example =
    retry_respected 2000 1000 90 4500 (lost ∷ []) [] ready [] (refl, refl, refl, refl, refl)
      (unfold same_identity same_text in (refl, tt)) tt (omega arith) (omega arith) first_delay
