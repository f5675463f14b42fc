-- ===== src/EventStore/Tests.antt =====
-- src/app/gui/core/dmn-device-monitor-event-store.cpp: a store of two events, and a filter.
use dmn.Prelude.{ℕ, ◌≡◌, ◌↔◌, refl, map, true, none, some, List, [], ◌∷◌, arith}
use dmn.Device.{DeviceIdentity}
use dmn.EventStore.{
  notification_added, MonitorEvent, EventStore, new, Command, appends, clears, replay,
}
use dmn.EventStore.Arrival.{keeps_newest}
use dmn.EventStore.Filter.{EventFilter, matches_event_filter}
use dmn.EventStore.Filter.Meaning.{Selected, matches_iff}

abbrev phone : DeviceIdentity
phone = record { adapter_address = 65 ∷ []; device_address = 66 ∷ 67 ∷ [] }

abbrev added : ℕ → MonitorEvent
added n = record {
  identity = phone;
  sequence = n;
  received = 0;
  event = record { kind = notification_added; state = none; notification = none; error = none };
}

abbrev two : EventStore
two = record { maximum_events = 2; next_sequence = 1; evicted_events = 0; events = [] }

new-two : new 2 ≡ some two
unfolding new
new-two = refl

abbrev commands : List Command
commands = appends (added 5) ∷ appends (added 3) ∷ clears ∷ appends (added 0) ∷ []

abbrev late : List MonitorEvent
late = added 5 ∷ added 3 ∷ added 4 ∷ []

abbrev arrivals : List MonitorEvent
arrivals = added 0 ∷ added 0 ∷ added 0 ∷ []

keeps_newest_example : (replay (map appends arrivals) two).events ≡ added 2 ∷ added 3 ∷ []
keeps_newest_example = keeps_newest 2 two arrivals new-two (refl, (refl, (refl, tt))) (omega arith)

abbrev feed : EventFilter
feed = record {
  identity = some phone;
  kind = some notification_added;
  category = none;
  search = 67 ∷ [];
}

matches_iff_example :
    (matches_event_filter (λ text. text) (added 1) feed [] ≡ true)
    ↔ Selected (λ text. text) (added 1) feed []
matches_iff_example = matches_iff (λ text. text) (added 1) feed []
