-- ===== src/EventStore.antt =====
-- src/app/gui/core/dmn-device-monitor-event-store.cpp: the bounded, ordered history of events.
-- `std::upper_bound` is the position of the first event whose sequence is greater, which is what it
-- finds on a sorted vector (EventStore/Order keeps it sorted). GLib's case folding is a parameter.
mod Order
mod Arrival
mod Filter
mod Tests
use dmn.Prelude.{
  ℕ, zero, suc, ◌+◌, ◌%◌, max, Bool, true, false, not, ◌&&◌, ◌||◌, Option, none, some, List, [],
  ◌∷◌, ltb, ◌==◌, if◌then◌else◌, length,
}
use dmn.Ancs.{ErrorKind, Notification}
use dmn.Device.{DeviceIdentity, same_identity}

pub data EventKind : Type 0 where
  attributes_unavailable error notification_added notification_removed : EventKind
  notification_updated state_changed : EventKind

pub data AncsState : Type 0 where
  stopped starting resolving_services discovering_ancs : AncsState
  subscribing_data_source subscribing_notification_source ready stopping failed : AncsState

pub record AncsError : Type 0 where
  pub kind : ErrorKind
  pub message : List ℕ
  pub remote_name : List ℕ
  pub fatal : Bool

pub record AncsEvent : Type 0 where
  pub kind : EventKind
  pub state : Option AncsState
  pub notification : Option Notification
  pub error : Option AncsError

pub record MonitorEvent : Type 0 where
  pub identity : DeviceIdentity
  pub sequence : ℕ
  pub received : ℕ
  pub event : AncsEvent

pub record EventStore : Type 0 where
  pub maximum_events : ℕ
  pub next_sequence : ℕ
  pub evicted_events : ℕ
  pub events : List MonitorEvent

-- The constructor throws on a limit of 0.
pub new : ℕ → Option EventStore
new maximum_events =
    if maximum_events == 0
    then none
    else some (record {
      maximum_events = maximum_events;
      next_sequence = 1;
      evicted_events = 0;
      events = [];
    })

abbrev pub word : ℕ
word = 18446744073709551616

pub stamp : EventStore → MonitorEvent → MonitorEvent
stamp s e = if e.sequence == 0 then record e { sequence = s.next_sequence } else e

pub insert : MonitorEvent → List MonitorEvent → List MonitorEvent
insert e [] = e ∷ []
insert e (x ∷ xs) =
    let rest = insert e xs in if ltb e.sequence x.sequence then e ∷ x ∷ xs else x ∷ rest

abbrev pub tail : List MonitorEvent → List MonitorEvent
tail [] = []
tail (x ∷ xs) = xs

pub evict : EventStore → EventStore
evict s =
    if ltb s.maximum_events (length s.events)
    then record s { events = tail s.events; evicted_events = (s.evicted_events + 1) % word }
    else s

pub append : MonitorEvent → EventStore → EventStore
unfolding stamp insert evict
append e s =
    let stamped = stamp s e in
    evict (record s {
      next_sequence = max s.next_sequence ((stamped.sequence + 1) % word);
      events = insert stamped s.events;
    })

select : (MonitorEvent → Bool) → List MonitorEvent → List MonitorEvent
select p [] = []
select p (x ∷ xs) = let rest = select p xs in if p x then x ∷ rest else rest

pub events_for : DeviceIdentity → EventStore → List MonitorEvent
unfolding select
events_for identity s = select (λ e. same_identity e.identity identity) s.events

find : ℕ → List MonitorEvent → Option MonitorEvent
find sequence [] = none
find sequence (x ∷ xs) =
    let rest = find sequence xs in if x.sequence == sequence then some x else rest

pub event_for_sequence : ℕ → EventStore → Option MonitorEvent
unfolding find
event_for_sequence sequence s = find sequence s.events

pub clear : EventStore → EventStore × ℕ
clear s = (record s { events = []; evicted_events = 0 }, length s.events)

-- What a client does with the store.
pub data Command : Type 0 where
  appends : MonitorEvent → Command
  clears : Command

pub replay : List Command → EventStore → EventStore
unfolding append clear
replay [] s = s
replay (appends e ∷ cs) s = replay cs (append e s)
replay (clears ∷ cs) s = replay cs (clear s).0
