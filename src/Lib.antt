-- ===== src/Lib.antt =====
-- Verification of dmn, a C++ library of asynchronous building blocks with the Bluetooth notification
-- clients that are built on it.
--
-- Parts and files
--
--   State.antt (src/dmn-state.cpp, include/dmn-state.hpp): `Dmn_State`, a caller-driven state machine.
--     The members are the record `Machine`; `setEnd`, both `setNext`, `setStateFnc` and `runNext` are
--     `set_end`, `set_next`, `set_next_at`, `set_state_fnc` and `run_next`, in the monad of Effect.antt:
--     a method takes the object and returns what it leaves behind with a value, an exception or an
--     abort (a failed `assert`). The four virtual hooks are the record `Hooks`. A callback is a
--     `Script`, the tree of the calls that the client's code makes on the machine, so that a theorem
--     over all scripts speaks of all callbacks. State/Client has the client's loops and its sequences
--     of calls; State/Valid, Kept, Step and History have the invariant, State/Asserts the
--     assertions, State/Derived the members of a derived class; State/Drive and End what clients
--     rely on.
--   RuntimeState.antt (src/dmn-runtime-state.cpp, include/dmn-runtime-state.hpp): `Dmn_Runtime_State`,
--     the state machine that the runtime's thread drives. The members that it adds are `Lifecycle`, the
--     `derived` part of a `Machine`, and its overridden hooks are `runtime_hooks`. A block under
--     `m_mutex` is one function; RuntimeState/Invariant runs such blocks in every order, which covers
--     the interleavings of threads, since the lock is held for a whole block; RuntimeState/Open follows a
--     submitted state through a callback.
--   RuntimeState/Manager.antt: `Dmn_Runtime_State_Manager` and `run`, over a store of state objects.
--     `run_next_managed` composes the state machine with the lifecycle: a dispatch
--     (`execute_state_step`) is what the runtime calls, and `shutdown` takes what the other threads do while
--     it waits as an argument. RuntimeState/Manager/Shutdown and Drain follow it to its end.
--   Ancs.antt, Ancs/Reassembler.antt (src/dmn-ancs-client.cpp, include/dmn-ancs-client.hpp): the
--     parsers of the Apple Notification Center Service: `parseAncsNotificationSource`, `isValidUtf8`
--     and `Dmn_AncsDataSourceReassembler::consume`.
--   Device.antt, Device/Display.antt, Selection.antt (src/app/gui/core/dmn-device-selection-model.cpp):
--     the identity of a device, how it is shown and compared and what its buttons offer, and
--     `Dmn_DeviceSelectionModel` with its draft and its saved choice.
--   EventStore.antt, EventStore/Filter.antt (src/app/gui/core/dmn-device-monitor-event-store.cpp):
--     `Dmn_DeviceMonitorEventStore`, the bounded history of events, and `matchesEventFilter`.
--   MonitorController.antt (src/app/gui/core/dmn-device-monitor-controller.cpp):
--     `Dmn_DeviceMonitorController`, which starts and stops monitors with a backoff.
--   InflightGuard.antt (include/dmn-inflight-guard.hpp): `Dmn_Inflight_Guard` as a step relation: the
--     atomic steps of `Ticket`'s constructor and destructor in every interleaving, sequentially
--     consistent, of any number of threads with the closing of the guard.
--   BlockingQueue.antt (include/dmn-blockingqueue.hpp, include/dmn-blockingqueue-mt.hpp):
--     `Dmn_BlockingQueue_Mt`. What a call does under `m_mutex` is the function `enter`, and `resume` after a
--     wait. BlockingQueue/Threads interleaves any number of threads at the points where they lock, fall
--     asleep, are woken, time out and notify; Fifo, Results, Single and Lost have what follows.
--   Json.antt, Json/Text.antt, Json/Dump.antt, Json/Parse.antt (src/app/engine/dmn-json.cpp): `Dmn_JsonValue`
--     with its members, `dump` and `parse`. A text is a list of bytes, and a position in it is the list of the
--     bytes behind; a `double` is a parameter with the C library's functions on it, which Json/Numbers
--     says what to ask of. Json/Members, Sound and RoundTrip, and Json/Text/Strings, have what follows.
--   PubSub.antt (include/dmn-pub-sub.hpp): `Dmn_Pub` with its subscribers. `Dmn_Async` runs a publisher's
--     tasks one after another, so `publishInternal`, `registerSubscriber`, `unregisterSubscriber` and
--     `takeCallbackFailures` are functions on the record `Pub`, and `run` is any sequence of them. The
--     filter, a function of the subscriber and the item, and `notify` are parameters that may throw. PubSub/Order and its children follow the
--     deliveries and the history.
--   IntervalTree.antt, IntervalTree/Insert.antt (include/dmn-interval-btree.hpp, src/dmn-interval-btree.cpp):
--     `Dmn_IntervalBTree`, a B-tree of minimum degree 2 whose nodes keep the greatest end below them, with
--     `add` and the overlap queries. IntervalTree/Queries and Insert/Refine read it as a list;
--     IntervalTree/Topology.antt has `classifyTopology` and `queryTopology`.
--   Prelude.antt, Effect.antt: shared notation, lemmas on lists and numbers, and the monad.
--   The concrete runs that apply the theorems stand in the Tests modules.
--
-- Fuel and bounds
--
--   The loop of `consume` runs on the length of its buffer as fuel: a round that goes on consumes at
--   least three bytes (Ancs/Reassembler/Loop). `isValidUtf8` consumes a byte or more in each round. A
--   byte is a natural number, which the theorems on encodings keep below 256; `unsigned int` and
--   `std::uint32_t` wrap where the code adds to them.
--
--   `parse` runs on twice the length of the text and one: a value takes a byte or more, and costs a unit
--   for itself and one for the round of the loop that reads it (Json/Sound). The loops of `dumpString`
--   and `parseString` take a byte or more in each round. `insertNonFull` runs on the depth of the tree: a
--   split leaves halves that are no deeper (IntervalTree/Insert/Shape). The 64-bit counters of the queue wrap.
--
-- Left out
--
--   The runtime's own queues, timers and threads, of which a post that is taken or refused is an input;
--   a client's `wait` on the future; exceptions of the terminal hooks; the weak orders of the in-flight
--   guard's atomics, which are taken as sequentially consistent; a filter of a publisher that keeps a state; the states of an interval tree's entries, their callbacks and removal; the destructors of a publisher and of a subscriber; the texts of error messages; GLib's case folding, which is a parameter; the D-Bus, BlueZ and
--   GATT clients, the message and lock layers, and the drawing of the user interfaces.

pub mod Ancs
pub mod BlockingQueue
pub mod Device
pub mod Effect
pub mod EventStore
pub mod InflightGuard
pub mod IntervalTree
pub mod Json
pub mod MonitorController
pub mod Prelude
pub mod PubSub
pub mod RuntimeState
pub mod Selection
pub mod State
