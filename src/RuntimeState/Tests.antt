-- ===== src/RuntimeState/Tests.antt =====
-- include/dmn-runtime-state.hpp: a manager with one state, and the fates of that state.
use dmn.Prelude.{
  ℕ, ◌≡◌, refl, true, false, Option, none, some, List, [], ◌∷◌, ◌++◌, if◌then◌else◌, ◌==◌,
}
use dmn.Effect.{returned, thrown, user, runtime_error}
use dmn.State.{
  Script, leave, throw, call, set_end_call, invoke, finalize, perform, exec, call_selected, finish,
  run_callback, is_live, has_state_fncs, select, start, run_next, set_end,
}
use dmn.RuntimeState.{
  failed_state, Lifecycle, fresh, Extra, Object, begin_step, run_next_managed,
  enter_internal_execution, leave_internal_execution, permit_once, pending, value, exception,
  on_started, on_completed, on_failed, on_cancelled,
}
use dmn.RuntimeState.Invariant.{
  IsSound, Block, cancels_block, completes, submits, begins, blocks, blocks-IsSound, Same,
  blocks-Same,
}
use dmn.RuntimeState.Open.{Open}
use dmn.RuntimeState.Manager.{World, contains, erase, execute_state_step, begin_shutdown, shutdown}
use dmn.RuntimeState.Manager.Dispatch.{
  object, cancelled_dispatch, failed_dispatch, finished_dispatch,
}
use dmn.RuntimeState.Manager.Stranded.{stranded_dispatch}
use dmn.RuntimeState.Manager.Shutdown.{Each}
use dmn.RuntimeState.Manager.Drain.{has_ended, dispatch_all, shutdown_stops}

abbrev blocks_run : List Block
blocks_run = submits ∷ begins none ∷ completes failed_state (some (user 3)) ∷ []

blocks-IsSound_example : IsSound (blocks blocks_run fresh)
blocks-IsSound_example = blocks-IsSound blocks_run

abbrev ended : Lifecycle
ended = record {
  completion = value;
  failure = none;
  queued = false;
  running = false;
  started = true;
  completed = true;
  failed = false;
  cancelled = false;
  terminal = true;
  execution_depth = 0;
  execution_thread = none;
  run_next_permitted = false;
  notices = on_started ∷ on_completed ∷ [];
}

blocks-Same_example : Same ended (blocks (cancels_block ∷ blocks_run) ended)
blocks-Same_example = blocks-Same (cancels_block ∷ blocks_run) ended refl

abbrev queued_life : Lifecycle
queued_life = record ended {
  completion = pending;
  queued = true;
  started = false;
  completed = false;
  terminal = false;
  notices = [];
}

abbrev begun_life : Lifecycle
begun_life = record queued_life { started = true; running = true; notices = on_started ∷ [] }

abbrev two_slots : List (Option ℕ)
two_slots = none ∷ some 7 ∷ some 8 ∷ []

abbrev queued_object : Object
queued_object = object 1 two_slots true false queued_life

-- State 4 is queued; no other state exists.
abbrev store : Object → ℕ → Option Object
store s i = if i == 4 then some s else none

abbrev world : Object → World
world s = record { objects = store s; pending_states = 4 ∷ []; shut = false; jobs = [] }

abbrev free_world : Object → World
free_world s = record { objects = store s; pending_states = []; shut = false; jobs = [] }

abbrev idle_object : Object
idle_object = object 1 two_slots true false (record queued_life { queued = false })

abbrev leaves_all : ℕ → Script Lifecycle Extra
leaves_all f = leave

abbrev throws_all : ℕ → Script Lifecycle Extra
throws_all f = throw (user f)

abbrev ends_all : ℕ → Script Lifecycle Extra
ends_all f = call set_end_call (λ _. leave)

abbrev cancelled_life : Lifecycle
cancelled_life = record queued_life { cancelled = true }

cancelled_dispatch_example :
    let (v, r) =
      execute_state_step 9 4 leaves_all none none
        (world (object 1 two_slots true false cancelled_life)) in
    (r ≡ returned tt)
    × (v.pending_states ≡ erase 4 (4 ∷ []))
    × (v.jobs ≡ [])
    × (v.objects 4
        ≡ some (
            object 3 two_slots true true (record cancelled_life {
              completion = value;
              queued = false;
              running = false;
              cancelled = true;
              terminal = true;
              notices = [] ++ on_cancelled ∷ [];
            })))
cancelled_dispatch_example =
    cancelled_dispatch (world (object 1 two_slots true false cancelled_life)) 9 4 1 two_slots true
      cancelled_life leaves_all none none refl refl refl refl

begun : begin_step none queued_life ≡ (begun_life, returned true)
unfolding begin_step
begun = refl

abbrev same_slot : Object
same_slot = object 1 two_slots true false begun_life

throws : run_next_managed 9 throws_all same_slot ≡ (same_slot, thrown (user 7))
unfolding run_next_managed enter_internal_execution leave_internal_execution permit_once run_next
    start select run_callback call_selected invoke exec perform finish is_live has_state_fncs
    finalize
throws = refl

stays : run_next_managed 9 leaves_all same_slot ≡ (same_slot, returned true)
unfolding run_next_managed enter_internal_execution leave_internal_execution permit_once run_next
    start select run_callback call_selected invoke exec perform finish is_live has_state_fncs
    finalize
stays = refl

abbrev end_slot : Object
end_slot = object 3 two_slots true true begun_life

stops : run_next_managed 9 ends_all same_slot ≡ (end_slot, returned false)
unfolding run_next_managed enter_internal_execution leave_internal_execution permit_once run_next
    start select run_callback call_selected invoke exec perform set_end finish is_live
    has_state_fncs finalize
stops = refl

opened : Open queued_object.derived
opened = record { unended = refl; unkept = refl; submitted = refl }

failed_dispatch_example :
    let (v, r) = execute_state_step 9 4 throws_all none none (world queued_object) in
    (r ≡ thrown (user 7))
    × (v.pending_states ≡ erase 4 (4 ∷ []))
    × (v.jobs ≡ [])
    × (v.objects 4
        ≡ some (record same_slot {
          derived = record begun_life {
            completion = exception (some (user 7));
            failure = some (user 7);
            queued = false;
            running = false;
            failed = true;
            terminal = true;
            notices = on_started ∷ on_failed (some (user 7)) ∷ [];
          };
        }))
failed_dispatch_example =
    failed_dispatch (world queued_object) 9 4 throws_all none queued_object same_slot begun_life
      refl begun (user 7) none throws opened

finished_dispatch_example :
    let (v, r) = execute_state_step 9 4 ends_all none none (world queued_object) in
    (r ≡ returned tt)
    × (v.pending_states ≡ erase 4 (4 ∷ []))
    × (v.jobs ≡ [])
    × (v.objects 4
        ≡ some (record end_slot {
          derived = record begun_life {
            completion = value;
            queued = false;
            running = false;
            terminal = true;
            cancelled = false;
            completed = true;
            notices = on_started ∷ on_completed ∷ [];
          };
        }))
finished_dispatch_example =
    finished_dispatch (world queued_object) 9 4 ends_all none queued_object end_slot begun_life refl
      begun none false stops opened refl

stranded_dispatch_example :
    let (v, r) =
      execute_state_step 9 4 leaves_all none (some runtime_error) (world queued_object) in
    let stranded = record same_slot {
      derived = record begun_life {
        completion = pending;
        terminal = false;
        queued = false;
        running = true;
        cancelled = false;
      };
    } in
    (r ≡ thrown runtime_error)
    × (contains 4 v.pending_states ≡ false)
    × (v.jobs ≡ [])
    × (v.objects 4 ≡ some stranded)
    × ((begin_shutdown false v).0.objects 4 ≡ some stranded)
stranded_dispatch_example =
    stranded_dispatch (world queued_object) 9 4 leaves_all none queued_object same_slot begun_life
      refl begun runtime_error stays opened (unfold contains in refl) refl refl

-- States 4 and 6 wait for their next steps.
abbrev store_two : ℕ → Option Object
store_two i =
    if i == 6 then some (object 0 two_slots false false queued_life) else store queued_object i

abbrev two_held : World
two_held = record { objects = store_two; pending_states = 6 ∷ 4 ∷ []; shut = false; jobs = [] }

shutdown_stops_example :
    let (v, r) = shutdown false (dispatch_all 9 throws_all none none (6 ∷ 4 ∷ [])) two_held in
    (r ≡ some (returned tt))
    × (v.pending_states ≡ [])
    × Each has_ended (6 ∷ 4 ∷ []) v.objects
    × (v.shut ≡ true)
    × ((shutdown false (λ u. u) two_held).1 ≡ none)
shutdown_stops_example =
    shutdown_stops 9 throws_all none none two_held (unfold contains in (refl, (refl, tt)))
      (refl, (refl, tt))
