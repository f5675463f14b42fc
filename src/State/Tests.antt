-- ===== src/State/Tests.antt =====
-- include/dmn-state.hpp: concrete machines, with one and two callbacks.
use dmn.Prelude.{
  ℕ, ◌≡◌, refl, true, false, Option, none, some, List, [], ◌∷◌, arith, length, lt→ltb,
}
use dmn.Effect.{returned, thrown, user, resume}
use dmn.State.{
  index, Machine, Script, throw, call, extra_call, init, finalize, perform, exec, invoke,
  call_selected, finish, run_callback, is_live, has_state_fncs, select, start, run_next, new, place,
  set_end, set_next, set_next_at, set_state_fnc,
}
use dmn.State.Client.{apply, Command, configures, runs, history, register, run_while}
use dmn.State.Asserts.{SafeCallbacks, Survives, run_next-Survives}
use dmn.State.Valid.{IsValid}
use dmn.State.Drive.{advance, logging, ready, run_in_order}
use dmn.State.End.{set_end-append-run_next}
use dmn.State.History.{Idle, history-Idle}

abbrev two_slots : List (Option ℕ)
two_slots = none ∷ some 7 ∷ some 8 ∷ []

abbrev started_machine : Machine (List ℕ)
started_machine = ready two_slots 1 [] true false

started_machine-IsValid : IsValid started_machine
started_machine-IsValid = ground arith

abbrev one_of_two : Machine (List ℕ)
one_of_two = ready two_slots 2 (7 ∷ []) true false

first_call : run_next logging advance started_machine ≡ (one_of_two, returned true)
unfolding run_next start select run_callback call_selected invoke exec perform set_next finish
    is_live has_state_fncs finalize
first_call = refl

-- A callback that writes its number and then throws.
abbrev fails : ℕ → Script (List ℕ) ℕ
fails f = call (extra_call f) (λ _. throw (user f))

abbrev after_throw : Machine (List ℕ)
after_throw = ready two_slots 1 (7 ∷ []) true false

throwing_call : run_next logging fails started_machine ≡ (after_throw, thrown (user 7))
unfolding run_next start select run_callback call_selected invoke exec perform set_next finish
    is_live has_state_fncs finalize
throwing_call = refl

abbrev session : List (Command (List ℕ) ℕ)
session = configures (some 7) (index 0) ∷ configures (some 8) (index 0) ∷ runs advance ∷ []

session_end : history logging session (new []) ≡ some one_of_two
unfolding history apply new set_state_fnc place run_next start select init set_next_at run_callback
    call_selected invoke exec perform set_next finish is_live has_state_fncs finalize
session_end = refl

history-Idle_example : Idle one_of_two
history-Idle_example = history-Idle logging [] session one_of_two session_end

run_in_order_example :
    resume (register logging (7 ∷ 8 ∷ []) (new [])) (λ _. run_while logging advance 2)
    ≡ (ready two_slots 3 (7 ∷ 8 ∷ []) true true, returned false)
run_in_order_example = run_in_order 7 (8 ∷ []) []

set_end-append-run_next_example :
    resume
      (set_end logging (ready (none ∷ some 7 ∷ []) 0 [] false false))
      (λ _ t. resume (set_state_fnc logging (some 8) (index 0) t) (λ _. run_next logging advance))
    ≡ (ready two_slots 2 (7 ∷ []) true false, returned true)
set_end-append-run_next_example = set_end-append-run_next 7 8 [] []

-- The assertion of `setNext` holds in a callback, since the next state is a user's.
advance-SafeCallbacks : SafeCallbacks logging advance
unfolding exec perform set_next
advance-SafeCallbacks f s v ini on lt = rw (lt→ltb s.next (length s.states) lt) (λ h. cc)

run_next-Survives_example : Survives (run_next logging advance started_machine)
run_next-Survives_example =
    run_next-Survives logging advance advance-SafeCallbacks started_machine started_machine-IsValid
