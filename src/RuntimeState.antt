-- ===== src/RuntimeState.antt =====
-- include/dmn-runtime-state.hpp and src/dmn-runtime-state.cpp: `Dmn_Runtime_State`, the state machine
-- that the runtime drives. `Lifecycle` has the members that the class adds to `Dmn_State`. A block
-- under `m_mutex` is one function; a method that takes the lock twice is composed of two of them.
-- The calls of the lifecycle hooks, which a derived class may override, are kept in `notices`, in the
-- order in which the locked blocks decide on them; of the hooks, `onStarted` may throw.
mod Invariant
mod Guards
mod Open
mod Manager
mod Tests
use dmn.Prelude.{
  ℕ, ◌+◌, ◌-◌, ◌%◌, Bool, true, false, not, ◌&&◌, ◌||◌, Option, none, some, List, [], ◌∷◌, ◌++◌,
  ltb, ◌==◌, if◌then◌else◌,
}
use dmn.Effect.{
  Error, Outcome, returned, thrown, aborted, logic_error, invalid_argument, resume, M, get, put,
  pure, raise, throw_if, assert, ◌>>=◌, ◌>>◌,
}
use dmn.State.{is_none, Machine, Hooks, Script, Index, set_end, set_state_fnc, run_next}

pub data Terminal : Type 0 where
  completed_state failed_state cancelled_state : Terminal

-- The promise behind the completion future.
pub data Completion : Type 0 where
  pending : Completion
  value : Completion
  exception : Option Error → Completion

pub data Notice : Type 0 where
  on_started on_completed on_cancelled : Notice
  on_failed : Option Error → Notice

pub record Lifecycle : Type 0 where
  pub completion : Completion
  pub failure : Option Error
  pub queued : Bool
  pub running : Bool
  pub started : Bool
  pub completed : Bool
  pub failed : Bool
  pub cancelled : Bool
  pub terminal : Bool
  pub execution_depth : ℕ
  pub execution_thread : Option ℕ
  pub run_next_permitted : Bool
  pub notices : List Notice

pub fresh : Lifecycle
fresh = record {
  completion = pending;
  failure = none;
  queued = false;
  running = false;
  started = false;
  completed = false;
  failed = false;
  cancelled = false;
  terminal = false;
  execution_depth = 0;
  execution_thread = none;
  run_next_permitted = false;
  notices = [];
}

-- `set_value` and `set_exception` throw a `future_error`, a `logic_error`, the second time.
abbrev pub settle : Completion → M Lifecycle (Unit {0})
settle c d = elim d.completion [
  | pending ↦ (record d { completion = c }, returned tt)
  | value ↦ (d, thrown logic_error)
  | exception e ↦ (d, thrown logic_error)
]

abbrev pub notify : Notice → M Lifecycle (Unit {0})
notify n d = (record d { notices = d.notices ++ n ∷ [] }, returned tt)

-- Cancellation wins over a step that returned normally.
abbrev pub outcome_of : Terminal → Bool → Terminal
outcome_of completed_state true = cancelled_state
outcome_of t _ = t

abbrev pub publish : Terminal → Option Error → M Lifecycle (Unit {0})
publish completed_state failure = do
  d ← get
  put (record d { completed = true })
  settle value
  notify on_completed
publish failed_state failure = do
  d ← get
  put (record d { failed = true; failure = failure })
  settle (exception failure)
  notify (on_failed failure)
publish cancelled_state failure = do
  d ← get
  put (record d { cancelled = true })
  settle value
  notify on_cancelled

pub complete : Terminal → Option Error → M Lifecycle (Unit {0})
complete t failure d =
    if d.terminal
    then (d, returned tt)
    else publish (outcome_of t d.cancelled) failure
        (record d { terminal = true; queued = false; running = false })

-- The locked part of `cancel`; the result is `completeNow`.
pub request_cancel : M Lifecycle Bool
request_cancel d =
    if d.terminal || d.cancelled
    then (d, returned false)
    else (record d { cancelled = true }, returned (not d.queued))

pub cancel : M Lifecycle (Unit {0})
unfolding request_cancel complete
cancel = do now ← request_cancel; if now then complete cancelled_state none else pure tt

-- The locked part of `run`.
pub submit : M Lifecycle Bool
submit d =
    if d.terminal || d.cancelled || d.queued
    then (d, returned false)
    else (record d { queued = true }, returned true)

-- The locked part of `resetQueuedAfterSubmission`.
pub unqueue : M Lifecycle Bool
unqueue d = (record d { queued = false }, returned (d.cancelled && not d.terminal))

pub reset_queued_after_submission : M Lifecycle (Unit {0})
unfolding unqueue complete
reset_queued_after_submission = do
  now ← unqueue
  if now then complete cancelled_state none else pure tt

-- `hook` is the exception that the client's `onStarted` throws, if it throws.
pub begin_step : Option Error → M Lifecycle Bool
begin_step hook d =
    if d.terminal || d.cancelled
    then (d, returned false)
    else if d.started
    then (record d { running = true }, returned true)
    else let entered = record d {
      running = true;
      started = true;
      notices = d.notices ++ on_started ∷ [];
    } in
      elim hook [ none ↦ (entered, returned true) | some e ↦ (entered, thrown e) ]

pub is_cancelled : Lifecycle → Bool
is_cancelled d = d.cancelled

pub is_running : Lifecycle → Bool
is_running d = d.queued || d.running

abbrev pub is_me : Option ℕ → ℕ → Bool
is_me none me = false
is_me (some t) me = t == me

abbrev pub submitted : Lifecycle → Bool
submitted d = d.queued || d.running || d.terminal

abbrev pub internal_caller : ℕ → Lifecycle → Bool
internal_caller me d = ltb 0 d.execution_depth && is_me d.execution_thread me

abbrev pub reserved : ℕ → Lifecycle → Option Error
reserved me d = if submitted d && not (internal_caller me d) then some logic_error else none

pub data Extra : Type 0 where
  cancels : Extra

abbrev pub extra_of : Extra → Lifecycle → Lifecycle
extra_of cancels d = (cancel d).0

-- The overridden hooks of `Dmn_State`, for a call in thread `me`.
abbrev pub runtime_hooks : ℕ → Hooks Lifecycle Extra
runtime_hooks me = record {
  before_set_state_fnc = λ d. if submitted d then some logic_error else none;
  before_set_next = reserved me;
  before_set_end = reserved me;
  before_run_next = λ d.
      if not (internal_caller me d) || not d.run_next_permitted
      then (d, some logic_error)
      else (record d { run_next_permitted = false }, none);
  extra = extra_of;
}

permit_once : M Lifecycle (Unit {0})
permit_once = do
  d ← get
  assert (not d.run_next_permitted)
  put (record d { run_next_permitted = true })

-- `unsigned int` wraps at 2 ^ 32.
pub enter_internal_execution : ℕ → Bool → M Lifecycle (Unit {0})
unfolding permit_once
enter_internal_execution me permit_run_next = do
  d ← get
  if d.execution_depth == 0
      then put (record d { execution_thread = some me })
      else assert (is_me d.execution_thread me)
  e ← get
  put (record e { execution_depth = (e.execution_depth + 1) % 4294967296 })
  if permit_run_next then permit_once else pure tt

pub leave_internal_execution : ℕ → M Lifecycle (Unit {0})
leave_internal_execution me = do
  d ← get
  assert (ltb 0 d.execution_depth)
  assert (is_me d.execution_thread me)
  let depth = d.execution_depth - 1
  if depth == 0
      then put (record d {
        execution_depth = depth;
        execution_thread = none;
        run_next_permitted = false;
      })
      else put (record d { execution_depth = depth })

-- The object is a `Dmn_State` whose derived members are the lifecycle.
abbrev pub Object : Type 0
Object = Machine Lifecycle

abbrev pub lift : {A : Type 0} → Object → Lifecycle × Outcome A → Object × Outcome A
lift s (d, r) = (record s { derived = d }, r)

abbrev pub within : {A : Type 0} → M Lifecycle A → M Object A
within m s = lift s (m s.derived)

-- `Execution_Guard`: the destructor runs after a return and after an exception.
abbrev pub guarded : {A : Type 0} → ℕ → Object × Outcome A → Object × Outcome A
guarded me (s, returned a) = resume (within (leave_internal_execution me) s) (λ _. pure a)
guarded me (s, thrown e) = resume (within (leave_internal_execution me) s) (λ _. raise e)
guarded me (s, aborted) = (s, aborted)

pub set_end_managed : ℕ → M Object (Unit {0})
set_end_managed me = do
  within (enter_internal_execution me false)
  λ s. guarded me (set_end (runtime_hooks me) s)

pub run_next_managed : ℕ → (ℕ → Script Lifecycle Extra) → M Object Bool
run_next_managed me body = do
  within (enter_internal_execution me true)
  λ s. guarded me (run_next (runtime_hooks me) body s)

-- `setRuntimeStateFnc` tests the callback before anything else.
pub set_runtime_state_fnc : ℕ → Option ℕ → Index → M Object (Unit {0})
set_runtime_state_fnc me fnc i = do
  throw_if (is_none fnc) invalid_argument
  set_state_fnc (runtime_hooks me) fnc i
