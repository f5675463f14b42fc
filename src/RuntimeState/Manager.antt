-- ===== src/RuntimeState/Manager.antt =====
-- src/dmn-runtime-state.cpp: `Dmn_Runtime_State_Manager` and `Dmn_Runtime_State::run`, over a store of
-- state objects named by numbers (their addresses). What the runtime does with a post is an input,
-- `post`: the exception of `addJob` or `addTimedJob`, or none. `body` is what the callbacks do and
-- `hook` the exception of `onStarted` in this dispatch.
pub mod Dispatch
pub mod Submission
pub mod Shutdown
pub mod Drain
pub mod Stranded
use dmn.Prelude.{
  ℕ, Bool, true, false, not, ◌&&◌, ◌||◌, Option, none, some, List, [], ◌∷◌, ◌++◌, ◌==◌,
  if◌then◌else◌,
}
use dmn.Effect.{
  Error, Outcome, returned, thrown, aborted, runtime_error, M, resume, get, put, pure, raise,
  throw_if, ◌>>=◌, ◌>>◌,
}
use dmn.State.{Machine, Script, has_state_fncs}
use dmn.RuntimeState.{
  pending, value, exception, Terminal, completed_state, failed_state, cancelled_state, Lifecycle,
  Extra, Object, within, complete, cancel, submit, reset_queued_after_submission, begin_step,
  set_end_managed, run_next_managed,
}

pub record World : Type 0 where
  pub objects : ℕ → Option Object
  pub pending_states : List ℕ
  pub shut : Bool
  pub jobs : List ℕ

unfoldable pub contains : ℕ → List ℕ → Bool
contains id [] = false
contains id (x ∷ xs) = x == id || contains id xs

pub erase : ℕ → List ℕ → List ℕ
erase id [] = []
erase id (x ∷ xs) = let rest = erase id xs in if x == id then rest else x ∷ rest

abbrev pub update : (ℕ → Option Object) → ℕ → Object → ℕ → Option Object
update f id s i = if i == id then some s else f i

-- A method of the object `id`; a dangling handle is undefined behaviour.
abbrev pub stored : {A : Type 0} → World → ℕ → Object × Outcome A → World × Outcome A
stored w id (s, r) = (record w { objects = update w.objects id s }, r)

abbrev pub on_object : {A : Type 0} → World → ℕ → Option Object → M Object A → World × Outcome A
on_object w id none m = (w, aborted)
on_object w id (some s) m = stored w id (m s)

abbrev pub at : {A : Type 0} → ℕ → M Object A → M World A
at id m w = on_object w id (w.objects id) m

pub release_state : ℕ → M World (Unit {0})
release_state id w = (record w { pending_states = erase id w.pending_states }, returned tt)

-- The end of `enqueueState`: the post, or the recovery from its exception.
post_job : ℕ → Option Error → M World Bool
unfolding release_state
post_job id none w = (record w { jobs = w.jobs ++ id ∷ [] }, returned true)
post_job id (some e) w =
    resume (release_state id w) (λ _. at id (within reset_queued_after_submission) >> raise e)

pub enqueue_state : ℕ → Option Error → M World Bool
unfolding post_job
enqueue_state id post w =
    if w.shut && not (contains id w.pending_states)
    then (w, returned false)
    else if contains id w.pending_states
    then post_job id post w
    else post_job id post (record w { pending_states = id ∷ w.pending_states })

launch : ℕ → Option Error → M World Bool
launch id post = do
  queued ← enqueue_state id post
  if queued then pure true else (at id (within reset_queued_after_submission) >> pure false)

-- `run`, called in the runtime's own thread or not.
pub run : ℕ → Bool → Option Error → M World Bool
unfolding launch
run id in_async_thread post = do
  throw_if in_async_thread runtime_error
  ready ← at id (λ s. (s, returned (has_state_fncs s)))
  accepted ← if ready then at id (within submit) else pure false
  if accepted then launch id post else pure false

-- The `try` block of a dispatch; true means that the state is posted again.
cancelled_step : ℕ → ℕ → (ℕ → Script Lifecycle Extra) → M World Bool
unfolding release_state
cancelled_step me id body = do
  at id (set_end_managed me)
  more ← at id (run_next_managed me body)
  at id (within (complete cancelled_state none))
  release_state id
  pure false

finished : ℕ → M World Bool
unfolding release_state
finished id = at id (within (complete completed_state none)) >> release_state id >> pure false

active_step : ℕ → ℕ → (ℕ → Script Lifecycle Extra) → M World Bool
unfolding finished
active_step me id body = do
  more ← at id (run_next_managed me body)
  if more then pure true else finished id

try_step : ℕ → ℕ → (ℕ → Script Lifecycle Extra) → Option Error → M World Bool
unfolding cancelled_step active_step
try_step me id body hook = do
  begun ← at id (within (begin_step hook))
  if begun then active_step me id body else cancelled_step me id body

-- The `catch (...)` of a dispatch.
abbrev pub catch_step : ℕ → World × Outcome Bool → World × Outcome Bool
catch_step id (w, thrown e) =
    resume (at id (within (complete failed_state (some e))) w) (λ _. release_state id >> raise e)
catch_step id (w, returned b) = (w, returned b)
catch_step id (w, aborted) = (w, aborted)

repost : ℕ → Option Error → Bool → M World (Unit {0})
unfolding enqueue_state
repost id post true = do queued ← enqueue_state id post; pure tt
repost id post false = pure tt

dispatch :
    ℕ
    → ℕ
    → (ℕ → Script Lifecycle Extra)
    → Option Error
    → Option Error
    → Option Object
    → M World (Unit {0})
unfolding try_step repost
dispatch me id body hook post none w = (w, returned tt)
dispatch me id body hook post (some s) w =
    resume (catch_step id (try_step me id body hook w)) (repost id post)

-- `weakState.lock()` gives nothing once the state has been destroyed.
pub execute_state_step :
    ℕ → ℕ → (ℕ → Script Lifecycle Extra) → Option Error → Option Error → M World (Unit {0})
unfolding dispatch
execute_state_step me id body hook post w = dispatch me id body hook post (w.objects id) w

-- The cancellations of `shutdown`, in the order of the map.
pub cancel_all : List ℕ → M World (Unit {0})
cancel_all [] w = (w, returned tt)
cancel_all (id ∷ ids) w = resume (at id (within cancel) w) (λ _. cancel_all ids)

-- `shutdown` up to its last loop, with the states whose futures it then waits for.
pub begin_shutdown : Bool → M World (List ℕ)
unfolding cancel_all
begin_shutdown in_async_thread = do
  throw_if in_async_thread runtime_error
  w ← get
  put (record w { shut = true })
  cancel_all w.pending_states
  pure w.pending_states

-- Whether a state's future is ready.
abbrev pub is_ready : Option Object → Bool
is_ready none = false
is_ready (some s) = elim s.derived.completion [
  | pending ↦ false
  | value ↦ true
  | exception e ↦ true
]

abbrev pub all_ready : List ℕ → World → Bool
all_ready [] w = true
all_ready (id ∷ ids) w = let rest = all_ready ids w in is_ready (w.objects id) && rest

-- The last loop of `shutdown`, after what the other threads have done in the meantime; `none` is that
-- it still waits.
abbrev pub await_all :
    (World → World) → World × Outcome (List ℕ) → World × Option (Outcome (Unit {0}))
await_all others (w, returned ids) =
    let v = others w in (v, if all_ready ids v then some (returned tt) else none)
await_all others (w, thrown e) = (w, some (thrown e))
await_all others (w, aborted) = (w, some aborted)

pub shutdown : Bool → (World → World) → World → World × Option (Outcome (Unit {0}))
unfolding begin_shutdown
shutdown in_async_thread others w = await_all others (begin_shutdown in_async_thread w)
