-- ===== src/RuntimeState/Invariant.antt =====
-- src/dmn-runtime-state.cpp: what every block under `m_mutex` keeps, whatever the order of the blocks.
use dmn.Prelude.{
  ℕ, ◌≡◌, ◌∙◌, refl, Bool, true, false, ◌||◌, ◌&&◌, not, Option, List, [], ◌∷◌, ◌++◌, if◌then◌else◌,
  arith,
}
use dmn.Effect.{Error, returned}
use dmn.RuntimeState.{
  Terminal, completed_state, failed_state, cancelled_state, Completion, pending, value, exception,
  Notice, on_started, on_completed, on_cancelled, on_failed, Lifecycle, fresh, complete,
  request_cancel, submit, unqueue, begin_step, enter_internal_execution, leave_internal_execution,
  runtime_hooks,
}

abbrev started_part : Bool → List Notice
started_part true = on_started ∷ []
started_part false = []

-- The terminal hook that the flags call for.
abbrev terminal_part : Lifecycle → List Notice
terminal_part d =
    if d.terminal
    then (if d.completed
        then on_completed
        else if d.failed
        then on_failed d.failure
        else on_cancelled)
      ∷ []
    else []

abbrev promised : Lifecycle → Completion
promised d = if d.terminal then (if d.failed then exception d.failure else value) else pending

pub record IsSound (d : Lifecycle) : Type 0 where
  pub hooks_called : d.notices ≡ started_part d.started ++ terminal_part d
  pub settled : d.completion ≡ promised d
  pub undecided : (d.terminal || not (d.completed || d.failed)) ≡ true
  pub decided : (not d.terminal || (d.completed || (d.failed || d.cancelled))) ≡ true
  pub closed : (not d.terminal || not (d.queued || d.running)) ≡ true
  pub exclusive : not (d.completed && (d.failed || d.cancelled)) ≡ true

-- One critical section, in any thread; a hook that it decides to call goes with it.
pub data Block : Type 0 where
  cancels_block : Block
  completes : Terminal → Option Error → Block
  submits : Block
  unqueues : Block
  begins : Option Error → Block
  enters : ℕ → Bool → Block
  leaves : ℕ → Block
  consumes : ℕ → Block

pub block : Block → Lifecycle → Lifecycle
block cancels_block d = (request_cancel d).0
block (completes t failure) d = (complete t failure d).0
block submits d = (submit d).0
block unqueues d = (unqueue d).0
block (begins hook) d = (begin_step hook d).0
block (enters me permit) d = (enter_internal_execution me permit d).0
block (leaves me) d = (leave_internal_execution me d).0
block (consumes me) d = ((runtime_hooks me).before_run_next d).0

pub blocks : List Block → Lifecycle → Lifecycle
blocks [] d = d
blocks (b ∷ bs) d = blocks bs (block b d)

fresh-IsSound : IsSound fresh
unfolding fresh
fresh-IsSound = ground arith

complete-IsSound :
    (t : Terminal) (failure : Option Error) (d : Lifecycle)
    → IsSound d
    → IsSound (complete t failure d).0
unfolding complete
complete-IsSound completed_state failure d v = ground arith
complete-IsSound failed_state failure d v = ground arith
complete-IsSound cancelled_state failure d v = ground arith

block-IsSound : (b : Block) (d : Lifecycle) → IsSound d → IsSound (block b d)
unfolding block
block-IsSound cancels_block d v = unfold request_cancel in ground arith
block-IsSound (completes t failure) d v = complete-IsSound t failure d v
block-IsSound submits d v = unfold submit in ground arith
block-IsSound unqueues d v = unfold unqueue in ground arith
block-IsSound (begins hook) d v = unfold begin_step in ground arith
block-IsSound (enters me permit) d v = unfold enter_internal_execution in ground arith
block-IsSound (leaves me) d v = unfold leave_internal_execution in ground arith
block-IsSound (consumes me) d v = ground arith

blocks_from : (bs : List Block) (d : Lifecycle) → IsSound d → IsSound (blocks bs d)
unfolding blocks
blocks_from [] d v = v
blocks_from (b ∷ bs) d v = blocks_from bs (block b d) (block-IsSound b d v)

-- Whatever blocks the threads run on a new state, and in whatever order: the hooks called so far are
-- `onStarted` if the state has started, then the hook of its end if it has ended, each once; the completion is settled exactly when the state is
-- terminal, with the exception exactly when it failed; a terminal state is neither queued nor
-- running; and it has completed, or failed, or was cancelled, where completion excludes the others.
pub blocks-IsSound : (bs : List Block) → IsSound (blocks bs fresh)
blocks-IsSound bs = blocks_from bs fresh fresh-IsSound

returns :
    (t : Terminal) (failure : Option Error) (d : Lifecycle)
    → IsSound d
    → (complete t failure d).1 ≡ returned tt
unfolding complete
returns completed_state failure d v = ground arith
returns failed_state failure d v = ground arith
returns cancelled_state failure d v = ground arith

-- Whatever blocks the threads ran on a new state before, `complete` returns: the promise is never
-- satisfied twice, and no `future_error` is thrown.
pub complete_returns :
    (bs : List Block) (t : Terminal) (failure : Option Error)
    → (complete t failure (blocks bs fresh)).1 ≡ returned tt
complete_returns bs t failure = returns t failure (blocks bs fresh) (blocks-IsSound bs)

-- The outcome that a waiter or a hook has seen.
abbrev pub Same : Lifecycle → Lifecycle → Type 0
Same d e =
    (e.terminal ≡ d.terminal)
    × (e.completion ≡ d.completion)
    × (e.failure ≡ d.failure)
    × (e.completed ≡ d.completed)
    × (e.failed ≡ d.failed)
    × (e.cancelled ≡ d.cancelled)
    × (e.notices ≡ d.notices)

block-Same : (b : Block) (d : Lifecycle) → d.terminal ≡ true → Same d (block b d)
unfolding block
block-Same cancels_block d h = unfold request_cancel in ground arith
block-Same (completes t failure) d h = unfold complete in ground arith
block-Same submits d h = unfold submit in ground arith
block-Same unqueues d h = unfold unqueue in ground arith
block-Same (begins hook) d h = unfold begin_step in ground arith
block-Same (enters me permit) d h = unfold enter_internal_execution in ground arith
block-Same (leaves me) d h = unfold leave_internal_execution in ground arith
block-Same (consumes me) d h = ground arith

-- The outcome of a terminal state is final: no block, in any order, changes it or calls a hook.
pub blocks-Same : (bs : List Block) (d : Lifecycle) → d.terminal ≡ true → Same d (blocks bs d)
unfolding blocks
blocks-Same [] d h = (refl, refl, refl, refl, refl, refl, refl)
blocks-Same (b ∷ bs) d h =
    let s = block-Same b d h in
    let r = blocks-Same bs (block b d) (s.0 ∙ h) in
    (r.0 ∙ s.0, r.1 ∙ s.1, r.2 ∙ s.2, r.3 ∙ s.3, r.4 ∙ s.4, r.5 ∙ s.5, r.6 ∙ s.6)
