-- ===== src/RuntimeState/Open.antt =====
-- src/dmn-runtime-state.cpp: a submitted state stays open while its callback runs.
use dmn.Prelude.{ℕ, ◌≡◌, Bool, true, false, arith, Option}
use dmn.Effect.{Error, Outcome, returned, thrown, aborted, resume, pure, M}
use dmn.State.{Script, run_next}
use dmn.State.Derived.{run_next-Holds}
use dmn.RuntimeState.{
  Lifecycle, pending, Extra, cancels, extra_of, Object, cancel, request_cancel, begin_step,
  runtime_hooks, enter_internal_execution, leave_internal_execution, guarded, lift,
  run_next_managed,
}

-- A state that was submitted and has not ended: its promise is not kept yet.
pub record Open (d : Lifecycle) : Type 0 where
  pub unended : d.terminal ≡ false
  pub unkept : d.completion ≡ pending
  pub submitted : d.queued ≡ true

cancel-Open : (e : Extra) (d : Lifecycle) → Open d → Open (extra_of e d)
unfolding cancel request_cancel
cancel-Open cancels d o = ground arith

consume-Open : (me : ℕ) (d : Lifecycle) → Open d → Open ((runtime_hooks me).before_run_next d).0
consume-Open me d o = ground arith

enter-Open :
    (me : ℕ) (permit : Bool) (d : Lifecycle)
    → Open d
    → Open (enter_internal_execution me permit d).0
unfolding enter_internal_execution
enter-Open me permit d o = ground arith

leave-Open : (me : ℕ) (d : Lifecycle) → Open d → Open (leave_internal_execution me d).0
unfolding leave_internal_execution
leave-Open me d o = ground arith

begun-Open : (hook : Option Error) (d : Lifecycle) → Open d → Open (begin_step hook d).0
unfolding begin_step
begun-Open hook d o = ground arith

pub begin_step-Open :
    (hook : Option Error) (d b : Lifecycle)
    → Open d
    → begin_step hook d ≡ (b, returned true)
    → Open b
begin_step-Open hook d b o e = let h = begun-Open hook d o in rw e at h

lifted-Open :
    {A B : Type 0} (s : Object) (p : Lifecycle × Outcome A) (f : A → M Object B)
    → Open p.0
    → ((a : A) (t : Object) → Open t.derived → Open (f a t).0.derived)
    → Open (resume (lift s p) f).0.derived
lifted-Open s (d, returned a) f o k = k a _ o
lifted-Open s (d, thrown e) f o k = o
lifted-Open s (d, aborted) f o k = o

guarded-Open :
    {A : Type 0} (me : ℕ) (r : Object × Outcome A)
    → Open r.0.derived
    → Open (guarded me r).0.derived
guarded-Open me (s, returned a) o =
    lifted-Open s (leave_internal_execution me s.derived) (λ _. pure a) (leave-Open me s.derived o)
      (λ u t q. q)
guarded-Open me (s, thrown e) o =
    lifted-Open s (leave_internal_execution me s.derived) (λ _ t. (t, thrown e))
      (leave-Open me s.derived o) (λ u t q. q)
guarded-Open me (s, aborted) o = o

-- Whatever the callback does, its cancellation of its own state included.
pub run_next_managed-Open :
    (me : ℕ) (body : ℕ → Script Lifecycle Extra) (s : Object)
    → Open s.derived
    → Open (run_next_managed me body s).0.derived
unfolding run_next_managed
run_next_managed-Open me body s o =
    lifted-Open s (enter_internal_execution me true s.derived)
      (λ _ t. guarded me (run_next (runtime_hooks me) body t)) (enter-Open me true s.derived o)
      (λ u t q.
        guarded-Open me (run_next (runtime_hooks me) body t)
          (run_next-Holds (runtime_hooks me) Open cancel-Open (consume-Open me) body t q))

-- The state that a step leaves is open, if it was when the dispatch began.
pub stepped :
    (me : ℕ) (body : ℕ → Script Lifecycle Extra) (hook : Option Error) (s t : Object)
    (b : Lifecycle) (r : Outcome Bool)
    → Open s.derived
    → begin_step hook s.derived ≡ (b, returned true)
    → run_next_managed me body (record s { derived = b }) ≡ (t, r)
    → Open t.derived
stepped me body hook s t b r o begun e =
    let h =
      run_next_managed-Open me body (record s { derived = b })
        (begin_step-Open hook s.derived b o begun) in
    rw e at h
