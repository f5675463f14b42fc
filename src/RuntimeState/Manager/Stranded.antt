-- ===== src/RuntimeState/Manager/Stranded.antt =====
-- src/dmn-runtime-state.cpp: a state whose next step the runtime does not take.
use dmn.Prelude.{
  ℕ, ◌≡◌, refl, true, false, Option, some, List, [], ◌∷◌, ◌==◌, Bool-cases, inl, inr, ◌∙◌,
}
use dmn.Effect.{Error, returned, thrown}
use dmn.State.{Script}
use dmn.RuntimeState.{
  pending, Lifecycle, Extra, Object, reset_queued_after_submission, begin_step, run_next_managed,
}
use dmn.RuntimeState.Open.{Open, stepped}
use dmn.RuntimeState.Manager.{World, contains, erase, execute_state_step, begin_shutdown}
use dmn.RuntimeState.Manager.Shutdown.{begin_shutdown-other}
use dmn.RuntimeState.Manager.Dispatch.{and_false}
use dmn.RuntimeState.Manager.Submission.{eq_self}

contains-erase : (id : ℕ) (ids : List ℕ) → contains id (erase id ids) ≡ false
unfolding contains erase
contains-erase id [] = refl
contains-erase id (x ∷ xs) = elim (Bool-cases (x == id)) [
  | inl same ↦ simp (same, contains-erase id xs)
  | inr other ↦ simp (other, contains-erase id xs)
]

module _ (w : World) (me id : ℕ) (body : ℕ → Script Lifecycle Extra) (hook : Option Error)
    (s t : Object) (b : Lifecycle) (found : w.objects id ≡ some s)
    (begun : begin_step hook s.derived ≡ (b, returned true)) where
  stranded_now :
      (x : Error)
      → run_next_managed me body (record s { derived = b }) ≡ (t, returned true)
      → Open s.derived
      → contains id w.pending_states ≡ true
      → t.derived.running ≡ true
      → t.derived.cancelled ≡ false
      → let (v, r) = execute_state_step me id body hook (some x) w in
        let left = record t {
          derived = record t.derived {
            completion = pending;
            terminal = false;
            queued = false;
            running = true;
            cancelled = false;
          };
        } in
        (r ≡ thrown x)
        × (contains id v.pending_states ≡ false)
        × (v.jobs ≡ w.jobs)
        × (v.objects id ≡ some left)
  unfolding execute_state_step reset_queued_after_submission
  stranded_now x e o held run c =
      let u = stepped me body hook s t b (returned true) o begun e in
      simp (found, begun, eq_self id, e, held, and_false, run, c, u.unended, u.unkept)
        (refl, contains-erase id w.pending_states, refl, refl)

  -- Where the state exists and is open (submitted, not terminal, its promise not kept), the manager holds
  -- it, its step begins and leaves work to do, no cancellation is asked for, and the runtime refuses the
  -- post of the next step: the exception goes to the runtime, the manager has let go of the state, and
  -- no job is posted for it, while it is not terminal, still says that it is running, and its promise is
  -- not kept. A later `shutdown` does not end it either: it does not reach the state, which stays as it is.
  pub stranded_dispatch :
      (x : Error)
      → run_next_managed me body (record s { derived = b }) ≡ (t, returned true)
      → Open s.derived
      → contains id w.pending_states ≡ true
      → t.derived.running ≡ true
      → t.derived.cancelled ≡ false
      → let (v, r) = execute_state_step me id body hook (some x) w in
        let left = record t {
          derived = record t.derived {
            completion = pending;
            terminal = false;
            queued = false;
            running = true;
            cancelled = false;
          };
        } in
        (r ≡ thrown x)
        × (contains id v.pending_states ≡ false)
        × (v.jobs ≡ w.jobs)
        × (v.objects id ≡ some left)
        × ((begin_shutdown false v).0.objects id ≡ some left)
  stranded_dispatch x e o held run c =
      let (r, gone, jobs, left) = stranded_now x e o held run c in
      (
        r,
        gone,
        jobs,
        left,
        begin_shutdown-other (execute_state_step me id body hook (some x) w).0 id gone ∙ left,
      )
