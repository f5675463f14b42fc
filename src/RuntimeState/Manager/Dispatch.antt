-- ===== src/RuntimeState/Manager/Dispatch.antt =====
-- src/dmn-runtime-state.cpp: what one dispatch of the runtime does to a state.
use dmn.Prelude.{
  ℕ, ◌≡◌, refl, Bool, true, false, ◌&&◌, Option, none, some, List, [], ◌∷◌, ◌++◌, ◌==◌, leb, length,
  if◌then◌else◌, arith,
}
use dmn.Effect.{Error, returned, thrown}
use dmn.State.{Script, set_end, run_next}
use dmn.State.End.{start-end}
use dmn.RuntimeState.{
  pending, value, exception, on_completed, on_cancelled, on_failed, Lifecycle, Extra, Object,
  complete, begin_step, set_end_managed, run_next_managed, enter_internal_execution,
  leave_internal_execution,
}
use dmn.RuntimeState.Open.{Open, stepped}
use dmn.RuntimeState.Manager.{World, contains, erase, execute_state_step, release_state}
use dmn.RuntimeState.Manager.Submission.{eq_self}

-- No dispatch is under way.
abbrev pub rest : Lifecycle → Lifecycle
rest d = record d { execution_depth = 0; execution_thread = none; run_next_permitted = false }

abbrev pub object : ℕ → List (Option ℕ) → Bool → Bool → Lifecycle → Object
object n states initialized finalized d = record {
  next = n;
  states = states;
  initialized = initialized;
  finalized = finalized;
  running_state_callback = false;
  derived = rest d;
}

pub and_false : (b : Bool) → (b && false) ≡ false
and_false true = refl
and_false false = refl

leb_self : (n : ℕ) → leb n n ≡ true
leb_self n = ground arith

set_end_managed_lem :
    (me n : ℕ) (states : List (Option ℕ)) (ini fin : Bool) (d : Lifecycle)
    → set_end_managed me (object n states ini fin d)
      ≡ (object (length states) states ini fin d, returned tt)
unfolding set_end_managed enter_internal_execution leave_internal_execution set_end
set_end_managed_lem me n states ini fin d = simp (eq_self me, and_false)

-- At the end of the machine the managed `runNext` finalizes, and runs no callback.
run_next_managed-end :
    (me : ℕ) (body : ℕ → Script Lifecycle Extra) (states : List (Option ℕ)) (ini : Bool)
    (d : Lifecycle)
    → run_next_managed me body (object (length states) states ini false d)
      ≡ (object (length states) states ini true d, returned false)
unfolding run_next_managed enter_internal_execution leave_internal_execution run_next
run_next_managed-end me body states ini d = simp (eq_self me, start-end)

release_eq :
    (id : ℕ) (w : World)
    → release_state id w ≡ (record w { pending_states = erase id w.pending_states }, returned tt)
unfolding release_state
release_eq id w = refl

-- A state that was cancelled before its dispatch, that is not terminal, whose promise is not kept and
-- whose machine is not finalized: whatever the callbacks are and would do, none of them runs; the state
-- machine is finalized, the state terminal and cancelled, with the marks of completion and failure as
-- they were; its future is ready without an exception, its hook called, and the manager lets go of it.
pub cancelled_dispatch :
    (w : World) (me id n : ℕ) (states : List (Option ℕ)) (ini : Bool) (d : Lifecycle)
    (body : ℕ → Script Lifecycle Extra) (hook post : Option Error)
    → w.objects id ≡ some (object n states ini false d)
    → d.cancelled ≡ true
    → d.terminal ≡ false
    → d.completion ≡ pending
    → let (v, r) = execute_state_step me id body hook post w in
      (r ≡ returned tt)
      × (v.pending_states ≡ erase id w.pending_states)
      × (v.jobs ≡ w.jobs)
      × (v.objects id
          ≡ some (
              object (length states) states ini true (record d {
                completion = value;
                queued = false;
                running = false;
                cancelled = true;
                terminal = true;
                notices = d.notices ++ on_cancelled ∷ [];
              })))
unfolding execute_state_step begin_step complete
cancelled_dispatch w me id n states ini d body hook post o c t p =
    let e = record d { completion = pending; cancelled = true; terminal = false } in
    simp
      (
        o,
        c,
        t,
        p,
        eq_self id,
        set_end_managed_lem me n states ini false e,
        run_next_managed-end me body states ini e,
      )
      (refl, refl, refl, refl)

-- The dispatch of a cancelled state changes no other state, and does not open or close the manager.
pub cancelled_alone :
    (w : World) (me id n : ℕ) (states : List (Option ℕ)) (ini : Bool) (d : Lifecycle)
    (body : ℕ → Script Lifecycle Extra) (hook post : Option Error) (j : ℕ)
    → w.objects id ≡ some (object n states ini false d)
    → d.cancelled ≡ true
    → d.terminal ≡ false
    → d.completion ≡ pending
    → (j == id) ≡ false
    → let v = (execute_state_step me id body hook post w).0 in
      (v.objects j ≡ w.objects j) × (v.shut ≡ w.shut)
unfolding execute_state_step begin_step complete
cancelled_alone w me id n states ini d body hook post j o c t p ne =
    let e = record d { completion = pending; cancelled = true; terminal = false } in
    simp
      (
        o,
        c,
        t,
        p,
        ne,
        eq_self id,
        set_end_managed_lem me n states ini false e,
        run_next_managed-end me body states ini e,
      )
      (refl, refl)

module _ (w : World) (me id : ℕ) (body : ℕ → Script Lifecycle Extra) (hook : Option Error)
    (s t : Object) (b : Lifecycle) (found : w.objects id ≡ some s)
    (begun : begin_step hook s.derived ≡ (b, returned true)) where
  -- Where the state exists and is open (submitted, not terminal, its promise not kept), its step begins,
  -- and `runNextManaged` throws, whatever the callback has done before: the dispatch throws the same exception to the runtime, and
  -- the state has failed with it, also for those who wait on the future; the manager lets go of the state.
  pub failed_dispatch :
      (x : Error) (post : Option Error)
      → run_next_managed me body (record s { derived = b }) ≡ (t, thrown x)
      → Open s.derived
      → let (v, r) = execute_state_step me id body hook post w in
        (r ≡ thrown x)
        × (v.pending_states ≡ erase id w.pending_states)
        × (v.jobs ≡ w.jobs)
        × (v.objects id
            ≡ some (record t {
              derived = record t.derived {
                completion = exception (some x);
                failure = some x;
                queued = false;
                running = false;
                failed = true;
                terminal = true;
                notices = t.derived.notices ++ on_failed (some x) ∷ [];
              };
            }))
  unfolding execute_state_step complete
  failed_dispatch x post e o =
      let u = stepped me body hook s t b (thrown x) o begun e in
      simp (found, begun, eq_self id, e, u.unended, u.unkept) (refl, refl, refl, refl)

  -- Where the state exists and is open (submitted, not terminal, its promise not kept), its step begins,
  -- and `runNextManaged` returns false, whatever the callback has done: the state has completed, unless its cancellation was requested meanwhile,
  -- which wins; the future is ready without an exception, and the manager lets go of the state.
  pub finished_dispatch :
      (post : Option Error) (stopped : Bool)
      → run_next_managed me body (record s { derived = b }) ≡ (t, returned false)
      → Open s.derived
      → t.derived.cancelled ≡ stopped
      → let (v, r) = execute_state_step me id body hook post w in
        (r ≡ returned tt)
        × (v.pending_states ≡ erase id w.pending_states)
        × (v.jobs ≡ w.jobs)
        × (v.objects id
            ≡ some (record t {
              derived = record t.derived {
                completion = value;
                queued = false;
                running = false;
                terminal = true;
                cancelled = stopped;
                completed = if stopped then t.derived.completed else true;
                notices =
                    t.derived.notices ++ (if stopped then on_cancelled else on_completed) ∷ [];
              };
            }))
  unfolding execute_state_step complete
  finished_dispatch post true e o c =
      let u = stepped me body hook s t b (returned false) o begun e in
      simp (found, begun, eq_self id, e, u.unended, u.unkept, c) (refl, refl, refl, refl)
  finished_dispatch post false e o c =
      let u = stepped me body hook s t b (returned false) o begun e in
      simp (found, begun, eq_self id, e, u.unended, u.unkept, c) (refl, refl, refl, refl)

  -- Where the state exists, its step begins, `runNextManaged` returns true, and the runtime takes the
  -- post: a state that the manager holds stays held, and is posted once.
  pub continued_dispatch :
      run_next_managed me body (record s { derived = b }) ≡ (t, returned true)
      → contains id w.pending_states ≡ true
      → let (v, r) = execute_state_step me id body hook none w in
        (r ≡ returned tt)
        × (v.pending_states ≡ w.pending_states)
        × (v.jobs ≡ w.jobs ++ id ∷ [])
        × (v.objects id ≡ some t)
  unfolding execute_state_step
  continued_dispatch e held =
      simp (found, begun, eq_self id, e, held, and_false) (refl, refl, refl, refl)
