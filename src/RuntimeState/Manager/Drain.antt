-- ===== src/RuntimeState/Manager/Drain.antt =====
-- src/dmn-runtime-state.cpp: `shutdown` and the dispatches that it waits for.
use dmn.Prelude.{
  ℕ, ◌+◌, ◌≡◌, refl, ◌∙◌, ap, Bool, true, false, ◌&&◌, Option, none, some, List, [], ◌∷◌, ◌==◌,
  arith, if◌then◌else◌,
}
use dmn.Effect.{Error, Outcome, returned, thrown, aborted, resume}
use dmn.State.{Script}
use dmn.RuntimeState.{Lifecycle, Extra, Object, Completion, pending, value, exception}
use dmn.RuntimeState.Manager.{
  World, contains, erase, execute_state_step, begin_shutdown, cancel_all, is_ready, all_ready,
  await_all, shutdown,
}
use dmn.RuntimeState.Manager.Submission.{erase_added}
use dmn.RuntimeState.Manager.Dispatch.{object, cancelled_dispatch, cancelled_alone}
use dmn.RuntimeState.Manager.Shutdown.{
  Each, stopping, at_rest, is_pending, no_thread, Each-cancellable, Stopped, cancel_all-Stopped,
  cancel_all-at_rest,
}

-- The keys of a map: none stands twice.
abbrev pub Distinct : List ℕ → Type 0
Distinct [] = Unit {0}
Distinct (id ∷ ids) = (contains id ids ≡ false) × Distinct ids

-- A state that has ended as cancelled, with its future ready.
abbrev pub has_ended : Option Object → Bool
has_ended none = false
has_ended (some s) = is_ready (some s) && (s.derived.terminal && s.derived.cancelled)

absent : (o : Option ℕ) → no_thread o ≡ true → o ≡ none
absent none h = refl
absent (some t) h = cc

unkept : (c : Completion) → is_pending c ≡ true → c ≡ pending
unkept pending h = refl
unkept value h = cc
unkept (exception e) h = cc

rested :
    (s : Object)
    → at_rest (some s) ≡ true
    → s ≡ object s.next s.states s.initialized false s.derived
rested s h =
    let none_ : s.derived.execution_thread ≡ none =
      absent s.derived.execution_thread (ground arith) in
    let a : s.finalized ≡ false = ground arith in
    let b : s.running_state_callback ≡ false = ground arith in
    let c : s.derived.execution_depth ≡ 0 = ground arith in
    let d : s.derived.run_next_permitted ≡ false = ground arith in cc

some_object : (o : Option Object) → at_rest o ≡ true → (s : Object) × (o ≡ some s)
some_object none h = cc
some_object (some s) h = (s, refl)

Each-other :
    (p : Option Object → Bool) (id : ℕ) (ids : List ℕ) (f g : ℕ → Option Object)
    → contains id ids ≡ false
    → ((j : ℕ) → (j == id) ≡ false → g j ≡ f j)
    → Each p ids f
    → Each p ids g
unfolding contains
Each-other p id [] f g h same k = tt
Each-other p id (x ∷ ids) f g h same k =
    (ap p (same x (ground arith)) ∙ k.0, Each-other p id ids f g (ground arith) same k.1)

has_ended-is_ready : (o : Option Object) → has_ended o ≡ true → is_ready o ≡ true
has_ended-is_ready none h = cc
has_ended-is_ready (some s) h = ground arith

has_ended-all_ready :
    (ids : List ℕ) (v : World) → Each has_ended ids v.objects → all_ready ids v ≡ true
has_ended-all_ready [] v h = refl
has_ended-all_ready (id ∷ ids) v h =
    rw (has_ended-is_ready (v.objects id) h.0, has_ended-all_ready ids v h.1) refl

abbrev pub is_nil : List ℕ → Bool
is_nil [] = true
is_nil (id ∷ ids) = false

at_rest-is_ready : (o : Option Object) → at_rest o ≡ true → is_ready o ≡ false
at_rest-is_ready none h = cc
at_rest-is_ready (some s) h = rw (unkept s.derived.completion (ground arith)) refl

at_rest-all_ready :
    (ids : List ℕ) (v : World) → Each at_rest ids v.objects → all_ready ids v ≡ is_nil ids
at_rest-all_ready [] v h = refl
at_rest-all_ready (id ∷ ids) v h = rw (at_rest-is_ready (v.objects id) h.0) refl

-- The end of `begin_shutdown`, after cancellations that stopped the states.
begun_lem :
    (ids : List ℕ) (p : World × Outcome (Unit {0})) (w : World)
    → Stopped ids w p
    → w.shut ≡ true
    → Each at_rest ids p.0.objects
    → let (v, r) = resume p (λ _ v. (v, returned ids)) in
      (r ≡ returned ids)
      × (v.pending_states ≡ w.pending_states)
      × (v.shut ≡ true)
      × Each stopping ids v.objects
      × Each at_rest ids v.objects
begun_lem ids (v, returned u) w stopped shut rest =
    (refl, stopped.held, stopped.closed ∙ shut, stopped.all, rest)
begun_lem ids (v, thrown e) w stopped shut rest = let d = stopped.done in cc
begun_lem ids (v, aborted) w stopped shut rest = let d = stopped.done in cc

begin_shutdown_lem :
    (w : World)
    → Each at_rest w.pending_states w.objects
    → let (v, r) = begin_shutdown false w in
      (r ≡ returned w.pending_states)
      × (v.pending_states ≡ w.pending_states)
      × (v.shut ≡ true)
      × Each stopping w.pending_states v.objects
      × Each at_rest w.pending_states v.objects
unfolding begin_shutdown
begin_shutdown_lem w rest =
    let ids = w.pending_states in
    let shut = record w { shut = true } in
    let fine = Each-cancellable ids w.objects rest in
    let stopped = cancel_all-Stopped ids shut fine in
    begun_lem ids (cancel_all ids shut) shut stopped refl
      (cancel_all-at_rest ids ids shut fine rest)

module _ (me : ℕ) (body : ℕ → Script Lifecycle Extra) (hook post : Option Error) where
  -- One dispatch of each state, in the thread of the runtime.
  pub dispatch_all : List ℕ → World → World
  dispatch_all [] w = w
  dispatch_all (id ∷ ids) w = dispatch_all ids (execute_state_step me id body hook post w).0

  record Dispatched (id : ℕ) (w v : World) : Type 0 where
    pending_states : v.pending_states ≡ erase id w.pending_states
    over : has_ended (v.objects id) ≡ true
    others : (j : ℕ) → (j == id) ≡ false → v.objects j ≡ w.objects j
    shut : v.shut ≡ w.shut

  step-Dispatched :
      (id : ℕ) (w : World)
      → at_rest (w.objects id) ≡ true
      → stopping (w.objects id) ≡ true
      → Dispatched id w (execute_state_step me id body hook post w).0
  step-Dispatched id w rest stop =
      let (s, found) = some_object (w.objects id) rest in
      let still : at_rest (some s) ≡ true = rw found at rest in
      let stopped : stopping (some s) ≡ true = rw found at stop in
      let d = s.derived in
      let shape = found ∙ ap some (rested s still) in
      let c : d.cancelled ≡ true = ground arith in
      let t : d.terminal ≡ false = ground arith in
      let p : d.completion ≡ pending = unkept d.completion (ground arith) in
      let (r, held, jobs, now) =
        cancelled_dispatch w me id s.next s.states s.initialized d body hook post shape c t p in
      record {
        pending_states = held;
        over = ap has_ended now;
        others = λ j ne.
            (cancelled_alone w me id s.next s.states s.initialized d body hook post j shape c t p
              ne).0;
        shut =
            (cancelled_alone w me id s.next s.states s.initialized d body hook post (id + 1) shape c
              t p (ground arith)).1;
      }

  record Drained (ids : List ℕ) (w v : World) : Type 0 where
    pending_states : v.pending_states ≡ []
    over : Each has_ended ids v.objects
    others : (j : ℕ) → contains j ids ≡ false → v.objects j ≡ w.objects j
    shut : v.shut ≡ w.shut

  dispatch_all-Drained :
      (ids : List ℕ) (w : World)
      → w.pending_states ≡ ids
      → Distinct ids
      → Each at_rest ids w.objects
      → Each stopping ids w.objects
      → Drained ids w (dispatch_all ids w)
  unfolding dispatch_all contains
  dispatch_all-Drained [] w e d rest stop = record {
    pending_states = e;
    over = tt;
    others = λ j h. refl;
    shut = refl;
  }
  dispatch_all-Drained (id ∷ ids) w e d rest stop =
      let v = (execute_state_step me id body hook post w).0 in
      let one = step-Dispatched id w rest.0 stop.0 in
      let all =
        dispatch_all-Drained ids v (one.pending_states ∙ ap (erase id) e ∙ erase_added id ids d.0)
          d.1 (Each-other at_rest id ids w.objects v.objects d.0 one.others rest.1)
          (Each-other stopping id ids w.objects v.objects d.0 one.others stop.1) in
      record {
        pending_states = all.pending_states;
        over = (ap has_ended (all.others id d.0) ∙ one.over, all.over);
        others = λ j h. all.others j (ground arith) ∙ one.others j (ground arith);
        shut = all.shut ∙ one.shut;
      }

  await_all_lem :
      (ids : List ℕ) (p : World × Outcome (List ℕ))
      → Distinct ids
      → (p.1 ≡ returned ids)
        × (p.0.pending_states ≡ ids)
        × (p.0.shut ≡ true)
        × Each stopping ids p.0.objects
        × Each at_rest ids p.0.objects
      → let (v, r) = await_all (dispatch_all ids) p in
        (r ≡ some (returned tt))
        × (v.pending_states ≡ [])
        × Each has_ended ids v.objects
        × (v.shut ≡ true)
        × ((await_all (λ u. u) p).1 ≡ (if is_nil ids then some (returned tt) else none))
  await_all_lem ids (v, returned js) distinct (done, held, shut, stop, rest) =
      let same : js ≡ ids = cc in
      let d = dispatch_all-Drained ids v held distinct rest stop in
      let ready = has_ended-all_ready ids (dispatch_all ids v) d.over in
      let unready = at_rest-all_ready ids v rest in
      rw (same, ready, unready) (refl, d.pending_states, d.over, d.shut ∙ shut, refl)
  await_all_lem ids (v, thrown e) distinct (done, held, shut, stop, rest) = cc
  await_all_lem ids (v, aborted) distinct (done, held, shut, stop, rest) = cc

  -- `shutdown`, outside the runtime's thread, where each state that the manager holds was submitted,
  -- has not ended and is not in a step: it closes the manager, cancels the states and waits for their
  -- futures. When the runtime then dispatches each state once, in the order of the map, whatever the
  -- callbacks would do, `shutdown` returns; every one of the states has ended as cancelled, with its
  -- future ready, and the manager holds nothing and is closed. If the runtime does nothing and a state is
  -- held, it does not return.
  pub shutdown_stops :
      (w : World)
      → Distinct w.pending_states
      → Each at_rest w.pending_states w.objects
      → let ids = w.pending_states in
        let (v, r) = shutdown false (dispatch_all ids) w in
        (r ≡ some (returned tt))
        × (v.pending_states ≡ [])
        × Each has_ended ids v.objects
        × (v.shut ≡ true)
        × ((shutdown false (λ u. u) w).1 ≡ (if is_nil ids then some (returned tt) else none))
  unfolding shutdown
  shutdown_stops w distinct rest =
      await_all_lem w.pending_states (begin_shutdown false w) distinct (begin_shutdown_lem w rest)
