-- ===== src/RuntimeState/Manager/Shutdown.antt =====
-- src/dmn-runtime-state.cpp: the cancellations of `shutdown`.
use dmn.Prelude.{
  ℕ, ◌≡◌, refl, ◌∙◌, sym, ap, inl, inr, Bool, true, false, not, ◌&&◌, ◌||◌, Option, none, some,
  List, [], ◌∷◌, ◌==◌, arith, Bool-cases, Option-cases,
}
use dmn.Effect.{Outcome, returned, thrown, aborted, resume}
use dmn.RuntimeState.{
  lift, within, Lifecycle, Object, Completion, pending, value, exception, cancel,
}
use dmn.RuntimeState.Manager.{World, stored, at, contains, update, begin_shutdown, cancel_all}
use dmn.RuntimeState.Manager.Submission.{eq_self}

abbrev pub is_pending : Completion → Bool
is_pending pending = true
is_pending value = false
is_pending (exception e) = false

-- A handle that the manager may cancel: the object exists, and its promise is kept for its end.
abbrev pub cancellable : Option Object → Bool
cancellable none = false
cancellable (some s) = s.derived.terminal || is_pending s.derived.completion

abbrev pub stopping : Option Object → Bool
stopping none = false
stopping (some s) = s.derived.cancelled || s.derived.terminal

abbrev pub Each : (Option Object → Bool) → List ℕ → (ℕ → Option Object) → Type 0
Each p [] f = Unit {0}
Each p (id ∷ ids) f = (p (f id) ≡ true) × Each p ids f

cancel_returns : (s : Object) → cancellable (some s) ≡ true → (cancel s.derived).1 ≡ returned tt
unfolding cancel
cancel_returns s h = ground arith

cancel_stops :
    (s : Object)
    → cancellable (some s) ≡ true
    → (stopping (some (record s { derived = (cancel s.derived).0 })) ≡ true)
      × (cancellable (some (record s { derived = (cancel s.derived).0 })) ≡ true)
unfolding cancel
cancel_stops s h = (ground arith, ground arith)

abbrev cancelled_object : Object → Object
cancelled_object s = record s { derived = (cancel s.derived).0 }

abbrev with_object : World → ℕ → Object → World
with_object w id s = record w { objects = update w.objects id s }

stored-lift :
    (w : World) (id : ℕ) (s : Object) (p : Lifecycle × Outcome (Unit {0}))
    → p.1 ≡ returned tt
    → stored w id (lift s p) ≡ (with_object w id (record s { derived = p.0 }), returned tt)
stored-lift w id s (d, r) e = rw e

Each-update :
    (p : Option Object → Bool) (ids : List ℕ) (f : ℕ → Option Object) (id : ℕ) (s : Object)
    → p (some s) ≡ true
    → Each p ids f
    → Each p ids (update f id s)
Each-update p [] f id s h k = tt
Each-update p (x ∷ ids) f id s h k = elim (Bool-cases (x == id)) [
  | inl same ↦ (rw same h, Each-update p ids f id s h k.1)
  | inr other ↦ (rw other k.0, Each-update p ids f id s h k.1)
]

present : (o : Option Object) → cancellable o ≡ true → (s : Object) × (o ≡ some s)
present none h = cc
present (some s) h = (s, refl)

cancel_first :
    (id : ℕ) (ids : List ℕ) (w : World) (s : Object)
    → w.objects id ≡ some s
    → cancellable (some s) ≡ true
    → cancel_all (id ∷ ids) w ≡ cancel_all ids (with_object w id (cancelled_object s))
unfolding cancel_all
cancel_first id ids w s found h =
    simp (found, stored-lift w id s (cancel s.derived) (cancel_returns s h))

-- A predicate that a cancelled object keeps holds of an object after the cancellations if it did before.
kept :
    (p : Option Object → Bool)
    → ((s : Object)
        → cancellable (some s) ≡ true
        → p (some s) ≡ true
        → p (some (cancelled_object s)) ≡ true)
    → (ids : List ℕ) (w : World) (i : ℕ) → Each cancellable ids w.objects
    → p (w.objects i) ≡ true
    → p ((cancel_all ids w).0.objects i) ≡ true
unfolding cancel_all
kept p keeps [] w i h k = k
kept p keeps (id ∷ ids) w i h k =
    let (s, found) = present (w.objects id) h.0 in
    let ok : cancellable (some s) ≡ true = rw found at h.0 in
    let still = (cancel_stops s ok).1 in
    rw (cancel_first id ids w s found ok) (
      kept p keeps ids (with_object w id (cancelled_object s)) i
        (Each-update cancellable ids w.objects id (cancelled_object s) still h.1)
        (elim (Bool-cases (i == id)) [
          | inl same ↦
              let here : i ≡ id = ground arith in
              let mine : p (some s) ≡ true = sym (ap p (ap w.objects here ∙ found)) ∙ k in
              rw same (keeps s ok mine)
          | inr other ↦ rw other k
        ]))

keeps_stopping :
    (s : Object)
    → cancellable (some s) ≡ true
    → stopping (some s) ≡ true
    → stopping (some (cancelled_object s)) ≡ true
keeps_stopping s ok k = (cancel_stops s ok).0

pub record Stopped (ids : List ℕ) (w : World) (p : World × Outcome (Unit {0})) : Type 0 where
  pub done : p.1 ≡ returned tt
  pub all : Each stopping ids p.0.objects
  pub held : p.0.pending_states ≡ w.pending_states
  pub closed : p.0.shut ≡ w.shut

pub cancel_all-Stopped :
    (ids : List ℕ) (w : World) → Each cancellable ids w.objects → Stopped ids w (cancel_all ids w)
unfolding cancel_all
cancel_all-Stopped [] w h = record { done = refl; all = tt; held = refl; closed = refl }
cancel_all-Stopped (id ∷ ids) w h =
    let (s, found) = present (w.objects id) h.0 in
    let ok : cancellable (some s) ≡ true = rw found at h.0 in
    let (stop, still) = cancel_stops s ok in
    let v = with_object w id (cancelled_object s) in
    let each = Each-update cancellable ids w.objects id (cancelled_object s) still h.1 in
    let r = cancel_all-Stopped ids v each in
    let first = cancel_first id ids w s found ok in
    record {
      done = rw first r.done;
      all = rw first (kept stopping keeps_stopping ids v id each (rw (eq_self id) stop), r.all);
      held = rw first r.held;
      closed = rw first r.closed;
    }

abbrev pub no_thread : Option ℕ → Bool
no_thread none = true
no_thread (some t) = false

-- A state to which nothing has happened since its submission, but perhaps steps that are over.
abbrev pub at_rest : Option Object → Bool
at_rest none = false
at_rest (some s) =
    s.derived.queued
    && (not s.derived.terminal
        && (is_pending s.derived.completion
            && (not s.finalized
                && (not s.running_state_callback
                    && ((s.derived.execution_depth == 0)
                        && (not s.derived.run_next_permitted
                            && no_thread s.derived.execution_thread))))))

at_rest-cancellable : (o : Option Object) → at_rest o ≡ true → cancellable o ≡ true
at_rest-cancellable none h = cc
at_rest-cancellable (some s) h = ground arith

pub Each-cancellable :
    (ids : List ℕ) (f : ℕ → Option Object) → Each at_rest ids f → Each cancellable ids f
Each-cancellable [] f h = tt
Each-cancellable (id ∷ ids) f h = (at_rest-cancellable (f id) h.0, Each-cancellable ids f h.1)

keeps_rest :
    (s : Object)
    → cancellable (some s) ≡ true
    → at_rest (some s) ≡ true
    → at_rest (some (cancelled_object s)) ≡ true
unfolding cancel
keeps_rest s ok k = ground arith

pub cancel_all-at_rest :
    (ids js : List ℕ) (w : World)
    → Each cancellable ids w.objects
    → Each at_rest js w.objects
    → Each at_rest js (cancel_all ids w).0.objects
cancel_all-at_rest ids [] w h k = tt
cancel_all-at_rest ids (j ∷ js) w h k =
    (kept at_rest keeps_rest ids w j h k.0, cancel_all-at_rest ids js w h k.1)

stored-other :
    {A : Type 0} (w : World) (id j : ℕ) (p : Object × Outcome A)
    → (j == id) ≡ false
    → (stored w id p).0.objects j ≡ w.objects j
stored-other w id j (s, r) ne = rw ne refl

at_cancel-other :
    (id j : ℕ) (w : World) → (j == id) ≡ false → (at id (within cancel) w).0.objects j ≡ w.objects j
at_cancel-other id j w ne = elim (Option-cases (w.objects id)) [
  | inl gone ↦ rw gone refl
  | inr (s, found) ↦ rw found (stored-other w id j (within cancel s) ne)
]

resume-other :
    (j : ℕ) (r : World × Outcome (Unit {0})) (f : World → World × Outcome (Unit {0}))
    → ((w : World) → (f w).0.objects j ≡ w.objects j)
    → (resume r (λ _. f)).0.objects j ≡ r.0.objects j
resume-other j (w, returned u) f h = h w
resume-other j (w, thrown e) f h = refl
resume-other j (w, aborted) f h = refl

-- The cancellations leave a state alone that is not on the list.
cancel_all-other :
    (ids : List ℕ) (w : World) (j : ℕ)
    → contains j ids ≡ false
    → (cancel_all ids w).0.objects j ≡ w.objects j
unfolding cancel_all contains
cancel_all-other [] w j h = refl
cancel_all-other (id ∷ ids) w j h =
    let ne : (j == id) ≡ false = ground arith in
    resume-other j (at id (within cancel) w) (cancel_all ids)
      (λ v. cancel_all-other ids v j (ground arith))
    ∙ at_cancel-other id j w ne

finish-other :
    {A : Type 0} (j : ℕ) (r : World × Outcome (Unit {0})) (a : A)
    → (resume r (λ _ w. (w, returned a))).0.objects j ≡ r.0.objects j
finish-other j (w, returned u) a = refl
finish-other j (w, thrown e) a = refl
finish-other j (w, aborted) a = refl

pub begin_shutdown-other :
    (w : World) (j : ℕ)
    → contains j w.pending_states ≡ false
    → (begin_shutdown false w).0.objects j ≡ w.objects j
unfolding begin_shutdown
begin_shutdown-other w j h =
    finish-other j (cancel_all w.pending_states (record w { shut = true })) w.pending_states
    ∙ cancel_all-other w.pending_states (record w { shut = true }) j h
