-- ===== src/RuntimeState/Manager/Submission.antt =====
-- src/dmn-runtime-state.cpp: `run`.
use dmn.Prelude.{
  ℕ, ◌≡◌, refl, ◌⊎◌, inl, inr, true, false, not, ◌&&◌, ◌||◌, Option, none, some, List, [], ◌∷◌,
  ◌++◌, ◌==◌, arith, Bool-cases,
}
use dmn.Effect.{Error, returned, thrown}
use dmn.State.{has_state_fncs}
use dmn.RuntimeState.{Object, submit, reset_queued_after_submission}
use dmn.RuntimeState.Manager.{World, contains, erase, run, enqueue_state}

pub eq_self : (n : ℕ) → (n == n) ≡ true
eq_self n = ground arith

restored :
    (s : Object)
    → s.derived.queued ≡ false
    → s.derived.cancelled ≡ false
    → s.derived.terminal ≡ false
    → some (record s {
      derived = record s.derived { queued = false; cancelled = false; terminal = false };
    })
      ≡ some s
restored s q c t = ground arith

pub erase_absent : (id : ℕ) (ids : List ℕ) → contains id ids ≡ false → erase id ids ≡ ids
unfolding contains erase
erase_absent id [] h = refl
erase_absent id (x ∷ xs) h = ground (arith, erase_absent id xs)

pub erase_added : (id : ℕ) (ids : List ℕ) → contains id ids ≡ false → erase id (id ∷ ids) ≡ ids
unfolding erase
erase_added id ids h = simp (eq_self id, erase_absent id ids h)

module _ (w : World) (id : ℕ) (s : Object) (found : w.objects id ≡ some s) where
  -- `run` on a state that has callbacks, and was neither submitted nor cancelled, before shutdown and
  -- with a runtime that takes the post: the state is queued, the manager holds it, one job is posted.
  pub run_accepted :
      has_state_fncs s ≡ true
      → s.derived.queued ≡ false
      → s.derived.cancelled ≡ false
      → s.derived.terminal ≡ false
      → w.shut ≡ false
      → contains id w.pending_states ≡ false
      → let (v, r) = run id false none w in
        (r ≡ returned true)
        × (v.pending_states ≡ id ∷ w.pending_states)
        × (v.jobs ≡ w.jobs ++ id ∷ [])
        × (v.objects id ≡ some (record s { derived = record s.derived { queued = true } }))
  unfolding run submit enqueue_state
  run_accepted fncs q c t shut absent =
      simp (found, fncs, q, c, t, shut, absent, eq_self id) (refl, refl, refl, refl)

  -- A state that is queued, cancelled or terminal, or has no callback, is not submitted again: `run`
  -- returns false, posts nothing, and leaves the state and what the manager holds as they were.
  pub run_declined :
      (post : Option Error)
      → (has_state_fncs s && not (s.derived.terminal || s.derived.cancelled || s.derived.queued))
        ≡ false
      → let (v, r) = run id false post w in
        (r ≡ returned false)
        × (v.pending_states ≡ w.pending_states)
        × (v.jobs ≡ w.jobs)
        × (v.objects id ≡ some s)
  unfolding run submit
  run_declined post h = elim (Bool-cases (has_state_fncs s)) [
    | inl fncs ↦ elim (Bool-cases (s.derived.terminal || s.derived.cancelled || s.derived.queued)) [
      | inl busy ↦ simp (found, fncs, busy, eq_self id) (refl, refl, refl, refl)
      | inr idle ↦ ground arith
    ]
    | inr bare ↦ simp (found, bare, eq_self id) (refl, refl, refl, refl)
  ]

  -- A submission that fails does not consume the one that is allowed: after `shutdown`, or where the
  -- runtime refuses the post, the state is as it was before `run`, no job is posted, and the manager
  -- holds what it held.
  pub run_failed :
      (post : Option Error) (x : Error)
      → has_state_fncs s ≡ true
      → s.derived.queued ≡ false
      → s.derived.cancelled ≡ false
      → s.derived.terminal ≡ false
      → contains id w.pending_states ≡ false
      → (w.shut ≡ true) ⊎ ((w.shut ≡ false) × (post ≡ some x))
      → let (v, r) = run id false post w in
        ((r ≡ returned false) ⊎ (r ≡ thrown x))
        × (v.pending_states ≡ w.pending_states)
        × (v.jobs ≡ w.jobs)
        × (v.objects id ≡ some s)
  unfolding run submit enqueue_state reset_queued_after_submission
  run_failed post x fncs q c t absent (inl shut) =
      simp (found, fncs, q, c, t, shut, absent, eq_self id) (inl refl, refl, refl, restored s q c t)
  run_failed post x fncs q c t absent (inr (shut, refused)) =
      simp (found, fncs, q, c, t, shut, absent, refused, eq_self id)
        (inr refl, erase_added id w.pending_states absent, refl, restored s q c t)
