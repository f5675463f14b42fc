-- ===== src/State/End.antt =====
-- src/dmn-state.cpp: the end of the machine, selected by `setEnd` from outside a callback.
use dmn.Prelude.{
  ℕ, ◌≡◌, refl, true, false, none, some, List, [], ◌∷◌, ◌++◌, arith, map, length, leb,
  length-append,
}
use dmn.Effect.{returned, resume}
use dmn.State.{
  Hooks, index, Machine, Script, set_end, set_state_fnc, finalize, base_hooks, start, run_next,
}
use dmn.State.Drive.{advance, logging, ready, advance_first, advance_once, append_slot}

-- What follows the tests of `runNext`, on a machine whose end is selected.
pub start-end :
    {D E : Type 0} (hooks : Hooks D E) (body : ℕ → Script D E) (s : Machine D)
    → s.next ≡ length s.states
    → start hooks body s ≡ (record s { finalized = true }, returned false)
unfolding start finalize
start-end hooks body s e =
    let top : leb (length s.states) s.next ≡ true = ground arith in
    let within : leb s.next (length s.states) ≡ true = ground arith in simp (top, within)

module _ {D E : Type 0} (extra : E → D → D) (body : ℕ → Script D E) where
  -- `setEnd` on an idle machine with the base hooks that is not finalized, started or not: the next
  -- `runNext` runs no callback, whatever the callbacks would do; it finalizes, and returns false.
  pub set_end-run_next :
      (s : Machine D)
      → s.running_state_callback ≡ false
      → s.finalized ≡ false
      → resume (set_end (base_hooks extra) s) (λ _. run_next (base_hooks extra) body)
        ≡ (record s { next = length s.states; finalized = true }, returned false)
  unfolding set_end run_next start finalize
  set_end-run_next s run fin =
      let top : leb (length s.states) (length s.states) ≡ true = ground arith in
      simp (run, fin, top)

-- `setEnd` selects the end by its index, which an appended callback moves: on a machine of callbacks
-- that each select their successor, ended before its first call of `runNext`, a callback appended
-- after `setEnd` brings the machine back to life. The next call runs the first callback, returns
-- true, and does not finalize.
pub set_end-append-run_next :
    (g f : ℕ) (fs log : List ℕ)
    → resume
        (set_end logging (ready (none ∷ map some (g ∷ fs)) 0 log false false))
        (λ _ t. resume (set_state_fnc logging (some f) (index 0) t) (λ _. run_next logging advance))
      ≡ (
        ready (none ∷ map some (g ∷ fs) ++ some f ∷ []) 2 (log ++ g ∷ []) true false,
        returned true,
      )
unfolding set_end
set_end-append-run_next g f fs log =
    let states = none ∷ map some (g ∷ fs) ++ some f ∷ [] in
    let len = length-append (map some (g ∷ fs)) (some f ∷ []) in
    let first =
      advance_first states (length (none ∷ map some (g ∷ fs))) log (omega (arith, len))
        (omega (arith, len)) in
    let once = advance_once states 1 g log (omega arith) (omega (arith, len)) refl in
    let more : leb (length states) 2 ≡ false = ground (arith, len) in
    simp (append_slot (none ∷ map some (g ∷ fs)) (length (none ∷ map some (g ∷ fs))) f log)
      (rw first (rw once (rw more)))
