-- ===== src/State/Drive.antt =====
-- src/dmn-state.cpp: the usage of include/dmn-state.hpp, callbacks that run one after the other.
use dmn.Prelude.{
  ℕ, suc, ◌+◌, ◌<◌, ◌≡◌, refl, ap, ◌∙◌, inl, inr, Bool, true, false, not, Option, none, some, List,
  [], ◌∷◌, ◌++◌, arith, map, length, get_elem?, Bool-cases, ltb, leb, lt→ltb,
}
use mathlib.Core.List.{append_assoc, append-nil}
use dmn.Effect.{Outcome, returned, resume}
use dmn.State.{
  index, Machine, Hooks, Script, leave, call, set_next_call, extra_call, base_hooks, new,
  set_next_at, set_state_fnc, place, init, perform, exec, call_selected, finish, run_callback,
  select, start, run_next,
}
use dmn.State.Client.{run_while, register}

-- Each callback writes its own number into the derived member, and selects its successor.
abbrev pub advance : ℕ → Script (List ℕ) ℕ
advance f = call (extra_call f) (λ _. call set_next_call (λ _. leave))

abbrev pub logging : Hooks (List ℕ) ℕ
logging = base_hooks (λ f log. log ++ f ∷ [])

abbrev pub ready : List (Option ℕ) → ℕ → List ℕ → Bool → Bool → Machine (List ℕ)
ready states next log initialized finalized = record {
  next = next;
  states = states;
  initialized = initialized;
  finalized = finalized;
  running_state_callback = false;
  derived = log;
}

pub advance_once :
    (states : List (Option ℕ)) (n f : ℕ) (log : List ℕ)
    → 0 < n
    → n < length states
    → get_elem? states n ≡ some (some f)
    → run_next logging advance (ready states n log true false) ≡ (
      ready states (suc n) (log ++ f ∷ []) true (leb (length states) (suc n)),
      returned (not (leb (length states) (suc n))),
    )
unfolding run_next start select run_callback call_selected finish exec perform
advance_once states n f log pos lt e =
    let inside : leb (length states) n ≡ false = ground arith in
    let within : leb n (length states) ≡ true = ground arith in
    let some_state : ltb 1 (length states) ≡ true = ground arith in
    simp (inside, within, lt→ltb 0 n pos, lt→ltb n (length states) lt, e)
      (elim (Bool-cases (leb (length states) (suc n))) [
        | inl last ↦ simp (last, some_state)
        | inr more ↦ simp (more, some_state)
      ])

add_one : (n : ℕ) → n + 1 ≡ suc n
add_one n = omega arith

same :
    {states : List (Option ℕ)} (n m : ℕ) (log : List ℕ) (f : ℕ) (fs : List ℕ)
    → ◌≡◌ {A = Machine (List ℕ) × Outcome Bool}
        (ready states (suc n + suc m) ((log ++ f ∷ []) ++ fs) true true, returned false)
        (ready states (n + suc (suc m)) (log ++ f ∷ fs) true true, returned false)
same n m log f fs =
    let shift : suc n + suc m ≡ n + suc (suc m) = omega arith in simp (shift, append_assoc)

-- The first call also initializes, whatever user state was selected before.
pub advance_first :
    (states : List (Option ℕ)) (n : ℕ) (log : List ℕ)
    → n < length states
    → 1 < length states
    → run_next logging advance (ready states n log false false)
      ≡ run_next logging advance (ready states 1 log true false)
unfolding run_next start select init set_next_at
advance_first states n log below two =
    let over : leb (length states) 1 ≡ false = ground arith in
    let room : ltb (length states) 1 ≡ false = ground arith in
    let inside : leb (length states) n ≡ false = ground arith in
    let top : leb 1 (length states) ≡ true = ground arith in
    let within : leb n (length states) ≡ true = ground arith in
    simp (over, room, inside, top, within)

-- From index `n` on, the slots hold exactly the callbacks `fs`.
abbrev Rest : List (Option ℕ) → ℕ → List ℕ → Type 0
Rest states n [] = length states ≡ n
Rest states n (f ∷ fs) = (get_elem? states n ≡ some (some f)) × Rest states (suc n) fs

Rest-cons :
    (x : Option ℕ) (xs : List (Option ℕ)) (n : ℕ) (fs : List ℕ)
    → Rest xs n fs
    → Rest (x ∷ xs) (suc n) fs
Rest-cons x xs n [] h = ap suc h
Rest-cons x xs n (f ∷ fs) h = (h.0, Rest-cons x xs (suc n) fs h.1)

Rest-map : (fs : List ℕ) → Rest (map some fs) 0 fs
Rest-map [] = refl
Rest-map (f ∷ fs) = (refl, Rest-cons (some f) (map some fs) 0 fs (Rest-map fs))

Rest-length :
    (states : List (Option ℕ)) (n : ℕ) (fs : List ℕ)
    → Rest states n fs
    → length states ≡ n + length fs
Rest-length states n [] h = omega arith
Rest-length states n (f ∷ fs) h = omega (arith, Rest-length states (suc n) fs h.1)

run-Rest :
    (states : List (Option ℕ)) (n f : ℕ) (fs log : List ℕ)
    → 0 < n
    → Rest states n (f ∷ fs)
    → run_while logging advance (suc (length fs)) (ready states n log true false)
      ≡ (ready states (n + suc (length fs)) (log ++ f ∷ fs) true true, returned false)
unfolding run_while
run-Rest states n f [] log pos (e, r) =
    let once = advance_once states n f log pos (omega (arith, r)) e in
    let over : leb (length states) (suc n) ≡ true = ground arith in
    simp (once, over) (rw (add_one n))
run-Rest states n f (g ∷ fs) log pos (e, r) =
    let len = Rest-length states (suc n) (g ∷ fs) r in
    let once = advance_once states n f log pos (omega (arith, len)) e in
    let more : leb (length states) (suc n) ≡ false = ground (arith, len) in
    let rest = run-Rest states (suc n) g fs (log ++ f ∷ []) (omega arith) r in
    simp (once, more) (rest ∙ same n (length fs) log f (g ∷ fs))

pub append_slot :
    (states : List (Option ℕ)) (n f : ℕ) (log : List ℕ)
    → set_state_fnc logging (some f) (index 0) (ready states n log false false)
      ≡ (ready (states ++ some f ∷ []) n log false false, returned tt)
unfolding set_state_fnc place
append_slot states n f log = ground arith

registered :
    (states : List (Option ℕ)) (fs log : List ℕ)
    → register logging fs (ready states 0 log false false)
      ≡ (ready (states ++ map some fs) 0 log false false, returned tt)
unfolding register
registered states [] log = simp append-nil
registered states (f ∷ fs) log =
    simp (append_slot states 0 f log, registered (states ++ some f ∷ []) fs log, append_assoc)

shifted :
    (states : List (Option ℕ)) (n : ℕ) (log : List ℕ)
    → ◌≡◌ {A = Machine (List ℕ) × Outcome Bool}
        (ready states (1 + suc n) log true true, returned false)
        (ready states (suc (suc n)) log true true, returned false)
shifted states n log = let e : 1 + suc n ≡ suc (suc n) = omega arith in rw e

run_first :
    (n f : ℕ) (fs log : List ℕ)
    → run_while logging advance (suc n) (ready (none ∷ map some (f ∷ fs)) 0 log false false)
      ≡ run_while logging advance (suc n) (ready (none ∷ map some (f ∷ fs)) 1 log true false)
unfolding run_while
run_first n f fs log =
    rw (advance_first (none ∷ map some (f ∷ fs)) 0 log (omega arith) (omega arith))

-- A client appends the callbacks `f ∷ fs`, each of which selects its successor, and drives the
-- machine by `while (runNext())`. After exactly as many calls as callbacks the loop ends: every
-- callback has run once, in the order of registration, and the machine is finalized.
pub run_in_order :
    (f : ℕ) (fs log : List ℕ)
    → resume
        (register logging (f ∷ fs) (new log))
        (λ _. run_while logging advance (suc (length fs)))
      ≡ (
        ready (none ∷ map some (f ∷ fs)) (suc (suc (length fs))) (log ++ f ∷ fs) true true,
        returned false,
      )
unfolding new
run_in_order f fs log = simp (registered (none ∷ []) (f ∷ fs) log) (
    run_first (length fs) f fs log
    ∙ run-Rest (none ∷ map some (f ∷ fs)) 1 f fs log (omega arith)
        (Rest-cons none (map some (f ∷ fs)) 0 (f ∷ fs) (Rest-map (f ∷ fs)))
    ∙ shifted (none ∷ map some (f ∷ fs)) (length fs) (log ++ f ∷ fs))
