-- ===== src/State/Valid.antt =====
-- src/dmn-state.cpp: the invariant of the machine, and that every method keeps it.
use dmn.Prelude.{
  ℕ, zero, suc, ◌≤◌, ◌<◌, ◌≡◌, refl, true, Option, none, some, List, [], ◌∷◌, ◌++◌, arith, length,
  get_elem?, set, length-append, length-set,
}
use dmn.Effect.{Error, Outcome, returned, thrown, aborted}
use dmn.State.{
  Index, Machine, Hooks, Action, Script, leave, throw, observe, call, set_end_call, set_next_call,
  set_next_at_call, set_state_fnc_call, run_next_call, extra_call, new, set_end, set_next,
  set_next_at, set_state_fnc, place, react, index_nat, perform, exec,
}

-- Slot 0 is the empty placeholder; every later slot holds a callback.
abbrev pub Filled : List (Option ℕ) → Type 0
Filled [] = Unit {0}
Filled (none ∷ fs) = ⊥
Filled (some f ∷ fs) = Filled fs

abbrev pub Slots : List (Option ℕ) → Type 0
Slots [] = ⊥
Slots (none ∷ fs) = Filled fs
Slots (some f ∷ fs) = ⊥

pub record IsValid {D : Type 0} (s : Machine D) : Type 0 where
  pub slots : Slots s.states
  pub next_le : s.next ≤ length s.states
  pub started : s.initialized ≡ true → 0 < s.next

Filled-append : (fs : List (Option ℕ)) (f : ℕ) → Filled fs → Filled (fs ++ some f ∷ [])
Filled-append [] f h = tt
Filled-append (none ∷ fs) f h = h
Filled-append (some g ∷ fs) f h = Filled-append fs f h

Filled-set : (fs : List (Option ℕ)) (i f : ℕ) → Filled fs → Filled (set fs i (some f))
Filled-set [] i f h = tt
Filled-set (none ∷ fs) i f h = absurd h
Filled-set (some g ∷ fs) zero f h = h
Filled-set (some g ∷ fs) (suc i) f h = Filled-set fs i f h

Slots-append : (fs : List (Option ℕ)) (f : ℕ) → Slots fs → Slots (fs ++ some f ∷ [])
Slots-append [] f h = absurd h
Slots-append (none ∷ fs) f h = Filled-append fs f h
Slots-append (some g ∷ fs) f h = absurd h

Slots-set : (fs : List (Option ℕ)) (i f : ℕ) → 0 < i → Slots fs → Slots (set fs i (some f))
Slots-set fs zero f p h = absurd (omega arith)
Slots-set [] (suc i) f p h = absurd h
Slots-set (none ∷ fs) (suc i) f p h = Filled-set fs i f h
Slots-set (some g ∷ fs) (suc i) f p h = absurd h

pub Slots-length : (fs : List (Option ℕ)) → Slots fs → 0 < length fs
Slots-length [] h = absurd h
Slots-length (f ∷ fs) h = omega arith

-- An index of a user state selects a callback.
Filled-get :
    (fs : List (Option ℕ)) (i : ℕ)
    → Filled fs
    → i < length fs
    → (f : ℕ) × (get_elem? fs i ≡ some (some f))
Filled-get [] i h lt = absurd (omega arith)
Filled-get (none ∷ fs) i h lt = absurd h
Filled-get (some f ∷ fs) zero h lt = (f, refl)
Filled-get (some f ∷ fs) (suc i) h lt = Filled-get fs i h (omega arith)

pub Slots-get :
    (fs : List (Option ℕ)) (i : ℕ)
    → Slots fs
    → 0 < i
    → i < length fs
    → (f : ℕ) × (get_elem? fs i ≡ some (some f))
Slots-get [] i h pos lt = absurd h
Slots-get (some f ∷ fs) i h pos lt = absurd h
Slots-get (none ∷ fs) zero h pos lt = absurd (omega arith)
Slots-get (none ∷ fs) (suc i) h pos lt = Filled-get fs i h (omega arith)

pub new-IsValid : {D : Type 0} (d : D) → IsValid (new d)
unfolding new
new-IsValid d = record { slots = tt; next_le = omega arith; started = λ e. cc }

append-IsValid :
    {D : Type 0} (s : Machine D) (f : ℕ)
    → IsValid s
    → IsValid (record s { states = s.states ++ some f ∷ [] })
append-IsValid s f v = record {
  slots = Slots-append s.states f v.slots;
  next_le = omega (arith, v.next_le, length-append s.states (some f ∷ []));
  started = v.started;
}

set-IsValid :
    {D : Type 0} (s : Machine D) (i f : ℕ)
    → 0 < i
    → IsValid s
    → IsValid (record s { states = set s.states i (some f) })
set-IsValid s i f p v = record {
  slots = Slots-set s.states i f p v.slots;
  next_le = omega (arith, v.next_le, length-set s.states i (some f));
  started = v.started;
}

module _ {D E : Type 0} (hooks : Hooks D E) where
  pub set_end-IsValid : (s : Machine D) → IsValid s → IsValid (set_end hooks s).0
  unfolding set_end
  set_end-IsValid s v = ground (arith, Slots-length s.states v.slots)

  pub set_next-IsValid : (s : Machine D) → IsValid s → IsValid (set_next hooks s).0
  unfolding set_next
  set_next-IsValid s v = ground arith

  pub set_next_at-IsValid :
      (s : Machine D) (i : Index) → IsValid s → IsValid (set_next_at hooks i s).0
  unfolding set_next_at
  set_next_at-IsValid s i v = ground arith

  place-IsValid : (s : Machine D) (f i : ℕ) → IsValid s → IsValid (place hooks (some f) i s).0
  unfolding place
  place-IsValid s f i v = ground (arith, append-IsValid s f v, set-IsValid s i f)

  pub set_state_fnc-IsValid :
      (s : Machine D) (fnc : Option ℕ) (i : Index)
      → IsValid s
      → IsValid (set_state_fnc hooks fnc i s).0
  unfolding set_state_fnc
  set_state_fnc-IsValid s none i v = ground arith
  set_state_fnc-IsValid s (some f) i v =
      unfold set_state_fnc in ground (arith, place-IsValid s f (index_nat i) v)

  perform-IsValid : (a : Action E) (s : Machine D) → IsValid s → IsValid (perform hooks a s).0
  unfolding perform
  perform-IsValid set_end_call s v = set_end-IsValid s v
  perform-IsValid set_next_call s v = set_next-IsValid s v
  perform-IsValid (set_next_at_call i) s v = set_next_at-IsValid s i v
  perform-IsValid (set_state_fnc_call f i) s v = set_state_fnc-IsValid s f i v
  perform-IsValid run_next_call s v = ground arith
  perform-IsValid (extra_call e) s v = record {
    slots = v.slots;
    next_le = v.next_le;
    started = v.started;
  }

  react-IsValid :
      (r : Machine D × Outcome (Unit {0}))
      (f : Option Error → Machine D → Machine D × Outcome (Unit {0}))
      → IsValid r.0
      → ((o : Option Error) (t : Machine D) → IsValid t → IsValid (f o t).0)
      → IsValid (react r f).0
  react-IsValid (s, returned u) f v k = k none s v
  react-IsValid (s, thrown e) f v k = k (some e) s v
  react-IsValid (s, aborted) f v k = v

  pub exec-IsValid : (k : Script D E) (s : Machine D) → IsValid s → IsValid (exec hooks k s).0
  unfolding exec
  exec-IsValid leave s v = v
  exec-IsValid (throw e) s v = v
  exec-IsValid (observe k) s v = exec-IsValid (k s) s v
  exec-IsValid (call a k) s v =
      react-IsValid (perform hooks a s) (λ o t. exec hooks (k o) t) (perform-IsValid a s v)
        (λ o t w. exec-IsValid (k o) t w)
