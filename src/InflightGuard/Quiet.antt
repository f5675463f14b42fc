-- ===== src/InflightGuard/Quiet.antt =====
-- include/dmn-inflight-guard.hpp: what `waitForEmptyInflight` may rely on.
use dmn.Prelude.{ℕ, ◌<◌, ◌≡◌, refl, sym, ◌∙◌, Bool, true, List, [], ◌∷◌, ◌++◌, arith}
use dmn.InflightGuard.{
  Place, outside, tested, counted, entering, inside, left, retreating, notifying, Guard, word, Move,
  first_test, refused, counts, second_test, turned_away, enters, enter_throws, rolls_back, leaves,
  releases, notifies, Step, moves, closes, Reach, stay, onward, new,
}
use dmn.InflightGuard.Counter.{holds, holders, inflight_count_exact}

-- A thread that has not passed both tests, or has given up its place in the counter: it runs neither of
-- the guard's functions nor the section that a ticket covers, and will not once the guard is closed.
abbrev pub Barred : Place → Type 0
Barred outside = Unit {0}
Barred tested = Unit {0}
Barred counted = Unit {0}
Barred entering = ⊥
Barred inside = ⊥
Barred left = ⊥
Barred retreating = Unit {0}
Barred notifying = Unit {0}

abbrev pub AllBarred : List Place → Type 0
AllBarred [] = Unit {0}
AllBarred (p ∷ ps) = Barred p × AllBarred ps

Barred-unheld : (p : Place) → holds p ≡ 0 → Barred p
Barred-unheld outside h = tt
Barred-unheld tested h = tt
Barred-unheld counted h = tt
Barred-unheld entering h = absurd (omega arith)
Barred-unheld inside h = absurd (omega arith)
Barred-unheld left h = absurd (omega arith)
Barred-unheld retreating h = tt
Barred-unheld notifying h = tt

AllBarred-unheld : (ps : List Place) → holders ps ≡ 0 → AllBarred ps
AllBarred-unheld [] h = tt
AllBarred-unheld (p ∷ ps) h = (Barred-unheld p (omega arith), AllBarred-unheld ps (omega arith))

Move-Barred :
    {closed : Bool} {n m : ℕ} {p q : Place}
    → closed ≡ true
    → Move closed n p q m
    → Barred p
    → Barred q
Move-Barred e (first_test n) b = tt
Move-Barred e (refused n) b = tt
Move-Barred e (counts closed n) b = tt
Move-Barred e (second_test n) b = cc
Move-Barred e (turned_away n) b = tt
Move-Barred e (enters closed n) b = b
Move-Barred e (enter_throws closed n) b = tt
Move-Barred e (rolls_back closed n) b = tt
Move-Barred e (leaves closed n) b = b
Move-Barred e (releases closed n) b = tt
Move-Barred e (notifies closed n) b = tt

AllBarred-at :
    (before after : List Place) (p q : Place)
    → (Barred p → Barred q)
    → AllBarred (before ++ p ∷ after)
    → AllBarred (before ++ q ∷ after)
AllBarred-at [] after p q f v = (f v.0, v.1)
AllBarred-at (x ∷ before) after p q f v = (v.0, AllBarred-at before after p q f v.1)

record IsQuiet (g : Guard) : Type 0 where
  shut : g.closed ≡ true
  barred : AllBarred g.places

Step-IsQuiet : {g h : Guard} → Step g h → IsQuiet g → IsQuiet h
Step-IsQuiet (moves closed n m before after p q step) v = record {
  shut = v.shut;
  barred = AllBarred-at before after p q (Move-Barred v.shut step) v.barred;
}
Step-IsQuiet (closes closed n places) v = record { shut = refl; barred = v.barred }

Reach-IsQuiet : {f g : Guard} → Reach f g → IsQuiet f → IsQuiet g
Reach-IsQuiet stay v = v
Reach-IsQuiet (onward r s) v = Step-IsQuiet s (Reach-IsQuiet r v)

-- A thread that the counter does not count: it is outside, has only read that the guard is open, or
-- has only `notify_all` left to call.
abbrev pub Uncounted : Place → Type 0
Uncounted outside = Unit {0}
Uncounted tested = Unit {0}
Uncounted counted = ⊥
Uncounted entering = ⊥
Uncounted inside = ⊥
Uncounted left = ⊥
Uncounted retreating = ⊥
Uncounted notifying = Unit {0}

abbrev pub AllUncounted : List Place → Type 0
AllUncounted [] = Unit {0}
AllUncounted (p ∷ ps) = Uncounted p × AllUncounted ps

Uncounted-unheld : (p : Place) → holds p ≡ 0 → Uncounted p
Uncounted-unheld outside h = tt
Uncounted-unheld tested h = tt
Uncounted-unheld counted h = absurd (omega arith)
Uncounted-unheld entering h = absurd (omega arith)
Uncounted-unheld inside h = absurd (omega arith)
Uncounted-unheld left h = absurd (omega arith)
Uncounted-unheld retreating h = absurd (omega arith)
Uncounted-unheld notifying h = tt

AllUncounted-unheld : (ps : List Place) → holders ps ≡ 0 → AllUncounted ps
AllUncounted-unheld [] h = tt
AllUncounted-unheld (p ∷ ps) h =
    (Uncounted-unheld p (omega arith), AllUncounted-unheld ps (omega arith))

-- What `waitForEmptyInflight` waits for: the guard has been closed and the counter was seen at 0, in
-- any sequentially consistent interleaving of fewer than 2 ^ 64 threads. At that moment each thread is
-- outside, has only passed the first test, or has only its `notify_all` left; and then and ever after no
-- thread holds a ticket, nor runs `enterInflightGuardFnc` or `leaveInflightGuardFnc`. That a thread may
-- still test, count and notify, and so touch the guard itself, is not excluded.
pub none_inside :
    {threads : ℕ} {g h : Guard}
    → threads < word
    → Reach (new threads) g
    → g.closed ≡ true
    → g.inflight_count ≡ 0
    → Reach g h
    → AllUncounted g.places × AllBarred h.places
none_inside {threads = threads} {g = g} few r shut empty later =
    let none_counted = sym (inflight_count_exact few r) ∙ empty in
    (
      AllUncounted-unheld g.places none_counted,
      (Reach-IsQuiet later
          (record { shut = shut; barred = AllBarred-unheld g.places none_counted })).barred,
    )
