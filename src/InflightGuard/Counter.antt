-- ===== src/InflightGuard/Counter.antt =====
-- include/dmn-inflight-guard.hpp: the counter and the threads that it counts.
use dmn.Prelude.{
  ℕ, zero, suc, ◌+◌, ◌≤◌, ◌<◌, ◌≡◌, refl, sym, ap, ◌∙◌, Bool, List, [], ◌∷◌, ◌++◌, arith, length,
  length-append,
}
use dmn.InflightGuard.{
  Place, outside, tested, counted, entering, inside, left, retreating, notifying, Guard, word, Move,
  first_test, refused, counts, second_test, turned_away, enters, enter_throws, rolls_back, leaves,
  releases, notifies, Step, moves, closes, Reach, stay, onward, all_outside, new,
}

-- Whether a thread has added itself to the counter.
abbrev pub holds : Place → ℕ
holds outside = 0
holds tested = 0
holds counted = 1
holds entering = 1
holds inside = 1
holds left = 1
holds retreating = 1
holds notifying = 0

abbrev pub holders : List Place → ℕ
holders [] = 0
holders (p ∷ ps) = let rest = holders ps in holds p + rest

holders-append : (ps qs : List Place) → holders (ps ++ qs) ≡ holders ps + holders qs
holders-append [] qs = omega arith
holders-append (p ∷ ps) qs = let r = holders-append ps qs in omega arith

holds_le : (p : Place) → holds p ≤ 1
holds_le outside = omega arith
holds_le tested = omega arith
holds_le counted = omega arith
holds_le entering = omega arith
holds_le inside = omega arith
holds_le left = omega arith
holds_le retreating = omega arith
holds_le notifying = omega arith

holders_le : (ps : List Place) → holders ps ≤ length ps
holders_le [] = omega arith
holders_le (p ∷ ps) = let r = holders_le ps in let h = holds_le p in omega arith

record Counted (threads : ℕ) (g : Guard) : Type 0 where
  exact : g.inflight_count ≡ holders g.places
  size : length g.places ≡ threads

moved_count :
    {closed : Bool} {n m : ℕ} {p q : Place} (others : ℕ)
    → Move closed n p q m
    → holds p + others < word
    → holds q + others < word
    → n ≡ holds p + others
    → m ≡ holds q + others
moved_count others (first_test n) a b e = omega arith
moved_count others (refused n) a b e = omega arith
moved_count others (counts closed n) a b e = omega arith
moved_count others (second_test n) a b e = omega arith
moved_count others (turned_away n) a b e = omega arith
moved_count others (enters closed n) a b e = omega arith
moved_count others (enter_throws closed n) a b e = omega arith
moved_count others (rolls_back closed n) a b e = omega arith
moved_count others (leaves closed n) a b e = omega arith
moved_count others (releases closed n) a b e = omega arith
moved_count others (notifies closed n) a b e = omega arith

holders_middle :
    (before after : List Place) (p : Place)
    → holders (before ++ p ∷ after) ≡ holds p + (holders before + holders after)
holders_middle before after p = let r = holders-append before (p ∷ after) in omega arith

length_middle :
    (before after : List Place) (p : Place)
    → length (before ++ p ∷ after) ≡ suc (length before + length after)
length_middle before after p = let r = length-append before (p ∷ after) in omega arith

Step-Counted :
    {threads : ℕ} {g h : Guard} → threads < word → Step g h → Counted threads g → Counted threads h
Step-Counted {threads = threads} few (moves closed n m before after p q step) c =
    let old = holders_middle before after p in
    let new_ = holders_middle before after q in
    let long_old = length_middle before after p in
    let long_new = length_middle before after q in
    let size = c.size in
    let count = c.exact in
    let fits_old = holders_le (before ++ p ∷ after) in
    let fits_new = holders_le (before ++ q ∷ after) in
    let others = holders before + holders after in
    record {
      exact = moved_count others step (omega arith) (omega arith) (omega arith) ∙ sym new_;
      size = omega arith;
    }
Step-Counted few (closes closed n places) c = record { exact = c.exact; size = c.size }

Reach-Counted :
    {threads : ℕ} {f g : Guard} → threads < word → Reach f g → Counted threads f → Counted threads g
Reach-Counted few stay c = c
Reach-Counted few (onward r s) c = Step-Counted few s (Reach-Counted few r c)

holders-all_outside : (n : ℕ) → holders (all_outside n) ≡ 0
holders-all_outside zero = refl
holders-all_outside (suc n) = let r = holders-all_outside n in omega arith

length-all_outside : (n : ℕ) → length (all_outside n) ≡ n
length-all_outside zero = refl
length-all_outside (suc n) = ap suc (length-all_outside n)

new-Counted : (threads : ℕ) → Counted threads (new threads)
new-Counted threads = record {
  exact = sym (holders-all_outside threads);
  size = length-all_outside threads;
}

-- At every moment of every interleaving of fewer than 2 ^ 64 threads, the counter is the number of
-- threads that have added themselves to it and not yet taken themselves off.
pub inflight_count_exact :
    {threads : ℕ} {g : Guard}
    → threads < word
    → Reach (new threads) g
    → g.inflight_count ≡ holders g.places
inflight_count_exact {threads = threads} few r = (Reach-Counted few r (new-Counted threads)).exact
