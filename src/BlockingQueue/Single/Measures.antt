-- ===== src/BlockingQueue/Single/Measures.antt =====
-- include/dmn-blockingqueue-mt.hpp: what a notification and a step of one thread change in the sums
-- over all threads.
use dmn.Prelude.{ℕ, zero, suc, ◌+◌, ◌≤◌, ◌<◌, ◌≡◌, refl, ap, false, ◌⊎◌, List, [], ◌∷◌, ◌++◌, arith}
use dmn.BlockingQueue.{push, pop, pop_optional, wait_for_empty}
use dmn.BlockingQueue.Threads.{
  Place, idle, asleep, woken, Shared, holds, sleeps, total, wake_empty, wake_not_empty, wake_all,
  WakeOne, pop_wakes, pop_optional_wakes, skip, idlers,
}
use dmn.BlockingQueue.Single.{SinglePlace, AllSingle, pending, dozes, dozes_le, Balance}

module _ {ℓ} {A : Type ℓ} where
  pub total_middle :
      (f : Place A → ℕ) (before after : List (Place A)) (p : Place A)
      → total f (before ++ p ∷ after) ≡ f p + (total f before + total f after)
  total_middle f [] after p = omega arith
  total_middle f (x ∷ before) after p = let r = total_middle f before after p in omega arith

  pub total_wake :
      (f : Place A → ℕ) (w : Place A → Place A) (ps : List (Place A))
      → ((p : Place A) → f (w p) ≡ f p)
      → total f (wake_all w ps) ≡ total f ps
  total_wake f w [] k = refl
  total_wake f w (p ∷ ps) k = let r = total_wake f w ps k in let e = k p in omega arith

  pub total-dozes_le : (ps : List (Place A)) → total dozes ps ≤ total holds ps
  total-dozes_le [] = omega arith
  total-dozes_le (p ∷ ps) = let r = total-dozes_le ps in let e = dozes_le p in omega arith

  pub total_zero :
      (f : Place A → ℕ) (w : Place A → Place A) (ps : List (Place A))
      → ((p : Place A) → f (w p) ≡ 0)
      → total f (wake_all w ps) ≡ 0
  total_zero f w [] k = refl
  total_zero f w (p ∷ ps) k = let r = total_zero f w ps k in let e = k p in omega arith

  -- A notification changes only where two kinds of threads are.
  pub record Notified (ps qs : List (Place A)) : Type 0 where
    pub same_holds : total holds qs ≡ total holds ps
    pub same_dozes : total dozes qs ≡ total dozes ps
    pub all : AllSingle ps → AllSingle qs

  pub WakeOne-Notified : {ps qs : List (Place A)} → WakeOne ps qs → Notified ps qs
  WakeOne-Notified (pop_wakes c t ps) = record {
    same_holds = refl;
    same_dozes = refl;
    all = λ v. v;
  }
  WakeOne-Notified (pop_optional_wakes w ps) = record {
    same_holds = refl;
    same_dozes = refl;
    all = λ v. v;
  }
  WakeOne-Notified (skip p w) =
      let r = WakeOne-Notified w in
      record {
        same_holds = ap (λ n. holds p + n) r.same_holds;
        same_dozes = ap (λ n. dozes p + n) r.same_dozes;
        all = λ v. (v.0, r.all v.1);
      }

  pub WakeOne-pending : {ps qs : List (Place A)} → WakeOne ps qs → 0 < total pending qs
  WakeOne-pending (pop_wakes c t ps) = omega arith
  WakeOne-pending (pop_optional_wakes w ps) = omega arith
  WakeOne-pending (skip p w) = let r = WakeOne-pending w in omega arith

  pub AllSingle-at :
      (before after : List (Place A)) (p q : Place A)
      → (SinglePlace p → SinglePlace q)
      → AllSingle (before ++ p ∷ after)
      → AllSingle (before ++ q ∷ after)
  AllSingle-at [] after p q f v = (f v.0, v.1)
  AllSingle-at (x ∷ before) after p q f v = (v.0, AllSingle-at before after p q f v.1)

  pub AllSingle-middle :
      (before after : List (Place A)) (p : Place A)
      → AllSingle (before ++ p ∷ after)
      → SinglePlace p
  AllSingle-middle [] after p v = v.0
  AllSingle-middle (x ∷ before) after p v = AllSingle-middle before after p v.1

  pub AllSingle-wake_all :
      (w : Place A → Place A) (ps : List (Place A))
      → ((p : Place A) → SinglePlace p → SinglePlace (w p))
      → AllSingle ps
      → AllSingle (wake_all w ps)
  AllSingle-wake_all w [] k v = v
  AllSingle-wake_all w (p ∷ ps) k v = (k p v.0, AllSingle-wake_all w ps k v.1)

  pub total_at :
      (f : Place A → ℕ) (before after : List (Place A)) (p q : Place A)
      → f q ≡ f p
      → total f (before ++ q ∷ after) ≡ total f (before ++ p ∷ after)
  total_at f before after p q e =
      let a = total_middle f before after p in let b = total_middle f before after q in omega arith

  -- A step that leaves the queue and the first two measures, and after which nobody sleeps or someone
  -- is pending.
  pub awake_now :
      (s : Shared A) (h d z w h' d' z' w' : ℕ)
      → Balance s h d z w
      → h' ≡ h
      → d' ≡ d
      → (z' ≡ 0) ⊎ (0 < w')
      → Balance s h' d' z' w'
  awake_now s h d z w h' d' z' w' b e f k = ground arith

  pub unmoved :
      (s : Shared A) (h d z w h' d' z' w' : ℕ)
      → Balance s h d z w
      → h' ≡ h
      → d' ≡ d
      → z' ≡ z
      → w' ≡ w
      → Balance s h' d' z' w'
  unmoved s h d z w h' d' z' w' b e f g k = ground arith

  -- `wake_empty` and `wake_not_empty` on one thread.
  pub wake_empty-same :
      (f : Place A → ℕ) (p : Place A)
      → f (woken wait_for_empty false) ≡ f (asleep wait_for_empty)
      → f (wake_empty p) ≡ f p
  wake_empty-same f (asleep wait_for_empty) e = e
  wake_empty-same f (asleep (push x)) e = refl
  wake_empty-same f (asleep (pop count timed)) e = refl
  wake_empty-same f (asleep (pop_optional wait)) e = refl
  wake_empty-same f _ e = refl

  pub wake_empty-SinglePlace : (p : Place A) → SinglePlace p → SinglePlace (wake_empty p)
  wake_empty-SinglePlace (asleep wait_for_empty) v = tt
  wake_empty-SinglePlace (asleep (push x)) v = v
  wake_empty-SinglePlace (asleep (pop count timed)) v = v
  wake_empty-SinglePlace (asleep (pop_optional wait)) v = v
  wake_empty-SinglePlace _ v = v

  pub wake_not_empty-SinglePlace : (p : Place A) → SinglePlace p → SinglePlace (wake_not_empty p)
  wake_not_empty-SinglePlace (asleep wait_for_empty) v = v
  wake_not_empty-SinglePlace (asleep (push x)) v = v
  wake_not_empty-SinglePlace (asleep (pop count timed)) v = v
  wake_not_empty-SinglePlace (asleep (pop_optional wait)) v = v
  wake_not_empty-SinglePlace _ v = v

  -- It leaves every measure of a thread that is not blocked, and unblocks one that is.
  pub wake_not_empty-unlocked :
      (p : Place A)
      → (holds (wake_not_empty p) ≡ holds p)
        × (dozes (wake_not_empty p) ≡ dozes p)
        × (sleeps (wake_not_empty p) ≡ 0)
  wake_not_empty-unlocked (asleep wait_for_empty) = (refl, refl, refl)
  wake_not_empty-unlocked (asleep (push x)) = (refl, refl, refl)
  wake_not_empty-unlocked (asleep (pop count timed)) = (refl, refl, refl)
  wake_not_empty-unlocked (asleep (pop_optional wait)) = (refl, refl, refl)
  wake_not_empty-unlocked _ = (refl, refl, refl)

  pub total-idlers : (f : Place A → ℕ) (n : ℕ) → f idle ≡ 0 → total f (idlers n) ≡ 0
  total-idlers f zero e = refl
  total-idlers f (suc n) e = let r = total-idlers f n e in omega arith
