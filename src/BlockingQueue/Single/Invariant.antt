-- ===== src/BlockingQueue/Single/Invariant.antt =====
-- include/dmn-blockingqueue-mt.hpp: the balance of the sleeping and the woken threads, in every
-- interleaving of clients that pop one item at a time.
use dmn.Prelude.{
  ℕ, zero, suc, ◌+◌, ◌<◌, ◌≡◌, refl, ◌∙◌, false, inl, inr, List, ◌∷◌, ◌++◌, arith, length,
}
use dmn.BlockingQueue.{wait_for_empty, notify_not_empty, notify_empty}
use dmn.BlockingQueue.Threads.{
  Place, idle, asleep, woken, leaving, closing, closing_not_empty, draining, Shared, System, holds,
  sleeps, total, wake_empty, wake_not_empty, wake_all, Step, moves, notifies_one, notifies_nobody,
  notifies_empty, shutdown_notifies_empty, shutdown_notifies_not_empty, drains, Reach, stay, onward,
  idlers, start,
}
use dmn.BlockingQueue.Single.{
  Single, SinglePlace, AllSingle, pending, dozes, Balance, Move-Balance, Move-SinglePlace,
}
use dmn.BlockingQueue.Single.Measures.{
  total_middle, total_wake, total-dozes_le, total_zero, WakeOne-Notified, WakeOne-pending,
  AllSingle-at, AllSingle-middle, AllSingle-wake_all, total_at, awake_now, unmoved, wake_empty-same,
  wake_empty-SinglePlace, wake_not_empty-SinglePlace, wake_not_empty-unlocked, total-idlers,
}

AllSingle-idlers {ℓ} : (A : Type ℓ) (n : ℕ) → AllSingle {A = A} (idlers n)
AllSingle-idlers A zero = tt
AllSingle-idlers A (suc n) = (tt, AllSingle-idlers A n)

module _ {ℓ} {A : Type ℓ} where
  record IsAwake (g : System A) : Type ℓ where
    all : AllSingle g.threads
    balance :
        Balance g.shared
          (total holds g.threads)
          (total dozes g.threads)
          (total sleeps g.threads)
          (total pending g.threads)

  woken_empty :
      {s : Shared A} (before after : List (Place A)) (p q : Place A)
      → (SinglePlace p → SinglePlace q)
      → holds q ≡ holds p
      → dozes q ≡ dozes p
      → sleeps q ≡ sleeps p
      → pending q ≡ pending p
      → IsAwake (record { shared = s; threads = before ++ p ∷ after })
      → IsAwake (record { shared = s; threads = wake_all wake_empty (before ++ q ∷ after) })
  woken_empty before after p q k h d z w v =
      let to = before ++ q ∷ after in
      record {
        all =
            AllSingle-wake_all wake_empty to wake_empty-SinglePlace
              (AllSingle-at before after p q k v.all);
        balance =
            unmoved _ _ _ _ _ _ _ _ _ v.balance (same holds refl h) (same dozes refl d)
              (same sleeps refl z) (same pending refl w);
      }
    where
      same :
          (f : Place A → ℕ)
          → f (woken wait_for_empty false) ≡ f (asleep wait_for_empty)
          → f q ≡ f p
          → total f (wake_all wake_empty (before ++ q ∷ after)) ≡ total f (before ++ p ∷ after)
      same f e g =
          total_wake f wake_empty _ (λ r. wake_empty-same f r e) ∙ total_at f before after p q g

  Step-IsAwake : {g h : System A} → Step Single g h → IsAwake g → IsAwake h
  Step-IsAwake (moves {s = s} {t = t} {p = p} {q = q} before after m) v =
      let few = total-dozes_le before in
      let few_after = total-dozes_le after in
      let b = v.balance in
      let moved =
        Move-Balance (total dozes before + total dozes after)
          (total sleeps before + total sleeps after) (total pending before + total pending after) m
          (AllSingle-middle before after p v.all) (omega arith)
          (rw
            (
              total_middle holds before after p,
              total_middle dozes before after p,
              total_middle sleeps before after p,
              total_middle pending before after p,
            )
            at b) in
      record {
        all = AllSingle-at before after p q (Move-SinglePlace m) v.all;
        balance =
            rw
              (
                total_middle holds before after q,
                total_middle dozes before after q,
                total_middle sleeps before after q,
                total_middle pending before after q,
              )
              moved;
      }
  Step-IsAwake (notifies_one before after w) v =
      let r = WakeOne-Notified w in
      record {
        all = r.all (AllSingle-at before after _ idle (λ u. tt) v.all);
        balance =
            awake_now _ _ _ _ _ _ _ _ _ v.balance
              (r.same_holds ∙ total_at holds before after (leaving notify_not_empty) idle refl)
              (r.same_dozes ∙ total_at dozes before after (leaving notify_not_empty) idle refl)
              (inr (WakeOne-pending w));
      }
  Step-IsAwake (notifies_nobody before after e) v = record {
    all = AllSingle-at before after _ idle (λ u. tt) v.all;
    balance =
        awake_now _ _ _ _ _ _ _ _ _ v.balance
          (total_at holds before after (leaving notify_not_empty) idle refl)
          (total_at dozes before after (leaving notify_not_empty) idle refl) (inl e);
  }
  Step-IsAwake (notifies_empty before after) v =
      woken_empty before after (leaving notify_empty) idle (λ u. tt) refl refl refl refl v
  Step-IsAwake (shutdown_notifies_empty before after) v =
      woken_empty before after closing closing_not_empty (λ u. tt) refl refl refl refl v
  Step-IsAwake (shutdown_notifies_not_empty before after) v =
      let to = before ++ draining ∷ after in
      record {
        all =
            AllSingle-wake_all wake_not_empty to wake_not_empty-SinglePlace
              (AllSingle-at before after _ draining (λ u. tt) v.all);
        balance =
            awake_now _ _ _ _ _ _ _ _ _ v.balance
              (total_wake holds wake_not_empty to (λ r. (wake_not_empty-unlocked r).0)
                ∙ total_at holds before after closing_not_empty draining refl)
              (total_wake dozes wake_not_empty to (λ r. (wake_not_empty-unlocked r).1)
                ∙ total_at dozes before after closing_not_empty draining refl)
              (inl (total_zero sleeps wake_not_empty to (λ r. (wake_not_empty-unlocked r).2)));
      }
  Step-IsAwake (drains before after e) v = record {
    all = AllSingle-at before after draining idle (λ u. tt) v.all;
    balance =
        rw
          (
            total_at holds before after draining idle refl,
            total_at dozes before after draining idle refl,
            total_at sleeps before after draining idle refl,
            total_at pending before after draining idle refl,
          )
          v.balance;
  }

  Reach-IsAwake : (n : ℕ) {g : System A} → Reach Single (start n) g → IsAwake g
  Reach-IsAwake n stay = record {
    all = AllSingle-idlers A n;
    balance = record {
      one_holder = let r = total-idlers (holds {A = A}) n refl in omega arith;
      dozing = inl (total-idlers dozes n refl);
      awake = inl refl;
    };
  }
  Reach-IsAwake n (onward r s) = Step-IsAwake s (Reach-IsAwake n r)

  -- While every client pops one item at a time, in any interleaving, an item in the queue and a thread
  -- asleep for one are never left alone: a thread has been woken, or is about to wake one.
  pub no_lost_wakeup :
      (n : ℕ) {g : System A}
      → Reach Single (start n) g
      → 0 < length g.shared.q.queue
      → 0 < total sleeps g.threads
      → 0 < total pending g.threads
  no_lost_wakeup n r some_item some_sleeper = let b = (Reach-IsAwake n r).balance in ground arith
