-- ===== src/BlockingQueue/Tests.antt =====
-- include/dmn-blockingqueue-mt.hpp: runs of the calls, and the theorems at concrete inputs.
use dmn.Prelude.{inr, ℕ, ◌%◌, ◌<◌, ◌≡◌, refl, true, false, [], ◌∷◌, arith}
use dmn.InflightGuard.{word}
use dmn.BlockingQueue.{
  wait_for_empty, Queue, push, pop, pop_optional, Next, notify_not_empty, notify_empty, returns,
  aborts, waits, done, enter, resume, new, push_all,
}
use dmn.BlockingQueue.Threads.{
  woken, closes, notifies_nobody, notifies_empty, shutdown_notifies_empty, calls_wait_for_empty,
  idle, asleep, leaving, closing_not_empty, draining, total, System, passes_gate, enters,
  enters_waits, blocks, moves, Reach, stay, onward, start,
}
use dmn.BlockingQueue.Fifo.{IsFifo, Reach-IsFifo}
use dmn.BlockingQueue.Single.{Single, pending}
use dmn.BlockingQueue.Single.Invariant.{no_lost_wakeup}
use dmn.BlockingQueue.Lost.{Any, ◌▸◌, one_item, lost_wakeup, lost_shutdown}
use dmn.BlockingQueue.Results.{wait_for_empty_counts, aborted_wait_for_empty}

abbrev three : Queue ℕ
three = push_all (7 ∷ 8 ∷ 9 ∷ []) new

abbrev shut : Queue ℕ
shut = record three { shutdown_flag = true }

abbrev after_two : Queue ℕ
after_two = record three { queue = 9 ∷ []; pop_count = 2 }

pop_two : enter (pop 2 false) three ≡ done notify_not_empty (7 ∷ 8 ∷ []) after_two
unfolding enter
pop_two = refl

pop_four_waits : enter (pop 4 true) three ≡ waits
unfolding enter
pop_four_waits = refl

-- The timeout returns what there is.
pop_four_times_out :
    resume (pop 4 true) true three
    ≡ done notify_empty (7 ∷ 8 ∷ 9 ∷ []) (record three { queue = []; pop_count = 3 })
unfolding resume
pop_four_times_out = refl

pop_optional_entered :
    enter (pop_optional true) shut
    ≡ done notify_not_empty (7 ∷ []) (record shut { queue = 8 ∷ 9 ∷ []; pop_count = 1 })
unfolding enter
pop_optional_entered = refl

pop_no_wait_empty : enter {A = ℕ} (pop_optional false) new ≡ done notify_empty [] new
unfolding enter
pop_no_wait_empty = refl

-- A thread waits for an item, which another has just pushed.
abbrev notifying : System ℕ
notifying = record {
  shared = one_item 5 false;
  threads = asleep (pop_optional true) ∷ leaving notify_not_empty ∷ [];
}

abbrev reached : Reach Single (start 2) notifying
unfolding enter
reached =
    onward
      (onward
        (onward
          (onward
            (onward stay (moves [] (idle ∷ []) (passes_gate (pop_optional true) tt refl refl)))
            (moves [] (idle ∷ []) (enters_waits refl refl)))
          (moves [] (idle ∷ []) (blocks (pop_optional true))))
        (moves (asleep (pop_optional true) ∷ []) [] (passes_gate (push 5) tt refl refl)))
      (moves (asleep (pop_optional true) ∷ []) [] (enters {c = push 5} refl refl))

Reach-IsFifo_example : IsFifo {A = ℕ} (one_item 5 false)
Reach-IsFifo_example = Reach-IsFifo 3 (lost_wakeup 5)

no_lost_wakeup_example : 0 < total pending notifying.threads
no_lost_wakeup_example = no_lost_wakeup 2 reached (omega arith) (omega arith)

lost_wakeup_example : Reach {A = ℕ} Any (start 3) (record {
  shared = one_item 5 false;
  threads = asleep (pop 2 false) ∷ asleep (pop_optional true) ∷ idle ∷ [];
})
lost_wakeup_example = lost_wakeup 5

lost_shutdown_example : Reach Any (start {A = ℕ} 2) (record {
  shared = record {
    q = record { queue = []; push_count = 0; pop_count = 0; shutdown_flag = true };
    pushed = [];
    popped = [];
  };
  threads = asleep (pop_optional true) ∷ draining ∷ [];
})
lost_shutdown_example = lost_shutdown ℕ

-- A call of `waitForEmpty` that waits while an item is in the queue.
abbrev waiting :
    Reach Any
      (start {A = ℕ} 2)
      (record { shared = one_item 5 false; threads = asleep wait_for_empty ∷ idle ∷ [] })
unfolding enter
waiting =
    stay
    ▸ moves (idle ∷ []) [] (passes_gate (push 5) tt refl refl)
    ▸ moves (idle ∷ []) [] (enters {c = push 5} refl refl)
    ▸ notifies_nobody (idle ∷ []) [] refl
    ▸ moves [] (idle ∷ []) calls_wait_for_empty
    ▸ moves [] (idle ∷ []) (enters_waits refl refl)
    ▸ moves [] (idle ∷ []) (blocks wait_for_empty)

-- It is woken by a shutdown, and by a call that takes the item.
abbrev shut_down : System ℕ
shut_down = record {
  shared = one_item 5 true;
  threads = woken wait_for_empty false ∷ closing_not_empty ∷ [];
}

abbrev woken_shut : Reach Any (start 2) shut_down
woken_shut =
    waiting
    ▸ moves (asleep wait_for_empty ∷ []) [] closes
    ▸ shutdown_notifies_empty (asleep wait_for_empty ∷ []) []

abbrev emptied : System ℕ
emptied = record {
  shared = record {
    q = record { queue = []; push_count = 1; pop_count = 1; shutdown_flag = false };
    pushed = 5 ∷ [];
    popped = 5 ∷ [];
  };
  threads = woken wait_for_empty false ∷ idle ∷ [];
}

abbrev woken_emptied : Reach Any (start 2) emptied
unfolding enter
woken_emptied =
    waiting
    ▸ moves (asleep wait_for_empty ∷ []) [] (passes_gate (pop_optional false) tt refl refl)
    ▸ moves (asleep wait_for_empty ∷ []) [] (enters {c = pop_optional false} refl refl)
    ▸ notifies_empty (asleep wait_for_empty ∷ []) []

aborted_wait_for_empty_example :
    (enter wait_for_empty shut_down.shared.q ≡ done aborts [] shut_down.shared.q)
    × (resume wait_for_empty false shut_down.shared.q ≡ done aborts [] shut_down.shared.q)
aborted_wait_for_empty_example =
    aborted_wait_for_empty 2 shut_down false woken_shut refl (omega arith)

wait_for_empty_counts_example :
    (◌≡◌ {A = Next} returns returns) × (◌≡◌ {A = ℕ} 1 (1 % word)) × (emptied.shared.q.queue ≡ [])
unfolding resume
wait_for_empty_counts_example =
    wait_for_empty_counts 2 emptied emptied.shared.q returns [] woken_emptied refl
      (inr (false, refl))
