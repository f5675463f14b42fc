-- ===== src/InflightGuard/Tests.antt =====
-- include/dmn-inflight-guard.hpp: one thread, which passes the first test before the guard is closed.
use dmn.Prelude.{refl, true, false, [], ◌∷◌, arith}
use dmn.InflightGuard.{
  outside, tested, counted, entering, inside, retreating, Guard, first_test, counts, second_test,
  turned_away, enters, moves, closes, Reach, stay, onward, new,
}
use dmn.InflightGuard.Quiet.{AllUncounted, AllBarred, none_inside}

abbrev admitted : Guard
admitted = record { closed = false; inflight_count = 1; places = inside ∷ [] }

path_inside : Reach (new 1) admitted
path_inside =
    onward
      (onward
        (onward (onward stay (moves false 0 0 [] [] outside tested (first_test 0)))
          (moves false 0 1 [] [] tested counted (counts false 0)))
        (moves false 1 1 [] [] counted entering (second_test 1)))
      (moves false 1 1 [] [] entering inside (enters false 1))

abbrev shut_early : Guard
shut_early = record { closed = true; inflight_count = 0; places = tested ∷ [] }

path_shut : Reach (new 1) shut_early
path_shut =
    onward (onward stay (moves false 0 0 [] [] outside tested (first_test 0)))
      (closes false 0 (tested ∷ []))

abbrev sent_back : Guard
sent_back = record { closed = true; inflight_count = 1; places = retreating ∷ [] }

path_back : Reach shut_early sent_back
path_back =
    onward (onward stay (moves true 0 1 [] [] tested counted (counts true 0)))
      (moves true 1 1 [] [] counted retreating (turned_away 1))

none_inside_example : AllUncounted (tested ∷ []) × AllBarred (retreating ∷ [])
none_inside_example =
    none_inside {threads = 1} {g = shut_early} {h = sent_back} (omega arith) path_shut refl refl
      path_back
