-- ===== src/EventStore/Arrival.antt =====
-- src/app/gui/core/dmn-device-monitor-event-store.cpp: events that the store numbers itself.
use dmn.Prelude.{
  ℕ, zero, suc, ◌+◌, ◌-◌, ◌%◌, ◌≤◌, ◌<◌, ◌≡◌, refl, sym, ap, ◌∙◌, inl, inr, max, map, false, some,
  List, [], ◌∷◌, ◌++◌, ltb, length, drop, arith, Bool-cases, length-append, length-drop,
  drop-append,
}
use mathlib.Core.List.{append_assoc, append-nil}
use dmn.EventStore.{
  MonitorEvent, EventStore, new, word, stamp, insert, tail, evict, append, appends, replay,
}

-- Every event of the list is earlier than `n`.
abbrev pub Before : ℕ → List MonitorEvent → Type 0
Before n [] = Unit {0}
Before n (x ∷ xs) = (x.sequence < n) × Before n xs

Before-weaken : (n m : ℕ) (xs : List MonitorEvent) → n ≤ m → Before n xs → Before m xs
Before-weaken n m [] h v = tt
Before-weaken n m (x ∷ xs) h v = (omega (arith, v.0), Before-weaken n m xs h v.1)

Before-append :
    (n : ℕ) (xs : List MonitorEvent) (e : MonitorEvent)
    → Before n xs
    → e.sequence < n
    → Before n (xs ++ e ∷ [])
Before-append n [] e v h = (h, tt)
Before-append n (x ∷ xs) e v h = (v.0, Before-append n xs e v.1 h)

Before-drop : (n m : ℕ) (xs : List MonitorEvent) → Before n xs → Before n (drop m xs)
Before-drop n zero xs v = v
Before-drop n (suc m) [] v = tt
Before-drop n (suc m) (x ∷ xs) v = Before-drop n m xs v.1

insert_last :
    (e : MonitorEvent) (xs : List MonitorEvent) → Before e.sequence xs → insert e xs ≡ xs ++ e ∷ []
unfolding insert
insert_last e [] v = refl
insert_last e (x ∷ xs) v =
    let later : ltb e.sequence x.sequence ≡ false = ground (arith, v.0) in
    rw later (ap (◌∷◌ x) (insert_last e xs v.1))

tail-drop : (m : ℕ) (xs : List MonitorEvent) → tail (drop m xs) ≡ drop (suc m) xs
tail-drop zero [] = refl
tail-drop zero (x ∷ xs) = refl
tail-drop (suc m) [] = refl
tail-drop (suc m) (x ∷ xs) = tail-drop m xs

-- The store after the events `xs`, numbered below `next`, of which it keeps the newest.
record Follows (limit next : ℕ) (xs : List MonitorEvent) (s : EventStore) : Type 0 where
  limited : s.maximum_events ≡ limit
  numbered : s.next_sequence ≡ next
  newest : s.events ≡ drop (length xs - limit) xs
  below : Before next xs

abbrev pub numbered_as : ℕ → MonitorEvent → MonitorEvent
numbered_as n e = record e { sequence = n }

stamp_unnumbered :
    (s : EventStore) (e : MonitorEvent) (next : ℕ)
    → e.sequence ≡ 0
    → s.next_sequence ≡ next
    → stamp s e ≡ numbered_as next e
unfolding stamp
stamp_unnumbered s e next z n = ground arith

drop_same : (m n : ℕ) (xs : List MonitorEvent) → m ≡ n → drop m xs ≡ drop n xs
drop_same m n xs e = ap (λ k. drop k xs) e

evict_newest :
    (limit : ℕ) (s : EventStore) (ys : List MonitorEvent)
    → s.maximum_events ≡ limit
    → s.events ≡ drop ((length ys - 1) - limit) ys
    → 1 ≤ length ys
    → (evict s).events ≡ drop (length ys - limit) ys
unfolding evict
evict_newest limit s ys m e h =
    let len = length-drop ((length ys - 1) - limit) ys in
    let count : length s.events ≡ length (drop ((length ys - 1) - limit) ys) = ap length e in
    elim (Bool-cases (ltb s.maximum_events (length s.events))) [
      | inl over ↦
          let long : limit < length s.events = ground arith in
          rw over (
            ap tail e
            ∙ tail-drop ((length ys - 1) - limit) ys
            ∙ drop_same (suc ((length ys - 1) - limit)) (length ys - limit) ys (omega arith))
      | inr fits ↦
          let short : length s.events ≤ limit = ground arith in
          rw fits (e ∙ drop_same ((length ys - 1) - limit) (length ys - limit) ys (omega arith))
    ]

evict_numbers :
    (s : EventStore)
    → ((evict s).maximum_events ≡ s.maximum_events) × ((evict s).next_sequence ≡ s.next_sequence)
unfolding evict
evict_numbers s = (ground arith, ground arith)

next_number :
    (kept stamped next : ℕ)
    → kept ≡ next
    → stamped ≡ next
    → suc next < word
    → max kept ((stamped + 1) % word) ≡ suc next
next_number kept stamped next k n h = omega arith

drop_empty : (m : ℕ) → drop {A = MonitorEvent} m [] ≡ []
drop_empty zero = refl
drop_empty (suc m) = refl

append-Follows :
    (limit next : ℕ) (xs : List MonitorEvent) (e : MonitorEvent) (s : EventStore)
    → suc next < word
    → e.sequence ≡ 0
    → Follows limit next xs s
    → Follows limit (suc next) (xs ++ numbered_as next e ∷ []) (append e s)
unfolding append
append-Follows limit next xs e s h zero_seq f =
    let ys = xs ++ numbered_as next e ∷ [] in
    let len = length-append xs (numbered_as next e ∷ []) in
    let stamped = stamp_unnumbered s e next zero_seq f.numbered in
    let last = sym (drop-append (length xs - limit) xs (numbered_as next e ∷ []) (omega arith)) in
    let old : Before next s.events =
      rw f.newest (Before-drop next (length xs - limit) xs f.below) in
    let placed : insert (stamp s e) s.events ≡ drop ((length ys - 1) - limit) ys =
      rw stamped (insert_last (numbered_as next e) s.events old)
      ∙ ap (λ l. l ++ numbered_as next e ∷ []) f.newest
      ∙ last
      ∙ drop_same (length xs - limit) ((length ys - 1) - limit) ys (omega arith) in
    let grown = record s {
      next_sequence = max s.next_sequence (((stamp s e).sequence + 1) % word);
      events = insert (stamp s e) s.events;
    } in
    let number : (stamp s e).sequence ≡ next = ap (λ x. x.sequence) stamped in
    let numbers = evict_numbers grown in
    let from = f.numbered in
    record {
      limited = numbers.0 ∙ f.limited;
      numbered =
          numbers.1 ∙ next_number s.next_sequence (stamp s e).sequence next f.numbered number h;
      newest = evict_newest limit grown ys f.limited placed (omega arith);
      below =
          Before-append (suc next) xs (numbered_as next e)
            (Before-weaken next (suc next) xs (omega arith) f.below) (omega arith);
    }

-- The events as the store numbers them, from `n` on.
abbrev pub numbered_from : ℕ → List MonitorEvent → List MonitorEvent
numbered_from n [] = []
numbered_from n (e ∷ es) = numbered_as n e ∷ numbered_from (suc n) es

abbrev pub Unnumbered : List MonitorEvent → Type 0
Unnumbered [] = Unit {0}
Unnumbered (e ∷ es) = (e.sequence ≡ 0) × Unnumbered es

newest_from :
    (limit next : ℕ) (xs es : List MonitorEvent) (s : EventStore)
    → next + length es < word
    → Unnumbered es
    → Follows limit next xs s
    → (replay (map appends es) s).events
      ≡ drop (length (xs ++ numbered_from next es) - limit) (xs ++ numbered_from next es)
unfolding replay
newest_from limit next xs [] s h u f = rw (append-nil xs) f.newest
newest_from limit next xs (e ∷ es) s h u f =
    let shift = append_assoc xs (numbered_as next e ∷ []) (numbered_from (suc next) es) in
    newest_from limit (suc next) (xs ++ numbered_as next e ∷ []) es (append e s) (omega arith) u.1
      (append-Follows limit next xs e s (omega arith) u.0 f)
    ∙ ap (λ l. drop (length l - limit) l) shift

-- Events without a number, appended to a new store (fewer than 2 ^ 64 of them), are numbered 1, 2, 3
-- and so on, and the store holds exactly the newest of them, as many as its limit allows, in the order
-- of their arrival.
pub keeps_newest :
    (limit : ℕ) (s : EventStore) (es : List MonitorEvent)
    → new limit ≡ some s
    → Unnumbered es
    → 1 + length es < word
    → (replay (map appends es) s).events
      ≡ drop (length (numbered_from 1 es) - limit) (numbered_from 1 es)
unfolding new
keeps_newest limit s es e u h =
    let empty : s.events ≡ [] = ground arith in
    let most : s.maximum_events ≡ limit = ground arith in
    let first : s.next_sequence ≡ 1 = ground arith in
    newest_from limit 1 [] es s h u (record {
      limited = most;
      numbered = first;
      newest = rw empty (sym (drop_empty (0 - limit)));
      below = tt;
    })
