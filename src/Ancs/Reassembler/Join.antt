-- ===== src/Ancs/Reassembler/Join.antt =====
-- src/dmn-ancs-client.cpp: successive calls of `consume`, against one call with all the bytes.
use dmn.Prelude.{
  ℕ, ◌+◌, ◌-◌, ◌≤◌, ◌≡◌, ◌≢◌, refl, sym, ap, ◌∙◌, true, false, Option, none, some, List, [], ◌∷◌,
  ◌++◌, ltb, length, arith, Bool-cases, inl, inr, length-append,
}
use mathlib.Core.List.{append_assoc, append-nil}
use dmn.Ancs.{protocol, Result, value, error, AttributeSet, maximum_response_size}
use dmn.Ancs.Reassembler.{Reassembler, is_nil, header, consume, answer, feed}
use dmn.Ancs.Reassembler.Fragments.{
  grown, header-Extends, ResultExtends, fitting, overlong, header-open, is_nil-append,
}

is_nil-ne : (b : List ℕ) → b ≢ [] → is_nil b ≡ false
is_nil-ne [] n = absurd (n refl)
is_nil-ne (x ∷ b) n = refl

waits_of :
    (now later all : Result (Option AttributeSet)) (attributes : AttributeSet)
    → ResultExtends now later all
    → all ≡ value (some attributes)
    → now ≡ value none
waits_of (value none) later all attributes h e = refl
waits_of (value (some other)) later all attributes h e = cc
waits_of (error kind fatal) later all attributes h e = cc

module _ (r : Reassembler) (a b : List ℕ) (live : r.terminal ≡ false)
    (bounded : r.total_bytes ≤ maximum_response_size) (some_a : a ≢ []) (some_b : b ≢ []) where
  appended : Reassembler
  appended = grown r (r.total_bytes + length a) a

  regrown :
      (total : ℕ)
      → total ≡ r.total_bytes + length (a ++ b)
      → grown (grown r (r.total_bytes + length a) a) total b
        ≡ grown r (r.total_bytes + length (a ++ b)) (a ++ b)
  regrown total e = simp (e, append_assoc)

  -- The two calls, once the first has parsed its fragment.
  continued :
      ltb (maximum_response_size - r.total_bytes) (length a) ≡ false
      → (header appended).1 ≡ value none
      → (consume (header appended).0 b).1 ≡ (consume r (a ++ b)).1
  unfolding appended
  continued fits waiting =
      let (same, total) = header-open appended (rw waiting refl) in
      let len = length-append a b in
      let room : length a ≤ maximum_response_size - r.total_bytes = ground arith in
      elim (Bool-cases (ltb (maximum_response_size - (header appended).0.total_bytes) (length b))) [
        | inl over ↦
            overlong (header appended).0 b (same ∙ live) (is_nil-ne b some_b) over
            ∙ sym (overlong r (a ++ b) live (is_nil-append a b some_a) (ground (arith, len, total)))
        | inr fit ↦
            let whole_fits : ltb (maximum_response_size - r.total_bytes) (length (a ++ b)) ≡ false =
              ground (arith, len, total, room, bounded) in
            let sum = (header appended).0.total_bytes + length b in
            let joined : (header (grown (header appended).0 sum b)).1
                ≡ (header (grown appended sum b)).1 =
              rw waiting at (header-Extends b sum appended some_b) in
            ap (λ x. x.1) (fitting (header appended).0 b (same ∙ live) (is_nil-ne b some_b) fit)
            ∙ joined
            ∙ ap (λ x. (header x).1) (regrown sum (omega (arith, len, total)))
            ∙ sym (ap (λ x. x.1) (fitting r (a ++ b) live (is_nil-append a b some_a) whole_fits))
      ]

  -- On a parser that is not terminal and within its byte limit, after a nonempty fragment whose answer
  -- is still incomplete: the next call, with a nonempty fragment, gives what one call with both fragments gives,
  -- attributes and errors alike.
  pub consume_join :
      (consume r a).1 ≡ value none → (consume (consume r a).0 b).1 ≡ (consume r (a ++ b)).1
  unfolding appended
  consume_join waits = elim (Bool-cases (ltb (maximum_response_size - r.total_bytes) (length a))) [
    | inl over ↦ cc (overlong r a live (is_nil-ne a some_a) over)
    | inr fits ↦
        let first = fitting r a live (is_nil-ne a some_a) fits in
        rw first (continued fits (rw first at waits))
  ]

  -- No proper part of a whole response is an answer or an error.
  part_waits :
      (attributes : AttributeSet)
      → (consume r (a ++ b)).1 ≡ value (some attributes)
      → (consume r a).1 ≡ value none
  unfolding appended
  part_waits attributes e =
      elim (Bool-cases (ltb (maximum_response_size - r.total_bytes) (length (a ++ b)))) [
        | inl over ↦ cc (overlong r (a ++ b) live (is_nil-append a b some_a) over)
        | inr fits ↦
            let len = length-append a b in
            let part : ltb (maximum_response_size - r.total_bytes) (length a) ≡ false =
              ground (arith, len) in
            let total = r.total_bytes + length (a ++ b) in
            let all = fitting r (a ++ b) live (is_nil-append a b some_a) fits in
            rw (fitting r a live (is_nil-ne a some_a) part) (
              waits_of (header appended).1 (header (grown (header appended).0 total b)).1
                (header (grown appended total b)).1 attributes
                (header-Extends b total appended some_b)
                (ap (λ x. (header x).1) (regrown total refl) ∙ sym (ap (λ x. x.1) all) ∙ e))
      ]

-- What an incomplete answer leaves behind.
waiting_state :
    (r : Reassembler) (a : List ℕ)
    → r.terminal ≡ false
    → r.total_bytes ≤ maximum_response_size
    → a ≢ []
    → (consume r a).1 ≡ value none
    → ((consume r a).0.terminal ≡ false) × ((consume r a).0.total_bytes ≤ maximum_response_size)
waiting_state r a live bounded some_a waits =
    elim (Bool-cases (ltb (maximum_response_size - r.total_bytes) (length a))) [
      | inl over ↦ cc (overlong r a live (is_nil-ne a some_a) over)
      | inr fits ↦
          let first = fitting r a live (is_nil-ne a some_a) fits in
          let (same, total) =
            header-open (grown r (r.total_bytes + length a) a) (rw (← first, waits) refl) in
          rw first (same ∙ live, ground (arith, total))
    ]

abbrev pub Nonempty : List (List ℕ) → Type 0
Nonempty [] = Unit {0}
Nonempty (f ∷ fs) = (f ≢ []) × Nonempty fs

unfoldable pub joined : List (List ℕ) → List ℕ
joined [] = []
joined (f ∷ fs) = f ++ joined fs

joined-ne : (f : List ℕ) (fs : List (List ℕ)) → f ≢ [] → joined (f ∷ fs) ≢ []
unfolding joined
joined-ne [] fs n = absurd (n refl)
joined-ne (x ∷ f) fs n = λ e. cc

answer_waits :
    (p : Reassembler × Result (Option AttributeSet))
    (f : Reassembler → Reassembler × Result (Option AttributeSet))
    → p.1 ≡ value none
    → answer p f ≡ f p.0
answer_waits (r, value none) f e = refl
answer_waits (r, value (some a)) f e = cc
answer_waits (r, error kind fatal) f e = cc

answer_done :
    (p : Reassembler × Result (Option AttributeSet))
    (f : Reassembler → Reassembler × Result (Option AttributeSet)) (a : AttributeSet)
    → p.1 ≡ value (some a)
    → (answer p f).1 ≡ value (some a)
answer_done (r, value none) f a e = cc
answer_done (r, value (some b)) f a e = e
answer_done (r, error kind fatal) f a e = cc

empty_fragment : (r : Reassembler) → r.terminal ≡ false → (consume r []).1 ≡ error protocol true
unfolding consume
empty_fragment r live = simp live

-- On a parser that is not terminal and within its byte limit, a response that is complete as one
-- fragment is the same response in any cut: handed to `consume`
-- piece by piece, none of them empty, it is incomplete up to the last and then gives the same
-- attributes.
pub feed_any_cut :
    (r : Reassembler) (fragments : List (List ℕ)) (attributes : AttributeSet)
    → r.terminal ≡ false
    → r.total_bytes ≤ maximum_response_size
    → Nonempty fragments
    → (consume r (joined fragments)).1 ≡ value (some attributes)
    → (feed r fragments).1 ≡ value (some attributes)
unfolding feed joined
feed_any_cut r [] attributes live bounded n e = cc (empty_fragment r live)
feed_any_cut r (f ∷ []) attributes live bounded n e =
    answer_done (consume r f) _ attributes (rw (append-nil f) at e)
feed_any_cut r (f ∷ g ∷ fs) attributes live bounded n e =
    let rest = joined (g ∷ fs) in
    let waits = part_waits r f rest live bounded n.0 (joined-ne g fs n.1.0) attributes e in
    let (alive, under) = waiting_state r f live bounded n.0 waits in
    rw (answer_waits (consume r f) (λ s. feed s (g ∷ fs)) waits) (
      feed_any_cut (consume r f).0 (g ∷ fs) attributes alive under n.1
        (consume_join r f rest live bounded n.0 (joined-ne g fs n.1.0) waits ∙ e))
