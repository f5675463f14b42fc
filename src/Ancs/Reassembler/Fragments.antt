-- ===== src/Ancs/Reassembler/Fragments.antt =====
-- src/dmn-ancs-client.cpp: the Data Source response does not depend on how it was cut into fragments.
use dmn.Prelude.{
  drop-append, ℕ, zero, suc, ◌+◌, ◌-◌, ◌≤◌, ◌<◌, ◌≡◌, ◌≢◌, refl, ap, ◌∙◌, Bool, true, false, Option,
  none, some, List, [], ◌∷◌, ◌++◌, ltb, ◌==◌, length, get_or, drop, arith, Bool-cases, inl, inr,
  length-append,
}
use dmn.Ancs.{
  protocol, resource_limit, Result, value, error, AttributeSet, maximum_response_size, read_uint32,
}
use dmn.Ancs.Reassembler.{
  Reassembler, LoopEnd, paused, broken, whole, is_nil, parse, close, header, consume,
}
use dmn.Ancs.Reassembler.Loop.{EndExtends, parse-Extends}

pub is_nil-append : (a b : List ℕ) → a ≢ [] → is_nil (a ++ b) ≡ false
is_nil-append [] b n = absurd (n refl)
is_nil-append (x ∷ a) b n = refl

-- The result of a call on the longer buffer, from the one on the shorter.
abbrev pub ResultExtends :
    Result (Option AttributeSet)
    → Result (Option AttributeSet)
    → Result (Option AttributeSet)
    → Type 0
ResultExtends (value none) later all = later ≡ all
ResultExtends (value (some a)) later all = all ≡ error protocol true
ResultExtends (error kind fatal) later all = all ≡ error kind fatal

close_result : (r r' : Reassembler) (end : LoopEnd) → (close r end).1 ≡ (close r' end).1
close_result r r' (paused p left) = refl
close_result r r' (broken kind fatal p) = refl
close_result r r' (whole p) = refl

header_parses :
    (r : Reassembler) → r.header_seen ≡ true → header r ≡ close r (parse r.progress r.buffer)
unfolding header
header_parses r h = simp h

abbrev pub grown : Reassembler → ℕ → List ℕ → Reassembler
grown r total b = record r { total_bytes = total; buffer = r.buffer ++ b }

close-Extends :
    (b : List ℕ) (total : ℕ) (r r' : Reassembler) (end end' : LoopEnd)
    → r.header_seen ≡ true
    → EndExtends b end end'
    → ResultExtends (close r end).1 (header (grown (close r end).0 total b)).1 (close r' end').1
close-Extends b total r r' (paused p left) end' h e =
    ap (λ x. x.1) (header_parses (grown (close r (paused p left)).0 total b) h)
    ∙ rw e (close_result (grown (close r (paused p left)).0 total b) r' (parse p (left ++ b)))
close-Extends b total r r' (broken kind fatal p) end' h e = rw e
close-Extends b total r r' (whole p) end' h e = rw e

get_or-append : (i d : ℕ) (xs ys : List ℕ) → i < length xs → get_or (xs ++ ys) i d ≡ get_or xs i d
get_or-append i d [] ys h = absurd (omega arith)
get_or-append zero d (x ∷ xs) ys h = refl
get_or-append (suc i) d (x ∷ xs) ys h = get_or-append i d xs ys (omega arith)

read_uint32-append : (xs ys : List ℕ) → 5 ≤ length xs → read_uint32 (xs ++ ys) 1 ≡ read_uint32 xs 1
read_uint32-append xs ys h = simp (
  get_or-append 1 0 xs ys (omega arith),
  get_or-append 2 0 xs ys (omega arith),
  get_or-append 3 0 xs ys (omega arith),
  get_or-append 4 0 xs ys (omega arith),
)

header_waits :
    (r : Reassembler)
    → r.header_seen ≡ false
    → ltb (length r.buffer) 5 ≡ true
    → header r ≡ (r, value none)
unfolding header
header_waits r new short = simp (new, short)

-- A header that has not been seen yet: too short, refused, or accepted.
unseen-Extends :
    (b : List ℕ) (total : ℕ) (r : Reassembler)
    → b ≢ []
    → r.header_seen ≡ false
    → ltb (length r.buffer) 5 ≡ false
    → ResultExtends
        (header r).1
        (header (grown (header r).0 total b)).1
        (header (grown r total b)).1
unfolding header
unseen-Extends b total r n new long =
    let enough : ltb (length (r.buffer ++ b)) 5 ≡ false =
      ground (arith, length-append r.buffer b) in
    let five : 5 ≤ length r.buffer = ground arith in
    let first = get_or-append 0 0 r.buffer b (omega (arith, five)) in
    let uid = read_uint32-append r.buffer b five in
    let behind = drop-append 5 r.buffer b five in
    elim (Bool-cases (get_or r.buffer 0 0 == 0)) [
      | inr other ↦ simp (new, long, enough, first, other)
      | inl command ↦ elim (Bool-cases (read_uint32 r.buffer 1 == r.expected_uid)) [
        | inr other ↦ simp (new, long, enough, first, command, uid, other)
        | inl same ↦
            simp (new, long, enough, first, command, uid, same, behind)
              (close-Extends b total (record r { header_seen = true })
                (record (grown r total b) { header_seen = true }) _ _ refl
                (parse-Extends b r.progress (drop 5 r.buffer) n))
      ]
    ]

pub header-Extends :
    (b : List ℕ) (total : ℕ) (r : Reassembler)
    → b ≢ []
    → ResultExtends
        (header r).1
        (header (grown (header r).0 total b)).1
        (header (grown r total b)).1
header-Extends b total r n = elim (Bool-cases r.header_seen) [
  | inl seen ↦
      rw (header_parses r seen, header_parses (grown r total b) seen)
        (close-Extends b total r (grown r total b) _ _ seen (parse-Extends b r.progress r.buffer n))
  | inr new ↦ elim (Bool-cases (ltb (length r.buffer) 5)) [
    | inl short ↦ rw (header_waits r new short) refl
    | inr long ↦ unseen-Extends b total r n new long
  ]
]

-- A fragment that fits, on a parser that is not at its end, is appended and parsed.
pub fitting :
    (r : Reassembler) (a : List ℕ)
    → r.terminal ≡ false
    → is_nil a ≡ false
    → ltb (maximum_response_size - r.total_bytes) (length a) ≡ false
    → consume r a ≡ header (grown r (r.total_bytes + length a) a)
unfolding consume
fitting r a live n fits = simp (live, n, fits)

pub overlong :
    (r : Reassembler) (a : List ℕ)
    → r.terminal ≡ false
    → is_nil a ≡ false
    → ltb (maximum_response_size - r.total_bytes) (length a) ≡ true
    → (consume r a).1 ≡ error resource_limit true
unfolding consume
overlong r a live n over = simp (live, n, over)

abbrev pub is_open : Result (Option AttributeSet) → Bool
is_open (value none) = true
is_open _ = false

close-open :
    (r : Reassembler) (end : LoopEnd)
    → is_open (close r end).1 ≡ true
    → ((close r end).0.terminal ≡ r.terminal) × ((close r end).0.total_bytes ≡ r.total_bytes)
close-open r (paused p left) h = (refl, refl)
close-open r (broken kind fatal p) h = cc
close-open r (whole p) h = cc

pub header-open :
    (r : Reassembler)
    → is_open (header r).1 ≡ true
    → ((header r).0.terminal ≡ r.terminal) × ((header r).0.total_bytes ≡ r.total_bytes)
unfolding header
header-open r h = ground (
  arith,
  close-open r (parse r.progress r.buffer),
  close-open (record r { header_seen = true }) (parse r.progress (drop 5 r.buffer)),
)
