-- ===== src/Ancs/Reassembler.antt =====
-- src/dmn-ancs-client.cpp: `Dmn_AncsDataSourceReassembler`. The loop of `consume` keeps the bytes from
-- `m_buffer[consumed]` on, `rest`, in place of the offset; a break leaves them as the buffer.
mod Loop
mod Fragments
pub mod Join
pub mod Encode
use dmn.Prelude.{
  ℕ, zero, suc, ◌+◌, ◌-◌, Bool, true, false, not, Option, none, some, List, [], ◌∷◌, ◌++◌, ltb,
  ◌==◌, if◌then◌else◌, length, get_or, take, drop,
}
use dmn.Ancs.{
  ErrorKind, protocol, resource_limit, not_ready, Result, value, error, AttributeSet, no_attributes,
  requested_attribute_ids, maximum_attribute_sizes, data_source_header_size, maximum_response_size,
  read_uint32, read_uint16, is_requested_attribute, is_valid_utf8, assign_attribute,
}

-- The members that the loop advances.
pub record Progress : Type 0 where
  pub index : ℕ
  pub attributes : AttributeSet

pub record Reassembler : Type 0 where
  pub expected_uid : ℕ
  pub total_bytes : ℕ
  pub progress : Progress
  pub header_seen : Bool
  pub terminal : Bool
  pub buffer : List ℕ

unfoldable pub new : ℕ → Reassembler
new uid = record {
  expected_uid = uid;
  total_bytes = 0;
  progress = record { index = 0; attributes = no_attributes };
  header_seen = false;
  terminal = false;
  buffer = [];
}

-- How the loop ends: by a break, by an error, or with all attributes parsed.
pub data LoopEnd : Type 0 where
  paused : Progress → List ℕ → LoopEnd
  broken : ErrorKind → Bool → Progress → LoopEnd
  whole : Progress → LoopEnd

pub data Round : Type 0 where
  more : Progress → List ℕ → Round
  stop : LoopEnd → Round

abbrev pub is_nil : List ℕ → Bool
is_nil [] = true
is_nil (b ∷ bytes) = false

-- The identifier, the length and what follows, if three bytes are there.
abbrev pub tuple : List ℕ → Option (ℕ × ℕ × List ℕ)
tuple (id ∷ low ∷ high ∷ body) = some (id, read_uint16 low high, body)
tuple _ = none

unrequested : Progress → List ℕ → ℕ → ℕ → List ℕ → Round
unrequested p rest id len body =
    if is_requested_attribute id
    then stop (broken protocol true p)
    else if ltb (length body) len
    then stop (paused p rest)
    else more p (drop len body)

advance : Progress → List ℕ → Progress
advance p bytes = record {
  index = p.index + 1;
  attributes = assign_attribute p.attributes p.index bytes;
}

expected : Progress → List ℕ → ℕ → List ℕ → Round
unfolding advance
expected p rest len body =
    if ltb (get_or maximum_attribute_sizes p.index 0) len
    then stop (broken resource_limit true p)
    else if ltb (length body) len
    then stop (paused p rest)
    else if not (is_valid_utf8 (take len body))
    then stop (broken protocol false p)
    else more (advance p (take len body)) (drop len body)

tuple_round : Progress → List ℕ → Option (ℕ × ℕ × List ℕ) → Round
tuple_round p rest none = stop (paused p rest)
tuple_round p rest (some (id, len, body)) =
    if id == get_or requested_attribute_ids p.index 0
    then expected p rest len body
    else unrequested p rest id len body

pub round : Progress → List ℕ → Round
unfolding tuple_round
round p rest =
    if ltb p.index 5
    then tuple_round p rest (tuple rest)
    else if is_nil rest
    then stop (whole p)
    else stop (broken protocol true p)

abbrev pub go_on : Round → (Progress → List ℕ → LoopEnd) → LoopEnd
go_on (more p rest) f = f p rest
go_on (stop end) f = end

-- Every round that goes on consumes three bytes or more.
pub loop : ℕ → Progress → List ℕ → LoopEnd
loop zero p rest = paused p rest
loop (suc fuel) p rest = go_on (round p rest) (λ q behind. loop fuel q behind)

pub parse : Progress → List ℕ → LoopEnd
unfolding loop
parse p rest = loop (suc (length rest)) p rest

abbrev pub close : Reassembler → LoopEnd → Reassembler × Result (Option AttributeSet)
close r (paused p rest) = (record r { progress = p; buffer = rest }, value none)
close r (broken kind fatal p) = (record r { progress = p; terminal = true }, error kind fatal)
close r (whole p) = (record r { progress = p; terminal = true }, value (some p.attributes))

abbrev pub fail : Reassembler → ErrorKind → Reassembler × Result (Option AttributeSet)
fail r kind = (record r { terminal = true }, error kind true)

unfoldable pub header : Reassembler → Reassembler × Result (Option AttributeSet)
header r =
    if r.header_seen
    then close r (parse r.progress r.buffer)
    else if ltb (length r.buffer) data_source_header_size
    then (r, value none)
    else if not (get_or r.buffer 0 0 == 0)
    then fail r protocol
    else if not (read_uint32 r.buffer 1 == r.expected_uid)
    then fail r protocol
    else close (record r { header_seen = true })
        (parse r.progress (drop data_source_header_size r.buffer))

unfoldable pub consume : Reassembler → List ℕ → Reassembler × Result (Option AttributeSet)
unfolding header
consume r fragment =
    if r.terminal
    then (r, error not_ready true)
    else if is_nil fragment
    then (r, error protocol true)
    else if ltb (maximum_response_size - r.total_bytes) (length fragment)
    then fail r resource_limit
    else header
        (record r { total_bytes = r.total_bytes + length fragment; buffer = r.buffer ++ fragment })

-- A session hands each Data Source value to `consume` until it has an answer or an error.
abbrev pub answer :
    Reassembler × Result (Option AttributeSet)
    → (Reassembler → Reassembler × Result (Option AttributeSet))
    → Reassembler × Result (Option AttributeSet)
answer (r, value none) f = f r
answer (r, value (some a)) f = (r, value (some a))
answer (r, error kind fatal) f = (r, error kind fatal)

pub feed : Reassembler → List (List ℕ) → Reassembler × Result (Option AttributeSet)
feed r [] = (r, value none)
feed r (fragment ∷ fragments) = answer (consume r fragment) (λ s. feed s fragments)
