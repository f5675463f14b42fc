-- ===== src/Ancs.antt =====
-- include/dmn-ancs-client.hpp and src/dmn-ancs-client.cpp: the bounded parsing of the ANCS wire
-- format. A byte is a number below 256 and a `std::string` the list of its bytes. An error has its
-- kind and its `fatal` flag; the texts of the messages are left out.
pub mod Reassembler
pub mod Utf8
mod Source
mod Tests
use dmn.Prelude.{
  ℕ, zero, suc, ◌+◌, ◌-◌, ◌*◌, ◌/◌, ◌%◌, Bool, true, false, not, ◌&&◌, ◌||◌, Option, none, some,
  List, [], ◌∷◌, ◌++◌, ltb, leb, ◌==◌, if◌then◌else◌, length, get_or, take, drop,
}

pub data ErrorKind : Type 0 where
  authorization backend cleanup invalid_argument not_ready protocol remote resource_limit :
      ErrorKind
  timeout unsupported : ErrorKind

pub data NotificationKind : Type 0 where
  added attributes_unavailable removed updated : NotificationKind

pub record Notification : Type 0 where
  pub kind : NotificationKind
  pub uid : ℕ
  pub category : ℕ
  pub category_count : ℕ
  pub flags : ℕ
  pub app_identifier : Option (List ℕ)
  pub title : Option (List ℕ)
  pub subtitle : Option (List ℕ)
  pub message : Option (List ℕ)
  pub date : Option (List ℕ)

pub record AttributeSet : Type 0 where
  pub app_identifier : Option (List ℕ)
  pub title : Option (List ℕ)
  pub subtitle : Option (List ℕ)
  pub message : Option (List ℕ)
  pub date : Option (List ℕ)

abbrev pub no_attributes : AttributeSet
no_attributes = record {
  app_identifier = none;
  title = none;
  subtitle = none;
  message = none;
  date = none;
}

-- `std::expected`.
pub data Result (A : Type 0) : Type 0 where
  value : A → Result A
  error : ErrorKind → Bool → Result A

abbrev pub notification_source_size : ℕ
notification_source_size = 8

abbrev pub data_source_header_size : ℕ
data_source_header_size = 5

abbrev pub maximum_response_size : ℕ
maximum_response_size = 8192

abbrev pub requested_attribute_ids : List ℕ
requested_attribute_ids = 0 ∷ 1 ∷ 2 ∷ 3 ∷ 5 ∷ []

abbrev pub maximum_attribute_sizes : List ℕ
maximum_attribute_sizes = 255 ∷ 256 ∷ 256 ∷ 4096 ∷ 64 ∷ []

-- On bytes, `|` of the shifted values is their sum.
abbrev pub read_uint32 : List ℕ → ℕ → ℕ
read_uint32 bytes offset =
    get_or bytes offset 0
    + 256 * get_or bytes (offset + 1) 0
    + 65536 * get_or bytes (offset + 2) 0
    + 16777216 * get_or bytes (offset + 3) 0

abbrev pub read_uint16 : ℕ → ℕ → ℕ
read_uint16 low high = low + 256 * high

-- The lead byte: how many continuation bytes follow, and its own bits of the code point.
pub lead : ℕ → Option (ℕ × ℕ)
lead first =
    if leb 194 first && leb first 223
    then some (1, first % 32)
    else if leb 224 first && leb first 239
    then some (2, first % 16)
    else if leb 240 first && leb first 244
    then some (3, first % 8)
    else none

-- `(c & 0xc0) == 0x80`, and `(codePoint << 6) | (c & 0x3f)`.
pub continuations : ℕ → ℕ → List ℕ → Option (ℕ × List ℕ)
continuations zero code_point bytes = some (code_point, bytes)
continuations (suc n) code_point [] = none
continuations (suc n) code_point (c ∷ bytes) =
    let more = continuations n (code_point * 64 + c % 64) bytes in
    if c / 64 == 2 then more else none

pub is_scalar : ℕ → ℕ → Bool
is_scalar count code_point = not (
    count == 1 && ltb code_point 128
    || (count == 2 && ltb code_point 2048
        || (count == 3 && ltb code_point 65536
            || (leb 55296 code_point && leb code_point 57343 || ltb 1114111 code_point))))

checked : ℕ → Option (ℕ × List ℕ) → Option (List ℕ)
unfolding is_scalar
checked count none = none
checked count (some (code_point, rest)) = if is_scalar count code_point then some rest else none

multibyte : Option (ℕ × ℕ) → List ℕ → Option (List ℕ)
unfolding continuations
multibyte none bytes = none
multibyte (some (count, bits)) bytes = checked count (continuations count bits bytes)

-- One round of the loop: the bytes behind the first character, if it is well formed.
pub character : List ℕ → Option (List ℕ)
unfolding multibyte
character [] = none
character (first ∷ bytes) = if leb first 127 then some bytes else multibyte (lead first) bytes

-- The rest of the loop, when a character was well formed.
abbrev pub follow : Option (List ℕ) → (List ℕ → Bool) → Bool
follow none go_on = false
follow (some rest) go_on = go_on rest

-- The loop of `isValidUtf8`: every round consumes a byte at least, so the length is enough fuel.
pub valid_utf8 : ℕ → List ℕ → Bool
unfolding character
valid_utf8 fuel [] = true
valid_utf8 zero (b ∷ bytes) = false
valid_utf8 (suc fuel) (b ∷ bytes) = follow (character (b ∷ bytes)) (λ rest. valid_utf8 fuel rest)

pub is_valid_utf8 : List ℕ → Bool
unfolding valid_utf8
is_valid_utf8 bytes = valid_utf8 (length bytes) bytes

pub contains : List ℕ → ℕ → Bool
contains [] id = false
contains (x ∷ xs) id = x == id || contains xs id

pub is_requested_attribute : ℕ → Bool
unfolding contains
is_requested_attribute id = contains requested_attribute_ids id

pub assign_attribute : AttributeSet → ℕ → List ℕ → AttributeSet
assign_attribute a index bytes =
    if index == 0
    then record a { app_identifier = some bytes }
    else if index == 1
    then record a { title = some bytes }
    else if index == 2
    then record a { subtitle = some bytes }
    else if index == 3
    then record a { message = some bytes }
    else if index == 4
    then record a { date = some bytes }
    else a

kind_of : ℕ → Option NotificationKind
kind_of event =
    if event == 0
    then some added
    else if event == 1
    then some updated
    else if event == 2
    then some removed
    else none

noted : List ℕ → Option NotificationKind → Result Notification
noted bytes none = error unsupported false
noted bytes (some kind) = value (record {
  kind = kind;
  flags = get_or bytes 1 0;
  category = get_or bytes 2 0;
  category_count = get_or bytes 3 0;
  uid = read_uint32 bytes 4;
  app_identifier = none;
  title = none;
  subtitle = none;
  message = none;
  date = none;
})

pub parse_notification_source : List ℕ → Result Notification
unfolding kind_of noted
parse_notification_source bytes =
    if length bytes == notification_source_size
    then noted bytes (kind_of (get_or bytes 0 0))
    else error protocol true
