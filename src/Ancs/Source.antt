-- ===== src/Ancs/Source.antt =====
-- src/dmn-ancs-client.cpp: the Notification Source value as Apple's specification lays it out.
use dmn.Prelude.{ℕ, ◌<◌, ◌≡◌, refl, none, some, Option, List, ◌∷◌, arith}
use dmn.Ancs.{
  NotificationKind, added, attributes_unavailable, removed, updated, Notification, value,
  read_uint32, kind_of, noted, parse_notification_source,
}
use dmn.Ancs.Reassembler.Encode.{uint32_bytes}

-- The event identifier of a kind that the phone sends.
abbrev pub event_id : NotificationKind → Option ℕ
event_id added = some 0
event_id updated = some 1
event_id removed = some 2
event_id attributes_unavailable = none

abbrev pub source_bytes : ℕ → Notification → List ℕ
source_bytes event n = event ∷ n.flags ∷ n.category ∷ n.category_count ∷ uint32_bytes n.uid

-- The metadata of a notification, without attributes.
abbrev pub bare : Notification → Notification
bare n = record n {
  app_identifier = none;
  title = none;
  subtitle = none;
  message = none;
  date = none;
}

read_uid : (a b c d n : ℕ) → n < 4294967296 → read_uint32 (a ∷ b ∷ c ∷ d ∷ uint32_bytes n) 4 ≡ n
read_uid a b c d n h = omega arith

known_event : (k : NotificationKind) (event : ℕ) → event_id k ≡ some event → kind_of event ≡ some k
unfolding kind_of
known_event added event e = let same : event ≡ 0 = cc in rw same refl
known_event updated event e = let same : event ≡ 1 = cc in rw same refl
known_event removed event e = let same : event ≡ 2 = cc in rw same refl
known_event attributes_unavailable event e = cc

parse_known :
    (event : ℕ) (n : Notification)
    → n.uid < 4294967296
    → kind_of event ≡ some n.kind
    → parse_notification_source (source_bytes event n) ≡ value (bare n)
unfolding parse_notification_source noted
parse_known event n h k = simp (k, read_uid event n.flags n.category n.category_count n.uid h)

-- The eight bytes of an added, updated or removed notification with a 32-bit UID are parsed to that
-- notification: kind, UID, category, count and flags, with no attribute.
pub parse-source_bytes :
    (n : Notification) (event : ℕ)
    → n.uid < 4294967296
    → event_id n.kind ≡ some event
    → parse_notification_source (source_bytes event n) ≡ value (bare n)
parse-source_bytes n event h e = parse_known event n h (known_event n.kind event e)
