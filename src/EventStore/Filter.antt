-- ===== src/EventStore/Filter.antt =====
-- src/app/gui/core/dmn-device-monitor-event-store.cpp: `matchesEventFilter`.
mod Occurs
pub mod Meaning
use dmn.Prelude.{
  ℕ, ◌≡◌, ◌≢◌, refl, sym, ap, ◌∙◌, ◌⊎◌, ◌↔◌, inl, inr, Bool, true, false, not, ◌&&◌, ◌||◌, Option,
  none, some, List, [], ◌∷◌, ◌++◌, ◌==◌, if◌then◌else◌, arith, Bool-cases,
}
use dmn.Ancs.{Notification}
use dmn.Device.{DeviceIdentity, same_identity, same_identity_sound, same_identity_self}
use dmn.EventStore.{
  EventKind, attributes_unavailable, error, notification_added, notification_removed,
  notification_updated, state_changed, AncsError, MonitorEvent,
}

pub record EventFilter : Type 0 where
  pub identity : Option DeviceIdentity
  pub kind : Option EventKind
  pub category : Option ℕ
  pub search : List ℕ

-- The value of the enumerator.
abbrev pub kind_number : EventKind → ℕ
kind_number attributes_unavailable = 0
kind_number error = 1
kind_number notification_added = 2
kind_number notification_removed = 3
kind_number notification_updated = 4
kind_number state_changed = 5

abbrev pub same_kind : EventKind → EventKind → Bool
same_kind k l = kind_number k == kind_number l

abbrev pub is_nil : List ℕ → Bool
is_nil [] = true
is_nil (c ∷ cs) = false

pub starts_with : List ℕ → List ℕ → Bool
starts_with [] text = true
starts_with (q ∷ qs) [] = false
starts_with (q ∷ qs) (t ∷ ts) = let rest = starts_with qs ts in q == t && rest

-- `text.find(query) != npos`.
pub occurs : List ℕ → List ℕ → Bool
unfolding starts_with
occurs query [] = starts_with query []
occurs query (t ∷ ts) = let rest = occurs query ts in starts_with query (t ∷ ts) || rest

-- The test of an optional part of the filter, and of an optional part of the event.
abbrev pub passes : {A : Type 0} → Option A → (A → Bool) → Bool
passes none same = true
passes (some a) same = same a

abbrev pub holds : {A : Type 0} → Option A → (A → Bool) → Bool
holds none test = false
holds (some a) test = test a

module _ (case_fold : List ℕ → List ℕ) where
  pub folded : List ℕ → List ℕ
  folded text = if is_nil text then [] else case_fold text

  pub contains_query : List ℕ → List ℕ → Bool
  unfolding folded occurs
  contains_query search text = occurs (folded search) (folded text)

  pub notification_matches : List ℕ → Notification → Bool
  notification_matches search n =
      holds n.app_identifier (contains_query search)
      || (holds n.title (contains_query search)
          || (holds n.subtitle (contains_query search)
              || (holds n.message (contains_query search) || holds n.date (contains_query search))))

  pub text_matches : List ℕ → MonitorEvent → List ℕ → Bool
  unfolding notification_matches
  text_matches search e device_name =
      if contains_query search device_name
        || (contains_query search e.identity.adapter_address
            || contains_query search e.identity.device_address)
      then true
      else if holds e.event.notification (notification_matches search)
      then true
      else holds e.event.error (λ x. contains_query search x.message)

  pub matches_event_filter : MonitorEvent → EventFilter → List ℕ → Bool
  unfolding text_matches
  matches_event_filter e filter device_name =
      if not (passes filter.identity (λ i. same_identity e.identity i))
      then false
      else if not (passes filter.kind (λ k. same_kind e.event.kind k))
      then false
      else if not (passes filter.category (λ c. holds e.event.notification (λ n. n.category == c)))
      then false
      else if is_nil filter.search
      then true
      else text_matches filter.search e device_name

  -- The texts of an event that a query is looked for in.
  abbrev pub optional : Option (List ℕ) → List (List ℕ)
  optional none = []
  optional (some text) = text ∷ []

  abbrev pub texts_of : Option Notification → List (List ℕ)
  texts_of none = []
  texts_of (some n) =
      optional n.app_identifier
      ++ (optional n.title ++ (optional n.subtitle ++ (optional n.message ++ optional n.date)))

  abbrev pub error_text : Option AncsError → List (List ℕ)
  error_text none = []
  error_text (some x) = x.message ∷ []

  abbrev pub texts : MonitorEvent → List ℕ → List (List ℕ)
  texts e device_name =
      device_name
        ∷ e.identity.adapter_address
        ∷ e.identity.device_address
        ∷ texts_of e.event.notification
      ++ error_text e.event.error

  -- Some text of the list, case-folded, contains the case-folded query.
  abbrev pub Found : List ℕ → List (List ℕ) → Type 0
  Found search [] = ⊥
  Found search (t ∷ ts) =
      ((before : List ℕ) × (after : List ℕ) × (folded t ≡ before ++ (folded search ++ after)))
      ⊎ Found search ts
