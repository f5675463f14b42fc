-- ===== src/EventStore/Filter/Meaning.antt =====
-- src/app/gui/core/dmn-device-monitor-event-store.cpp: what `matchesEventFilter` selects.
use dmn.Prelude.{
  ℕ, ◌≡◌, refl, sym, ap, ◌∙◌, ◌⊎◌, ◌↔◌, inl, inr, Bool, true, false, not, ◌&&◌, ◌||◌, Option, none,
  some, List, [], ◌∷◌, ◌++◌, ◌==◌, if◌then◌else◌, arith, Bool-cases,
}
use dmn.Ancs.{Notification}
use dmn.Device.{same_identity, same_identity_sound, same_identity_self}
use dmn.EventStore.{
  EventKind, attributes_unavailable, error, notification_added, notification_removed,
  notification_updated, state_changed, AncsError, MonitorEvent,
}
use dmn.EventStore.Filter.Occurs.{occurs_sound, occurs_complete}
use dmn.EventStore.Filter.{
  EventFilter, kind_number, same_kind, is_nil, occurs, passes, holds, folded, contains_query,
  notification_matches, text_matches, matches_event_filter, optional, texts_of, error_text, texts,
  Found,
}

or_shape :
    (a b c d e : Bool)
    → (if a || (b || c) then true else if d then true else e) ≡ (a || (b || (c || (d || e))))
or_shape a b c d e = ground arith

or_assoc : (a b c : Bool) → ((a || b) || c) ≡ (a || (b || c))
or_assoc a b c = ground arith

or_false : (a : Bool) → (a || false) ≡ a
or_false a = ground arith

module _ (case_fold : List ℕ → List ℕ) where
  hit : List ℕ → List (List ℕ) → Bool
  hit query [] = false
  hit query (t ∷ ts) = let rest = hit query ts in contains_query case_fold query t || rest

  hit-append :
      (query : List ℕ) (ts us : List (List ℕ))
      → hit query (ts ++ us) ≡ (hit query ts || hit query us)
  unfolding hit
  hit-append query [] us = refl
  hit-append query (t ∷ ts) us =
      rw (hit-append query ts us) (sym (or_assoc (contains_query case_fold query t) _ _))

  hit-optional :
      (query : List ℕ) (o : Option (List ℕ))
      → hit query (optional case_fold o) ≡ holds o (contains_query case_fold query)
  unfolding hit
  hit-optional query none = refl
  hit-optional query (some text) = or_false (contains_query case_fold query text)

  hit-texts_of :
      (query : List ℕ) (o : Option Notification)
      → hit query (texts_of case_fold o) ≡ holds o (notification_matches case_fold query)
  unfolding notification_matches
  hit-texts_of query none = unfold hit in refl
  hit-texts_of query (some n) = simp (hit-append, hit-optional)

  hit-error_text :
      (query : List ℕ) (o : Option AncsError)
      → hit query (error_text case_fold o) ≡ holds o (λ x. contains_query case_fold query x.message)
  unfolding hit
  hit-error_text query none = refl
  hit-error_text query (some x) = or_false (contains_query case_fold query x.message)

  text_matches-hit :
      (query : List ℕ) (e : MonitorEvent) (name : List ℕ)
      → text_matches case_fold query e name ≡ hit query (texts case_fold e name)
  unfolding text_matches hit
  text_matches-hit query e name =
      or_shape (contains_query case_fold query name)
        (contains_query case_fold query e.identity.adapter_address)
        (contains_query case_fold query e.identity.device_address)
        (holds e.event.notification (notification_matches case_fold query))
        (holds e.event.error (λ x. contains_query case_fold query x.message))
      ∙ sym (
          rw
            (hit-append query (texts_of case_fold e.event.notification)
              (error_text case_fold e.event.error))
            (rw (hit-texts_of query e.event.notification, hit-error_text query e.event.error) refl))

  hit-Found : (query : List ℕ) (ts : List (List ℕ)) → hit query ts ≡ true → Found case_fold query ts
  unfolding hit contains_query
  hit-Found query [] h = cc
  hit-Found query (t ∷ ts) h =
      elim (Bool-cases (occurs (folded case_fold query) (folded case_fold t))) [
        | inl here ↦ inl (occurs_sound (folded case_fold query) (folded case_fold t) here)
        | inr there ↦ inr (hit-Found query ts (ground arith))
      ]

  Found-hit : (query : List ℕ) (ts : List (List ℕ)) → Found case_fold query ts → hit query ts ≡ true
  unfolding hit contains_query
  Found-hit query [] h = absurd h
  Found-hit query (t ∷ ts) (inl (before, after, e)) =
      let here : occurs (folded case_fold query) (folded case_fold t) ≡ true =
        rw e (occurs_complete (folded case_fold query) before after) in
      rw here refl
  Found-hit query (t ∷ ts) (inr there) = let r = Found-hit query ts there in ground arith

-- What a filter asks of an event: the identity, the kind and the category that it names, if it names
-- one, and a text that contains its query, if it has one.
pub record Selected (case_fold : List ℕ → List ℕ) (e : MonitorEvent) (filter : EventFilter)
    (name : List ℕ) : Type 0 where
  pub by_identity : (filter.identity ≡ none) ⊎ (filter.identity ≡ some e.identity)
  pub by_kind : (filter.kind ≡ none) ⊎ (filter.kind ≡ some e.event.kind)
  pub by_category :
      (filter.category ≡ none)
      ⊎ ((n : Notification) × (e.event.notification ≡ some n) × (filter.category ≡ some n.category))
  pub by_text : (filter.search ≡ []) ⊎ Found case_fold filter.search (texts case_fold e name)

-- The enumerator with a value.
abbrev kind_at : ℕ → EventKind
kind_at n =
    if n == 0
    then attributes_unavailable
    else if n == 1
    then error
    else if n == 2
    then notification_added
    else if n == 3
    then notification_removed
    else if n == 4
    then notification_updated
    else state_changed

kind_at-kind_number : (k : EventKind) → kind_at (kind_number k) ≡ k
kind_at-kind_number attributes_unavailable = refl
kind_at-kind_number error = refl
kind_at-kind_number notification_added = refl
kind_at-kind_number notification_removed = refl
kind_at-kind_number notification_updated = refl
kind_at-kind_number state_changed = refl

same_kind_sound : (k l : EventKind) → same_kind k l ≡ true → k ≡ l
same_kind_sound k l h =
    let numbers : kind_number k ≡ kind_number l = ground arith in
    sym (kind_at-kind_number k) ∙ ap kind_at numbers ∙ kind_at-kind_number l

eq_self : (n : ℕ) → (n == n) ≡ true
eq_self n = ground arith

passes_iff :
    {A : Type 0} (o : Option A) (test : A → Bool) (a : A)
    → ((x : A) → test x ≡ true → a ≡ x)
    → test a ≡ true
    → (passes o test ≡ true) ↔ ((o ≡ none) ⊎ (o ≡ some a))
passes_iff none test a sound self = (λ h. inl refl, λ h. refl)
passes_iff (some x) test a sound self = (
  λ h. inr (ap some (sym (sound x h))),
  λ h. elim h [ inl e ↦ cc | inr e ↦ let same : x ≡ a = cc in rw same self ],
)

category_iff :
    (o : Option ℕ) (m : Option Notification)
    → (passes o (λ c. holds m (λ n. n.category == c)) ≡ true)
      ↔ ((o ≡ none) ⊎ ((n : Notification) × (m ≡ some n) × (o ≡ some n.category)))
category_iff none m = (λ h. inl refl, λ h. refl)
category_iff (some c) none = (λ h. cc, λ h. elim h [ inl e ↦ cc | inr (n, e, k) ↦ cc ])
category_iff (some c) (some n) = (
  λ h. let e : n.category ≡ c = ground arith in inr (n, refl, ap some (sym e)),
  λ h. elim h [
    | inl e ↦ cc
    | inr (m, e, k) ↦
        let same : n ≡ m = cc in
        let code : c ≡ m.category = cc in rw (same, code) (eq_self m.category)
  ],
)

is_nil_iff : (query : List ℕ) → (is_nil query ≡ true) ↔ (query ≡ [])
is_nil_iff [] = (λ h. refl, λ h. refl)
is_nil_iff (c ∷ cs) = (λ h. cc, λ h. cc)

gate :
    (a b c d t : Bool)
    → (if not a
        then false
        else if not b
        then false
        else if not c
        then false
        else if d
        then true
        else t)
      ≡ (a && (b && (c && (d || t))))
gate a b c d t = ground arith

and_iff : (a b : Bool) → ((a && b) ≡ true) ↔ ((a ≡ true) × (b ≡ true))
and_iff true true = (λ h. (refl, refl), λ h. refl)
and_iff true false = (λ h. cc, λ h. cc)
and_iff false b = (λ h. cc, λ h. cc)

-- An event passes `matchesEventFilter` exactly when it is what the filter asks for: its identity, kind
-- and category are those that the filter names, where it names one; and, where the filter has a query,
-- the device's name, an address, a text of the notification or the error's message contains it, both
-- case-folded.
pub matches_iff :
    (case_fold : List ℕ → List ℕ) (e : MonitorEvent) (filter : EventFilter) (name : List ℕ)
    → (matches_event_filter case_fold e filter name ≡ true) ↔ Selected case_fold e filter name
unfolding matches_event_filter
matches_iff case_fold e filter name =
    let i = passes filter.identity (λ i. same_identity e.identity i) in
    let k = passes filter.kind (λ k. same_kind e.event.kind k) in
    let c = passes filter.category (λ c. holds e.event.notification (λ n. n.category == c)) in
    let t = text_matches case_fold filter.search e name in
    let shape = gate i k c (is_nil filter.search) t in
    let identities =
      passes_iff filter.identity (λ j. same_identity e.identity j) e.identity
        (λ j. same_identity_sound e.identity j) (same_identity_self e.identity) in
    let kinds =
      passes_iff filter.kind (λ l. same_kind e.event.kind l) e.event.kind
        (λ l. same_kind_sound e.event.kind l) (eq_self (kind_number e.event.kind)) in
    let categories = category_iff filter.category e.event.notification in
    let texts_hit = text_matches-hit case_fold filter.search e name in
    (
      λ h.
          let (hi, h1) = (and_iff i (k && (c && (is_nil filter.search || t)))).0 (sym shape ∙ h) in
          let (hk, h2) = (and_iff k (c && (is_nil filter.search || t))).0 h1 in
          let (hc, ht) = (and_iff c (is_nil filter.search || t)).0 h2 in
          record {
            by_identity = identities.0 hi;
            by_kind = kinds.0 hk;
            by_category = categories.0 hc;
            by_text = elim (Bool-cases (is_nil filter.search)) [
              | inl none_asked ↦ inl ((is_nil_iff filter.search).0 none_asked)
              | inr asked ↦ inr (
                  hit-Found case_fold filter.search (texts case_fold e name)
                    (sym texts_hit ∙ (rw asked at ht)))
            ];
          },
      λ v.
          shape
          ∙ (let ht : (is_nil filter.search || t) ≡ true = elim v.by_text [
            | inl none_asked ↦ rw ((is_nil_iff filter.search).1 none_asked) refl
            | inr found ↦
                let hit_it : t ≡ true =
                  texts_hit ∙ Found-hit case_fold filter.search (texts case_fold e name) found in
                ground arith
          ] in
              rw (identities.1 v.by_identity, kinds.1 v.by_kind, categories.1 v.by_category) ht),
    )
