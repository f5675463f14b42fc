-- ===== src/Ancs/Tests.antt =====
-- src/dmn-ancs-client.cpp: concrete responses, whole and cut.
use dmn.Prelude.{◌≡◌, ◌≤◌, refl, true, false, inl, inr, ℕ, some, none, List, [], ◌∷◌, arith}
use dmn.Ancs.Source.{parse-source_bytes}
use dmn.Ancs.{
  Notification, updated, parse_notification_source, maximum_response_size, value, is_valid_utf8,
  valid_utf8, character, multibyte, lead, continuations, checked, is_scalar,
}
use dmn.Ancs.Reassembler.{new, consume, feed, header}
use dmn.Ancs.Reassembler.Encode.{response, all_attributes, consume-response}
use dmn.Ancs.Reassembler.Join.{joined, feed_any_cut}
use dmn.Ancs.Utf8.{encode_all, well_formed_accepted}

abbrev euro : List ℕ
euro = 226 ∷ 130 ∷ 172 ∷ []

euro-valid : is_valid_utf8 euro ≡ true
unfolding is_valid_utf8 valid_utf8 character multibyte lead continuations checked is_scalar
euro-valid = refl

empty-valid : is_valid_utf8 [] ≡ true
unfolding is_valid_utf8 valid_utf8
empty-valid = refl

whole_response :
    (consume (new 77) (response 77 [] euro [] [] [])).1
    ≡ value (some (all_attributes 77 [] euro [] [] []))
whole_response =
    consume-response 77 [] euro [] [] [] (omega arith)
      (record { valid = empty-valid; fits = omega arith })
      (record { valid = euro-valid; fits = omega arith })
      (record { valid = empty-valid; fits = omega arith })
      (record { valid = empty-valid; fits = omega arith })
      (record { valid = empty-valid; fits = omega arith })

consume-response_example :
    (consume (new 77) (response 77 [] euro [] [] [])).1
    ≡ value (some (all_attributes 77 [] euro [] [] []))
consume-response_example =
    consume-response 77 [] euro [] [] [] (omega arith)
      (record { valid = empty-valid; fits = omega arith })
      (record { valid = euro-valid; fits = omega arith })
      (record { valid = empty-valid; fits = omega arith })
      (record { valid = empty-valid; fits = omega arith })
      (record { valid = empty-valid; fits = omega arith })

-- The same response, cut within the header and within a character.
abbrev first_part : List ℕ
first_part = 0 ∷ 77 ∷ 0 ∷ []

abbrev second_part : List ℕ
second_part = 0 ∷ 0 ∷ 0 ∷ 0 ∷ 0 ∷ 1 ∷ 3 ∷ 0 ∷ 226 ∷ []

abbrev third_part : List ℕ
third_part = 130 ∷ 172 ∷ 2 ∷ 0 ∷ 0 ∷ 3 ∷ 0 ∷ 0 ∷ 5 ∷ 0 ∷ 0 ∷ []

new-live : (new 77).terminal ≡ false
unfolding new
new-live = refl

new-bounded : (new 77).total_bytes ≤ maximum_response_size
unfolding new
new-bounded = omega arith

cut_response :
    (consume (new 77) (joined (first_part ∷ second_part ∷ third_part ∷ []))).1
    ≡ value (some (all_attributes 77 [] euro [] [] []))
unfolding joined
cut_response = whole_response

feed_any_cut_example :
    (feed (new 77) (first_part ∷ second_part ∷ third_part ∷ [])).1
    ≡ value (some (all_attributes 77 [] euro [] [] []))
feed_any_cut_example =
    feed_any_cut (new 77) (first_part ∷ second_part ∷ third_part ∷ [])
      (all_attributes 77 [] euro [] [] []) new-live new-bounded
      ((λ e. cc), ((λ e. cc), ((λ e. cc), tt))) cut_response

first_waits : (consume (new 77) first_part).1 ≡ value none
unfolding consume new header
first_waits = refl

well_formed_accepted_example : is_valid_utf8 (encode_all (65 ∷ 233 ∷ 8364 ∷ 128512 ∷ [])) ≡ true
well_formed_accepted_example = well_formed_accepted (65 ∷ 233 ∷ 8364 ∷ 128512 ∷ []) (
  inl (omega arith),
  (inl (omega arith), (inl (omega arith), (inr (omega arith, omega arith), tt))),
)

abbrev mail : Notification
mail = record {
  kind = updated;
  uid = 305419896;
  category = 6;
  category_count = 1;
  flags = 2;
  app_identifier = none;
  title = none;
  subtitle = none;
  message = none;
  date = none;
}

parse-source_bytes_example :
    parse_notification_source (1 ∷ 2 ∷ 6 ∷ 1 ∷ 120 ∷ 86 ∷ 52 ∷ 18 ∷ []) ≡ value mail
parse-source_bytes_example = parse-source_bytes mail 1 (omega arith) refl
