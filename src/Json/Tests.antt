-- ===== src/Json/Tests.antt =====
-- src/app/engine/dmn-json.cpp: runs of the encoder and the parser, and the theorems at concrete inputs.
use dmn.Prelude.{
  ℕ, ◌≤◌, ◌≡◌, ◌≢◌, refl, Bool, true, false, [], ◌∷◌, ◌++◌, if◌then◌else◌, arith, length,
}
use Prim.Native.Char.{code}
use Prim.Native.String.{String}
use dmn.Json.{
  Bytes, Value, Items, null, bool, number, string, array, object, no_items, item, no_fields, field,
  equal,
}
use dmn.Json.Text.{ok, failed, out_of_fuel, dump_string, parse_string}
use dmn.Json.Text.Strings.{repair, parse_string-dump_string}
use dmn.Json.Dump.{Numbers, dump}
use dmn.Json.Parse.{parse}
use dmn.Json.Members.{Distinct, height}
use dmn.Json.Sound.{parse_terminates, parse_bounds}
use dmn.Json.Numbers.{NumberText, IsDocumented}
use dmn.Json.RoundTrip.{parse-dump}

abbrev codes : String → Bytes
codes String.[] = []
codes (String.◌∷◌ c s) = code c ∷ codes s

-- A few numbers, printed and read as the C library does.
data Sample : Type 0 where
  zero_ one half negative not_a_number : Sample

abbrev finite : Sample → Bool
finite not_a_number = false
finite _ = true

abbrev whole : Sample → Bool
whole half = false
whole not_a_number = false
whole _ = true

abbrev print_lld : Sample → Bytes
print_lld one = codes "1"
print_lld _ = codes "0"

abbrev print_g : Sample → Bytes
print_g half = codes "0.5"
print_g one = codes "1"
print_g negative = codes "-0"
print_g zero_ = codes "0"
print_g not_a_number = codes "nan"

abbrev read : Bytes → Sample × ℕ
read ts =
    if equal ts (codes "1")
    then (one, 1)
    else if equal ts (codes "0.5")
    then (half, 3)
    else if equal ts (codes "-0")
    then (negative, 2)
    else (zero_, 1)

abbrev numbers : Numbers Sample
numbers = record {
  is_finite = finite;
  is_whole = whole;
  print_whole = print_lld;
  print_17 = print_g;
  strtod = read;
}

abbrev negative_zero : Sample → Bool
negative_zero negative = true
negative_zero _ = false

whole_text : (d : Sample) → finite d ≡ true → whole d ≡ true → NumberText (print_lld d)
whole_text zero_ f w = (refl, tt)
whole_text one f w = (refl, tt)
whole_text half f w = cc
whole_text negative f w = (refl, tt)
whole_text not_a_number f w = cc

text_17 : (d : Sample) → finite d ≡ true → whole d ≡ false → NumberText (print_g d)
text_17 half f w = (refl, (refl, (refl, tt)))
text_17 zero_ f w = cc
text_17 one f w = cc
text_17 negative f w = cc
text_17 not_a_number f w = cc

whole-read :
    (d : Sample)
    → finite d ≡ true
    → whole d ≡ true
    → negative_zero d ≡ false
    → read (print_lld d) ≡ (d, length (print_lld d))
whole-read zero_ f w n = refl
whole-read one f w n = refl
whole-read half f w n = cc
whole-read negative f w n = cc
whole-read not_a_number f w n = cc

read_17 :
    (d : Sample) → finite d ≡ true → whole d ≡ false → read (print_g d) ≡ (d, length (print_g d))
read_17 half f w = refl
read_17 zero_ f w = cc
read_17 one f w = cc
read_17 negative f w = cc
read_17 not_a_number f w = cc

documented : IsDocumented numbers negative_zero
documented = record {
  whole_text = whole_text;
  text_17 = text_17;
  whole_read = whole-read;
  read_17 = read_17;
}

-- {"a":[1,0.5,"é\n"],"b":{},"c":true}
abbrev sample : Value Sample
sample = object (
    field (codes "a") (array numbers_and_text)
      (field (codes "b") (object no_fields) (field (codes "c") (bool true) no_fields)))
  where
    numbers_and_text : Items Sample
    numbers_and_text =
        item (number one) (item (number half) (item (string (195 ∷ 169 ∷ 10 ∷ [])) no_items))

dump-sample :
    dump numbers sample
    ≡ codes "{\"a\":[1,0.5,\"" ++ (195 ∷ 169 ∷ []) ++ codes "\\n\"],\"b\":{},\"c\":true}"
unfolding dump dump_string
dump-sample = refl

parse_spaced :
    parse numbers (codes " [ null , \"\\ud83d\\ude00\" ] ")
    ≡ ok (array (item null (item (string (240 ∷ 159 ∷ 152 ∷ 128 ∷ [])) no_items)))
unfolding parse parse_string
parse_spaced = refl

parse_lone_surrogate : parse numbers (codes "\"\\ud83d\"") ≡ failed
unfolding parse parse_string
parse_lone_surrogate = refl

-- The second value of a key replaces the first.
parse_same_key :
    parse numbers (codes "{\"a\":1,\"a\":null}") ≡ ok (object (field (codes "a") null no_fields))
unfolding parse parse_string
parse_same_key = refl

abbrev nested : ℕ → Value Sample
nested ℕ.zero = null
nested (ℕ.suc n) = array (item (nested n) no_items)

parse_too_deep : parse numbers (dump numbers (nested 33)) ≡ failed
unfolding parse dump
parse_too_deep = refl

parse-dump_example : parse numbers (dump numbers sample) ≡ ok sample
unfolding repair
parse-dump_example =
    parse-dump numbers negative_zero documented sample
      (refl, ((refl, refl), ((refl, refl), (refl, tt))), (refl, tt, (refl, tt, tt)))
      (refl, (tt, (tt, (tt, tt))), (refl, tt, (refl, tt, tt))) (omega arith)

parse_string-dump_string_example :
    (body : Bytes) × (dump_string (104 ∷ 10 ∷ 255 ∷ []) ≡ b'"' ∷ body)
    × (parse_string (body ++ codes ",1") ≡ ok (repair (104 ∷ 10 ∷ 255 ∷ []), codes ",1"))
parse_string-dump_string_example = parse_string-dump_string (104 ∷ 10 ∷ 255 ∷ []) (codes ",1")

repaired : repair (104 ∷ 10 ∷ 255 ∷ []) ≡ 104 ∷ 10 ∷ 239 ∷ 191 ∷ 189 ∷ []
unfolding repair
repaired = refl

parse_terminates_example : parse numbers (codes "[[{") ≢ out_of_fuel
parse_terminates_example = parse_terminates numbers (codes "[[{")

parse_bounds_example : (height {D = Sample} (nested 2) ≤ 32) × Distinct (nested 2)
unfolding parse
parse_bounds_example = parse_bounds numbers (codes "[[null]]") (nested 2) refl
