-- ===== src/Config/Tests.antt =====
-- Examples of ConfigFile of src/config.
use Prim.Native.String.{String}
use Prim.Native.Char.{code}
use cris_core.Prelude.{
  ◌+◌, ◌^◌, ltb, pos, negsuc, arith, ℕ, ◌≡◌, refl, false, Option, none, some, List, [], ◌∷◌, ◌++◌,
  ◌==◌, if◌then◌else◌,
}
use cris_core.Config.{gives, fatal, get, get_all, register_or_get}
use cris_core.Config.Json.{Simdjson, success, failure}
use cris_core.Config.Scalar.{integer, static_cast, init_value}
use cris_core.Config.Scalar.Ranges.{natural, given, init_value-given}
use cris_core.Config.Printing.{Value, shown, container, nil, cons, string_rep, accumulate}
use cris_core.Config.Printing.Brackets.{
  IsPlain, ArePlain, count, empty_containers, string_rep-empty_containers,
}
use cris_core.Config.Document.{init_config_json_context}
use cris_core.Config.History.{asks, first_get_decides}

-- A file with the name 1 only; a value is its number, and the type 9 has no value for it.
abbrev one_name : ℕ → Option ℕ
one_name n = if n == 1 then some 42 else none

abbrev as_number : ℕ → ℕ → Option ℕ
as_number type val = if type == 9 then none else some val

abbrev earlier : List (ℕ × ℕ × ℕ)
earlier = (2, 5, 0) ∷ []

earlier-asks : asks earlier 1 ≡ false
unfolding asks
earlier-asks = refl

mismatch_seen :
    (get one_name as_number (get_all one_name as_number (λ n. none) ((1, 4, 0) ∷ [])) 1 5 8).1
    ≡ fatal
unfolding get get_all register_or_get
mismatch_seen = refl

first_get_decides_example :
    (get one_name as_number
      (get_all one_name as_number (λ n. none) (earlier ++ (1, 4, 0) ∷ (1, 4, 3) ∷ []))
      1
      4
      8).1
    ≡ (if 4 == 4 then gives 42 else fatal)
first_get_decides_example =
    first_get_decides one_name as_number earlier ((1, 4, 3) ∷ []) 1 4 0 42 42 earlier-asks refl refl
      4 8

-- A file system without files, where the empty object is the number 0 and has no fields: a Get gives
-- its own default.
abbrev no_file : String → Option ℕ
no_file path = none

abbrev no_field : ℕ → Option (ℕ → Option ℕ)
no_field buf = some (λ name. none)

absent_seen :
    (get (init_config_json_context no_file no_field 0 "absent.json") as_number (λ n. none) 2 6 7).1
    ≡ gives 7
unfolding get register_or_get init_config_json_context
absent_seen = refl

-- The numbers themselves as JSON values, each of them an integer from 0 on.
abbrev numbers : Simdjson ℕ
numbers = record {
  is_object = λ v. false;
  entry = λ v key. failure;
  get_string = λ v. failure;
  get_uint64 = λ v. if ltb v (2 ^ 64) then success v else failure;
  get_int64 = λ v. if ltb v (2 ^ 63) then success (pos v) else failure;
  get_bool = λ v. failure;
  get_array = λ v. failure;
}

-- A number from 2 ^ 63 on is given to a signed Config of 128 bits, and ends the program for an
-- unsigned one.
init_value-given_example :
    init_value numbers (integer false 64) 9223372036854775808
    ≡ given false 64 (pos 9223372036854775808)
init_value-given_example =
    init_value-given numbers 9223372036854775808 (pos 9223372036854775808) false 64
      (natural refl refl) (omega arith) (omega arith)

minus_one_wraps : static_cast false 32 (negsuc 0) ≡ pos 4294967295
unfolding static_cast
minus_one_wraps = refl

-- The code points of a text.
abbrev codes : String → List ℕ
codes String.[] = []
codes (String.◌∷◌ c s) = code c ∷ codes s

-- [3, 4] and [] in an outer container.
abbrev nested : Value
nested = container (
    cons (container (cons (shown (b'3' ∷ [])) (cons (shown (b'4' ∷ [])) nil)))
      (cons (container nil) nil))

nested_text : string_rep nested ≡ codes "[[3,4],]]"
unfolding string_rep accumulate
nested_text = refl

nested-IsPlain : IsPlain nested
unfolding IsPlain ArePlain count
nested-IsPlain = (((refl, refl), ((refl, refl), tt)), (tt, tt))

string_rep-empty_containers_example :
    count b']' (string_rep nested) ≡ count b'[' (string_rep nested) + empty_containers nested
string_rep-empty_containers_example = string_rep-empty_containers nested nested-IsPlain
