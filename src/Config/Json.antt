-- ===== src/Config/Json.antt =====
-- What the parsers of configuration take from the library simdjson, as parameters: the kind of a
-- value, its fields and its items. A parse that ends the program by a fatal log is `fatal`.
use Prim.Native.String.{String}
use cris_core.Prelude.{ℕ, Bool, true, false, Option, none, some, List, ℤ}

-- What a get of simdjson returns: a value, NO_SUCH_FIELD, or another error.
pub data Got {ℓ} (A : Type ℓ) : Type ℓ where
  success : A → Got A
  no_such_field : Got A
  failure : Got A

-- The accessors. `entry` reads a field of a value or of an object that a value is; an accessor on
-- what is not there hands the error on.
pub record Simdjson (Json : Type 0) : Type 0 where
  pub is_object : Json → Bool
  pub entry : Json → String → Got Json
  pub get_string : Json → Got String
  pub get_uint64 : Json → Got ℕ
  pub get_int64 : Json → Got ℤ
  pub get_bool : Json → Got Bool
  pub get_array : Json → Got (List Json)

abbrev pub and_get {ℓ κ} : {A : Type ℓ} {B : Type κ} → Got A → (A → Got B) → Got B
and_get (success a) f = f a
and_get no_such_field f = no_such_field
and_get failure f = failure

pub data Result {ℓ} (A : Type ℓ) : Type ℓ where
  parsed : A → Result A
  fatal : Result A

infixl 1 ◌>>=◌
abbrev pub ◌>>=◌ {ℓ κ} : {A : Type ℓ} {B : Type κ} → Result A → (A → Result B) → Result B
parsed a >>= f = f a
fatal >>= f = fatal

abbrev pub is_parsed {ℓ} : {A : Type ℓ} → Result A → Bool
is_parsed (parsed a) = true
is_parsed fatal = false

abbrev pub check : Bool → Result (Unit {0})
check true = parsed tt
check false = fatal

-- CRIS_CONF_JSON_ENTRY: a field that has to be there.
abbrev pub required {ℓ} : {A : Type ℓ} → Got A → Result A
required (success a) = parsed a
required no_such_field = fatal
required failure = fatal

-- A field that may be missing, but not of another type.
abbrev pub optional {ℓ} : {A : Type ℓ} → Got A → Result (Option A)
optional (success a) = parsed (some a)
optional no_such_field = parsed none
optional failure = fatal

-- A field whose errors are all ignored.
abbrev pub lenient {ℓ} : {A : Type ℓ} → Got A → A → A
lenient (success a) d = a
lenient no_such_field d = d
lenient failure d = d
