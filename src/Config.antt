-- ===== src/Config.antt =====
-- ConfigFile of src/config/config.h and config.cc: RegisterOrGet and Get. The file is a function from
-- names to JSON values, a C++ type is a number, and parsing a value at a type is a parameter (simdjson
-- and the parsers of the types), `none` where it ends the program. A Config that the file does not
-- have is made anew by each Get.
pub mod History
pub mod Json
pub mod Scalar
pub mod Printing
pub mod Document
mod Tests
use cris_core.Prelude.{
  ℕ, ◌≡◌, Bool, true, false, Option, none, some, List, [], ◌∷◌, ◌==◌, if◌then◌else◌,
}

-- A Config<type>: `content` is there once it is initialized.
pub record Config {ℓ} (Data : Type ℓ) : Type ℓ where
  pub data_type : ℕ
  pub content : Option Data

abbrev pub ConfigMap {ℓ} : Type ℓ → Type ℓ
ConfigMap Data = ℕ → Option (Config Data)

-- The data that Get ends with, or the end of the program by LOG(FATAL) or by a failed parse.
pub data Answer {ℓ} (Data : Type ℓ) : Type ℓ where
  gives : Data → Answer Data
  fatal : Answer Data

abbrev pub put {ℓ} : {A : Type ℓ} → (ℕ → Option A) → ℕ → A → ℕ → Option A
put m name a n = if n == name then some a else m n

-- InitValue and emplace, for a name that the file has.
abbrev pub init_value {ℓ} :
    {Data : Type ℓ} → ConfigMap Data → ℕ → ℕ → Option Data → ConfigMap Data × Option (Config Data)
init_value m name type none = (m, none)
init_value m name type (some d) = (
  put m name (record { data_type = type; content = some d }),
  some (record { data_type = type; content = some d }),
)

abbrev pub read_data {ℓ} : {Data : Type ℓ} → Option Data → Data → Answer Data
read_data none default_value = gives default_value
read_data (some d) default_value = gives d

-- dynamic_pointer_cast and the default value.
abbrev pub cast {ℓ} : {Data : Type ℓ} → ℕ → Data → Option (Config Data) → Answer Data
cast type default_value none = fatal
cast type default_value (some config) =
    if config.data_type == type then read_data config.content default_value else fatal

module _ {Json Data : Type 0} (file : ℕ → Option Json) (parse : ℕ → Json → Option Data) where
  abbrev pub register_new :
      ConfigMap Data → ℕ → ℕ → Option Json → ConfigMap Data × Option (Config Data)
  register_new m name type none = (m, some (record { data_type = type; content = none }))
  register_new m name type (some val) = init_value m name type (parse type val)

  abbrev pub search :
      ConfigMap Data → ℕ → ℕ → Option (Config Data) → ConfigMap Data × Option (Config Data)
  search m name type none = register_new m name type (file name)
  search m name type (some config) = (m, some config)

  -- RegisterOrGet(name, new Config<type>(name)); `none` where the program ends.
  unfoldable pub register_or_get : ConfigMap Data → ℕ → ℕ → ConfigMap Data × Option (Config Data)
  register_or_get m name type = search m name type (m name)

  unfoldable pub get : ConfigMap Data → ℕ → ℕ → Data → ConfigMap Data × Answer Data
  get m name type default_value =
      ((register_or_get m name type).0, cast type default_value (register_or_get m name type).1)

  -- A run of calls Get<type>(name, default), none of which ended the program.
  unfoldable pub get_all : ConfigMap Data → List (ℕ × ℕ × Data) → ConfigMap Data
  get_all m [] = m
  get_all m ((name, type, default_value) ∷ calls) = get_all (get m name type default_value).0 calls
