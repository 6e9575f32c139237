-- ===== src/Config/Document.antt =====
-- The constructor of ConfigFile in src/config/config.cc with InitConfigJsonContext: where the JSON
-- document of a file comes from. Reading a file and parsing it are simdjson's, and parameters.
use Prim.Native.String.{String}
use text.Mathlib.Text.{◌==◌}
use cris_core.Prelude.{
  ℕ, ◌≡◌, refl, ap, sym, subst, ◌∙◌, Bool, false, Option, none, some, List, if◌then◌else◌,
}
use cris_core.Config.{gives, get, get_all}
use cris_core.Config.History.{missing_get_default}

module _ {Buffer Json : Type 0} (load : String → Option Buffer)
    (iterate : Buffer → Option (ℕ → Option Json)) (empty_object : Buffer) where
  abbrev pub loaded : Option Buffer → Buffer
  loaded none = empty_object
  loaded (some buf) = buf

  -- The buffer "{}" stands for a path that is empty and for a file that cannot be read.
  abbrev pub buffer_of : String → Buffer
  buffer_of filepath = if filepath == "" then empty_object else loaded (load filepath)

  -- Every access of a document that was not made is an error.
  abbrev pub fields_of : Option (ℕ → Option Json) → ℕ → Option Json
  fields_of none name = none
  fields_of (some doc) name = doc name

  unfoldable pub init_config_json_context : String → ℕ → Option Json
  init_config_json_context filepath = fields_of (iterate (buffer_of filepath))

  -- A path that is empty, that cannot be read, or that is no JSON document.
  data IsUnusable (filepath : String) : Type 0 where
    empty_path : filepath ≡ "" → IsUnusable filepath
    not_read : (filepath == "") ≡ false → load filepath ≡ none → IsUnusable filepath
    not_json :
        {buf : Buffer}
        → (filepath == "") ≡ false
        → load filepath ≡ some buf
        → iterate buf ≡ none
        → IsUnusable filepath

  empty_fields :
      (filepath : String)
      → iterate empty_object ≡ some (λ name. none)
      → buffer_of filepath ≡ empty_object
      → (name : ℕ) → init_config_json_context filepath name ≡ none
  unfolding init_config_json_context
  empty_fields filepath law e name =
      ap (λ (buf : Buffer). fields_of (iterate buf) name) e
      ∙ ap (λ (doc : Option (ℕ → Option Json)). fields_of doc name) law

  no_fields :
      (filepath : String)
      → iterate empty_object ≡ some (λ name. none)
      → IsUnusable filepath
      → (name : ℕ) → init_config_json_context filepath name ≡ none
  unfolding init_config_json_context
  no_fields filepath law (empty_path e) =
      empty_fields filepath law (subst (λ (p : String). buffer_of p ≡ empty_object) (sym e) refl)
  no_fields filepath law (not_read p e) =
      empty_fields filepath law
        (ap (λ (b : Bool). if b then empty_object else loaded (load filepath)) p ∙ ap loaded e)
  no_fields filepath law (not_json p l e) = λ name.
      ap
        (λ (b : Bool).
          fields_of (iterate (if b then empty_object else loaded (load filepath))) name)
        p
      ∙ ap (λ (o : Option Buffer). fields_of (iterate (loaded o)) name) l
      ∙ ap (λ (doc : Option (ℕ → Option Json)). fields_of doc name) e

  -- Without a usable file no Get ends the program: where the empty object has no fields, every Get on
  -- an empty path, a file that cannot be read or one that is no JSON document gives its own default,
  -- whatever was got before.
  unusable_get_default :
      {Data : Type 0} (parse : ℕ → Json → Option Data) (filepath : String)
      (calls : List (ℕ × ℕ × Data)) (name type : ℕ) (default_value : Data)
      → iterate empty_object ≡ some (λ name. none)
      → IsUnusable filepath
      → (get
          (init_config_json_context filepath)
          parse
          (get_all (init_config_json_context filepath) parse (λ n. none) calls)
          name
          type
          default_value).1
        ≡ gives default_value
  unusable_get_default parse filepath calls name type default_value law u =
      missing_get_default (init_config_json_context filepath) parse calls name type default_value
        (no_fields filepath law u name)
