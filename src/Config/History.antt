-- ===== src/Config/History.antt =====
-- What Get of src/config/config.h gives after any earlier calls.
use cris_core.Prelude.{
  ℕ, ◌≡◌, refl, ap, ◌∙◌, Bool, true, false, ◌||◌, Option, none, some, List, [], ◌∷◌, ◌++◌, ◌==◌,
  if◌then◌else◌, ==_refl, ==→eq, arith,
}
use cris_core.Config.{Config, ConfigMap, gives, fatal, register_or_get, cast, get, get_all}

-- Whether some call asks for a name.
unfoldable pub asks {ℓ} : {Data : Type ℓ} → List (ℕ × ℕ × Data) → ℕ → Bool
asks [] name = false
asks ((other, type, default_value) ∷ calls) name = name == other || asks calls name

or_false_parts : (a b : Bool) → (a || b) ≡ false → (a ≡ false) × (b ≡ false)
or_false_parts true b e = ground arith
or_false_parts false b e = (refl, e)

module _ {Json Data : Type 0} (file : ℕ → Option Json) (parse : ℕ → Json → Option Data) where
  get_here :
      (m : ConfigMap Data) (name type : ℕ) (default_value d : Data) (val : Json)
      → m name ≡ none
      → file name ≡ some val
      → parse type val ≡ some d
      → (get file parse m name type default_value).0 name
        ≡ some (record { data_type = type; content = some d })
  unfolding get register_or_get
  get_here m name type default_value d val e f g = rw (e, f, g, ==_refl name) refl

  get_kept :
      (m : ConfigMap Data) (name other type : ℕ) (default_value : Data) (c : Config Data)
      → m name ≡ some c
      → (get file parse m other type default_value).0 name ≡ some c
  unfolding get register_or_get
  get_kept m name other type default_value c e = ground (arith, ==→eq name other)

  get_elsewhere :
      (m : ConfigMap Data) (name other type : ℕ) (default_value : Data)
      → (name == other) ≡ false
      → (get file parse m other type default_value).0 name ≡ m name
  unfolding get register_or_get
  get_elsewhere m name other type default_value e = ground arith

  get_missing :
      (m : ConfigMap Data) (name other type : ℕ) (default_value : Data)
      → file name ≡ none
      → (get file parse m other type default_value).0 name ≡ m name
  unfolding get register_or_get
  get_missing m name other type default_value e = ground (arith, ==→eq name other)

  get_all-kept :
      (m : ConfigMap Data) (calls : List (ℕ × ℕ × Data)) (name : ℕ) (c : Config Data)
      → m name ≡ some c
      → get_all file parse m calls name ≡ some c
  unfolding get_all
  get_all-kept m [] name c e = e
  get_all-kept m ((other, type, default_value) ∷ calls) name c e =
      get_all-kept (get file parse m other type default_value).0 calls name c
        (get_kept m name other type default_value c e)

  get_all-missing :
      (m : ConfigMap Data) (calls : List (ℕ × ℕ × Data)) (name : ℕ)
      → file name ≡ none
      → get_all file parse m calls name ≡ m name
  unfolding get_all
  get_all-missing m [] name e = refl
  get_all-missing m ((other, type, default_value) ∷ calls) name e =
      get_all-missing (get file parse m other type default_value).0 calls name e
      ∙ get_missing m name other type default_value e

  get_all-elsewhere :
      (m : ConfigMap Data) (calls : List (ℕ × ℕ × Data)) (name : ℕ)
      → asks calls name ≡ false
      → get_all file parse m calls name ≡ m name
  unfolding get_all asks
  get_all-elsewhere m [] name e = refl
  get_all-elsewhere m ((other, type, default_value) ∷ calls) name e =
      let parts = or_false_parts (name == other) (asks calls name) e in
      get_all-elsewhere (get file parse m other type default_value).0 calls name parts.1
      ∙ get_elsewhere m name other type default_value parts.0

  get_all-append :
      (m : ConfigMap Data) (xs ys : List (ℕ × ℕ × Data))
      → get_all file parse m (xs ++ ys) ≡ get_all file parse (get_all file parse m xs) ys
  unfolding get_all
  get_all-append m [] ys = refl
  get_all-append m ((other, type, default_value) ∷ xs) ys =
      get_all-append (get file parse m other type default_value).0 xs ys

  get_all_step :
      (m : ConfigMap Data) (name type : ℕ) (default_value : Data) (after : List (ℕ × ℕ × Data))
      → get_all file parse m ((name, type, default_value) ∷ after) name
        ≡ get_all file parse (get file parse m name type default_value).0 after name
  unfolding get_all
  get_all_step m name type default_value after = refl

  get_found :
      (m : ConfigMap Data) (name type : ℕ) (default_value : Data) (c : Config Data)
      → m name ≡ some c
      → (get file parse m name type default_value).1 ≡ cast type default_value (some c)
  unfolding get register_or_get
  get_found m name type default_value c e = rw e refl

  get_default :
      (m : ConfigMap Data) (name type : ℕ) (default_value : Data)
      → m name ≡ none
      → file name ≡ none
      → (get file parse m name type default_value).1 ≡ gives default_value
  unfolding get register_or_get
  get_default m name type default_value e f = rw (e, f, ==_refl type) refl

  abbrev nothing : ConfigMap Data
  nothing n = none

  -- For a name that the file has, the first Get decides: once it has read the value at its type, every
  -- later Get at that type gives that value, whatever its default and whatever was got between, and a Get
  -- at another type ends the program.
  pub first_get_decides :
      (before after : List (ℕ × ℕ × Data)) (name type : ℕ) (default_value d : Data) (val : Json)
      → asks before name ≡ false
      → file name ≡ some val
      → parse type val ≡ some d
      → (later : ℕ) (another : Data)
      → (get file parse
          (get_all file parse (λ n. none) (before ++ (name, type, default_value) ∷ after))
          name
          later
          another).1
        ≡ (if type == later then gives d else fatal)
  first_get_decides before after name type default_value d val a f g later another =
      let m = get_all file parse nothing before in
      let here : (get file parse m name type default_value).0 name
          ≡ some (record { data_type = type; content = some d }) =
        get_here m name type default_value d val (get_all-elsewhere nothing before name a) f g in
      let whole =
        ap (λ (k : ConfigMap Data). k name)
          (get_all-append nothing before ((name, type, default_value) ∷ after))
        ∙ get_all_step m name type default_value after
        ∙ get_all-kept (get file parse m name type default_value).0 after name
            (record { data_type = type; content = some d }) here in
      get_found (get_all file parse nothing (before ++ (name, type, default_value) ∷ after)) name
        later another (record { data_type = type; content = some d }) whole

  -- For a name that the file does not have, every Get gives its own default, at any type.
  pub missing_get_default :
      (calls : List (ℕ × ℕ × Data)) (name type : ℕ) (default_value : Data)
      → file name ≡ none
      → (get file parse (get_all file parse (λ n. none) calls) name type default_value).1
        ≡ gives default_value
  missing_get_default calls name type default_value e =
      get_default (get_all file parse nothing calls) name type default_value
        (get_all-missing nothing calls name e) e
