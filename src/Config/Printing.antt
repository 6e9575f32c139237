-- ===== src/Config/Printing.antt =====
-- ConfigDataGetStringRep of src/config/config.h: the text of a value in the log. A text is its
-- bytes. What to_string, Str or GetTypeName give for the types that are read by those is `shown`.
pub mod Brackets
use cris_core.Prelude.{ℕ, Bool, true, false, List, [], ◌∷◌, ◌++◌, if◌then◌else◌}

mutual
  pub data Value : Type 0 where
    quoted : List ℕ → Value
    shown : List ℕ → Value
    pair : Value → Value → Value
    container : Items → Value

  pub data Items : Type 0 where
    nil : Items
    cons : Value → Items → Items

abbrev pub is_empty : List ℕ → Bool
is_empty [] = true
is_empty (c ∷ s) = false

-- The separator that the lambda puts before an item.
abbrev pub separator : List ℕ → List ℕ
separator result = if is_empty result then b'[' ∷ [] else b',' ∷ []

unfoldable mutual
  pub string_rep : Value → List ℕ
  string_rep (quoted s) = b'"' ∷ s ++ b'"' ∷ []
  string_rep (shown s) = s
  string_rep (pair first second) =
      b'[' ∷ string_rep first ++ b',' ∷ b' ' ∷ string_rep second ++ b']' ∷ []
  string_rep (container items) = accumulate [] items ++ b']' ∷ []

  -- std::accumulate over the items.
  pub accumulate : List ℕ → Items → List ℕ
  accumulate result nil = result
  accumulate result (cons item items) =
      accumulate ((result ++ separator result) ++ string_rep item) items
