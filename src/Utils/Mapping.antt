-- ===== src/Utils/Mapping.antt =====
-- InverseMapping of src/utils/mapping.h. A map is the list of its entries in the order of its iteration,
-- of which no two have the same key; std::logic_error is `none`. The kind of map is a parameter of the
-- template: `add` puts a new entry where that kind has it.
pub mod Injection
use cris_core.Prelude.{
  ℕ, ◌≡◌, Bool, true, false, ◌||◌, Option, none, some, List, [], ◌∷◌, ◌++◌, ◌==◌, if◌then◌else◌,
}

unfoldable pub has_key : List (ℕ × ℕ) → ℕ → Bool
has_key [] key = false
has_key ((k, v) ∷ rest) key = k == key || has_key rest key

-- emplace: the map afterwards, and whether the entry is new.
module _ (add : List (ℕ × ℕ) → ℕ × ℕ → List (ℕ × ℕ)) where
  -- emplace: the map afterwards, and whether the entry is new.
  unfoldable pub emplace : List (ℕ × ℕ) → ℕ → ℕ → List (ℕ × ℕ) × Bool
  emplace entries key value =
      if has_key entries key then (entries, false) else (add entries (key, value), true)

  -- The loop over the entries that are left, with the map that is made.
  unfoldable pub inverse_loop : List (ℕ × ℕ) → List (ℕ × ℕ) → Option (List (ℕ × ℕ))
  inverse_loop [] inversed_map = some inversed_map
  inverse_loop ((k, v) ∷ rest) inversed_map =
      let later = inverse_loop rest (emplace inversed_map v k).0 in
      if (emplace inversed_map v k).1 then later else none

  unfoldable pub inverse_mapping : List (ℕ × ℕ) → Option (List (ℕ × ℕ))
  inverse_mapping original_map = inverse_loop original_map []
