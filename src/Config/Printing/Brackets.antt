-- ===== src/Config/Printing/Brackets.antt =====
-- The brackets in the text that ConfigDataGetStringRep of src/config/config.h gives.
use cris_core.Prelude.{ℕ, ◌+◌, ◌≡◌, refl, List, [], ◌∷◌, ◌++◌, ◌==◌, if◌then◌else◌, arith}
use cris_core.Config.Printing.{
  Value, Items, quoted, shown, pair, container, nil, cons, string_rep, accumulate,
}

unfoldable pub count : ℕ → List ℕ → ℕ
count c [] = 0
count c (d ∷ s) = (if d == c then 1 else 0) + count c s

mutual
  -- How many containers in a value have no item.
  pub empty_containers : Value → ℕ
  empty_containers (quoted s) = 0
  empty_containers (shown s) = 0
  empty_containers (pair first second) = empty_containers first + empty_containers second
  empty_containers (container nil) = 1
  empty_containers (container (cons item items)) = empty_containers item + in_items items

  pub in_items : Items → ℕ
  in_items nil = 0
  in_items (cons item items) = empty_containers item + in_items items

-- The texts in a value have no brackets.
unfoldable mutual
  pub IsPlain : Value → Type 0
  IsPlain (quoted s) = (count b'[' s ≡ 0) × (count b']' s ≡ 0)
  IsPlain (shown s) = (count b'[' s ≡ 0) × (count b']' s ≡ 0)
  IsPlain (pair first second) = IsPlain first × IsPlain second
  IsPlain (container items) = ArePlain items

  pub ArePlain : Items → Type 0
  ArePlain nil = Unit
  ArePlain (cons item items) = IsPlain item × ArePlain items

count-append : (c : ℕ) (s t : List ℕ) → count c (s ++ t) ≡ count c s + count c t
unfolding count
count-append c [] t = omega arith
count-append c (d ∷ s) t = omega (arith, count-append c s t)

-- Both counts in a text that is put together.
both :
    (s t : List ℕ)
    → (count b'[' (s ++ t) ≡ count b'[' s + count b'[' t)
      × (count b']' (s ++ t) ≡ count b']' s + count b']' t)
both s t = (count-append b'[' s t, count-append b']' s t)

mutual
  unfolding string_rep accumulate count empty_containers in_items IsPlain ArePlain

  string_rep_brackets :
      (v : Value)
      → IsPlain v
      → count b']' (string_rep v) ≡ count b'[' (string_rep v) + empty_containers v
  string_rep_brackets (quoted s) p = omega (arith, p.0, p.1, both s (b'"' ∷ []))
  string_rep_brackets (shown s) p = omega (arith, p.0, p.1)
  string_rep_brackets (pair v w) p = omega (
    arith,
    string_rep_brackets v p.0,
    string_rep_brackets w p.1,
    both (string_rep v ++ b',' ∷ b' ' ∷ string_rep w) (b']' ∷ []),
    both (string_rep v) (b',' ∷ b' ' ∷ string_rep w),
  )
  string_rep_brackets (container nil) p = refl
  string_rep_brackets (container (cons v items)) p = omega (
    arith,
    string_rep_brackets v p.0,
    accumulate_brackets b'[' (string_rep v) items p.1,
    both (accumulate (b'[' ∷ string_rep v) items) (b']' ∷ []),
  )

  accumulate_brackets :
      (c : ℕ) (result : List ℕ) (items : Items)
      → ArePlain items
      → count b']' (accumulate (c ∷ result) items) + count b'[' (c ∷ result)
        ≡ count b'[' (accumulate (c ∷ result) items) + count b']' (c ∷ result) + in_items items
  accumulate_brackets c result nil p = omega arith
  accumulate_brackets c result (cons v items) p = omega (
    arith,
    string_rep_brackets v p.0,
    both (result ++ b',' ∷ []) (string_rep v),
    both result (b',' ∷ []),
    accumulate_brackets c ((result ++ b',' ∷ []) ++ string_rep v) items p.1,
  )

-- The text of a value, whose texts have no square brackets, has one closing bracket more than opening
-- ones for each container in it that is empty, and else as many: an empty container is only closed.
pub string_rep-empty_containers :
    (v : Value)
    → IsPlain v
    → count b']' (string_rep v) ≡ count b'[' (string_rep v) + empty_containers v
string_rep-empty_containers v p = string_rep_brackets v p
