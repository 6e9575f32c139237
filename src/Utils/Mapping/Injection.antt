-- ===== src/Utils/Mapping/Injection.antt =====
-- When InverseMapping of src/utils/mapping.h gives a map, and which.
use cris_core.Prelude.{
  ℕ, ◌≡◌, refl, sym, ap, ◌∙◌, Bool, true, false, ◌||◌, none, some, List, [], ◌∷◌, ◌++◌, ◌==◌,
  if◌then◌else◌, inl, inr, Bool-cases, subst, append-nil, arith,
}
use mathlib.Core.Bool.{Bool-set}
use mathlib.Core.List.{Perm, foldr}
use mathlib.Core.List.Perm
use cris_core.Utils.Mapping.{has_key, emplace, inverse_loop, inverse_mapping}

unfoldable pub has_value : List (ℕ × ℕ) → ℕ → Bool
has_value [] value = false
has_value ((k, v) ∷ rest) value = v == value || has_value rest value

-- Two entries have the same value.
unfoldable pub has_duplicate : List (ℕ × ℕ) → Bool
has_duplicate [] = false
has_duplicate ((k, v) ∷ rest) = has_value rest v || has_duplicate rest

unfoldable pub swapped : List (ℕ × ℕ) → List (ℕ × ℕ)
swapped [] = []
swapped ((k, v) ∷ rest) = (v, k) ∷ swapped rest

Perm-middle : (a : ℕ × ℕ) (xs ys : List (ℕ × ℕ)) → Perm (xs ++ a ∷ ys) (a ∷ xs ++ ys)
Perm-middle a [] ys = Perm.refl (a ∷ ys)
Perm-middle a (x ∷ xs) ys =
    Perm.trans (Perm.cons x (Perm-middle a xs ys)) (Perm.swap a x (xs ++ ys))

-- Some value of the entries is a key of the map.
clashes : List (ℕ × ℕ) → List (ℕ × ℕ) → Bool
clashes [] made = false
clashes ((k, v) ∷ rest) made = has_key made v || clashes rest made

holds_key : ℕ → ℕ × ℕ → Bool → Bool
holds_key key (k, v) later = k == key || later

has_key-foldr : (xs : List (ℕ × ℕ)) (key : ℕ) → has_key xs key ≡ foldr (holds_key key) false xs
unfolding has_key holds_key
has_key-foldr [] key = refl
has_key-foldr ((k, v) ∷ xs) key = ap (λ (b : Bool). k == key || b) (has_key-foldr xs key)

holds_key_swap :
    (key : ℕ) (a b : ℕ × ℕ) (later : Bool)
    → holds_key key a (holds_key key b later) ≡ holds_key key b (holds_key key a later)
unfolding holds_key
holds_key_swap key (k, v) (l, w) later = ground arith

has_key-perm : {xs ys : List (ℕ × ℕ)} → Perm xs ys → (key : ℕ) → has_key xs key ≡ has_key ys key
has_key-perm {xs} {ys} p key =
    has_key-foldr xs key
    ∙ Perm.foldr-eq Bool-set (holds_key key) (holds_key_swap key) p false
    ∙ sym (has_key-foldr ys key)

no_clash : (xs : List (ℕ × ℕ)) → clashes xs [] ≡ false
unfolding clashes has_key
no_clash [] = refl
no_clash ((k, v) ∷ rest) = no_clash rest

module _ (add : List (ℕ × ℕ) → ℕ × ℕ → List (ℕ × ℕ))
    (law : (l : List (ℕ × ℕ)) (e : ℕ × ℕ) → Perm (add l e) (e ∷ l)) where
  clashes_more :
      (rest made : List (ℕ × ℕ)) (k v : ℕ)
      → clashes rest (add made (v, k)) ≡ (clashes rest made || has_value rest v)
  unfolding clashes has_value has_key
  clashes_more [] made k v = refl
  clashes_more ((a, b) ∷ rest) made k v =
      ground (arith, clashes_more rest made k v, has_key-perm (law made (v, k)) b)

  -- What the loop comes to.
  abbrev Outcome : List (ℕ × ℕ) → List (ℕ × ℕ) → Bool → Type 0
  Outcome xs made true = inverse_loop add xs made ≡ none
  Outcome xs made false =
      (m : List (ℕ × ℕ)) × (inverse_loop add xs made ≡ some m) × Perm m (swapped xs ++ made)

  loop_stops :
      (k v : ℕ) (rest made : List (ℕ × ℕ))
      → has_key made v ≡ true
      → inverse_loop add ((k, v) ∷ rest) made ≡ none
  unfolding inverse_loop emplace
  loop_stops k v rest made e = rw e refl

  loop_goes_on :
      (k v : ℕ) (rest made : List (ℕ × ℕ))
      → has_key made v ≡ false
      → inverse_loop add ((k, v) ∷ rest) made ≡ inverse_loop add rest (add made (v, k))
  unfolding inverse_loop emplace
  loop_goes_on k v rest made e = rw e refl

  later_outcome :
      (k v : ℕ) (rest made : List (ℕ × ℕ)) (b : Bool)
      → has_key made v ≡ false
      → Outcome rest (add made (v, k)) b
      → Outcome ((k, v) ∷ rest) made b
  unfolding swapped
  later_outcome k v rest made true e h = loop_goes_on k v rest made e ∙ h
  later_outcome k v rest made false e (m, same, moved) = (
    m,
    loop_goes_on k v rest made e ∙ same,
    Perm.trans moved (
        Perm.trans (Perm.append_left (swapped rest) (law made (v, k)))
          (Perm-middle (v, k) (swapped rest) made)),
  )

  clashes_more_or :
      (k v : ℕ) (rest made : List (ℕ × ℕ))
      → has_key made v ≡ false
      → (clashes rest (add made (v, k)) || has_duplicate rest)
        ≡ (clashes ((k, v) ∷ rest) made || has_duplicate ((k, v) ∷ rest))
  unfolding clashes has_duplicate
  clashes_more_or k v rest made e = ground (arith, clashes_more rest made k v)

  inverse_loop_lem :
      (xs made : List (ℕ × ℕ)) → Outcome xs made (clashes xs made || has_duplicate xs)
  unfolding inverse_loop clashes has_duplicate swapped
  inverse_loop_lem [] made = (made, refl, Perm.refl made)
  inverse_loop_lem ((k, v) ∷ rest) made = elim (Bool-cases (has_key made v)) [
    | inl e ↦ rw e (loop_stops k v rest made e)
    | inr e ↦ subst (Outcome ((k, v) ∷ rest) made) (clashes_more_or k v rest made e) (
        later_outcome k v rest made (clashes rest (add made (v, k)) || has_duplicate rest) e
          (inverse_loop_lem rest (add made (v, k))))
  ]

  -- InverseMapping throws exactly where two entries of the map have the same value, and otherwise gives
  -- a map whose entries are those of the original turned round, in the order that the kind of map
  -- has them in, where that kind puts a new entry somewhere among the ones it has.
  pub inverse_mapping_lem :
      (original_map : List (ℕ × ℕ))
      → if has_duplicate original_map
        then inverse_mapping add original_map ≡ none
        else (m : List (ℕ × ℕ)) × (inverse_mapping add original_map ≡ some m)
          × Perm m (swapped original_map)
  unfolding inverse_mapping
  inverse_mapping_lem original_map =
      let all : Outcome original_map [] (has_duplicate original_map) =
        subst (λ (b : Bool). Outcome original_map [] (b || has_duplicate original_map))
          (no_clash original_map) (inverse_loop_lem original_map []) in
      go (has_duplicate original_map) all
    where
      go :
          (b : Bool)
          → Outcome original_map [] b
          → if b
            then inverse_loop add original_map [] ≡ none
            else (m : List (ℕ × ℕ)) × (inverse_loop add original_map [] ≡ some m)
              × Perm m (swapped original_map)
      go true h = h
      go false (m, same, moved) =
          (m, same, subst (λ l. Perm m l) (append-nil (swapped original_map)) moved)
