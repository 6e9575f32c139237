-- ===== src/Utils/Tests.antt =====
-- Examples of the helpers of src/utils.
use cris_core.Prelude.{
  ℕ, List, ltb, arith, Bool-cases, inl, inr, ◌≡◌, ◌≢◌, refl, none, some, [], ◌∷◌, if◌then◌else◌,
}
use mathlib.Core.List.{Perm}
use mathlib.Core.List.Perm
use cris_core.Utils.Timeline.{
  returns, undefined_behaviour, start, enter_again, leave, pause, stop, starts, stops, call, run,
  fresh,
}
use cris_core.Utils.Timeline.Balance.{IsBalanced, run-answers}
use cris_core.Utils.Mapping.{inverse_mapping, inverse_loop, emplace, has_key}
use cris_core.Utils.Mapping.Injection.{has_duplicate, swapped, inverse_mapping_lem}

-- A session that is entered twice is ready after its second exit, and two that interleave are not
-- supported.
calls_seen :
    ((run fresh (starts 3 ∷ starts 3 ∷ stops ∷ [])).sess_ready ≡ [])
    × ((run fresh (starts 3 ∷ starts 3 ∷ stops ∷ stops ∷ [])).sess_ready ≡ 3 ∷ [])
    × ((start (run fresh (starts 3 ∷ starts 4 ∷ [])) 3).1 ≡ returns none)
unfolding run call start enter_again leave pause stop fresh
calls_seen = (refl, refl, refl)

run-answers_example :
    IsBalanced (run fresh (starts 3 ∷ starts 4 ∷ []))
    × ((sess : ℕ) → (start (run fresh (starts 3 ∷ starts 4 ∷ [])) sess).1 ≢ undefined_behaviour)
    × ((pause (run fresh (starts 3 ∷ starts 4 ∷ []))).1
        ≡ (elim (run fresh (starts 3 ∷ starts 4 ∷ [])).sess_stack [
          | [] ↦ undefined_behaviour
          | top ∷ below ↦ returns (some top)
        ]))
    × ((stop (run fresh (starts 3 ∷ starts 4 ∷ []))).1
        ≡ (elim (run fresh (starts 3 ∷ starts 4 ∷ [])).sess_stack [
          | [] ↦ undefined_behaviour
          | top ∷ below ↦ returns (some top)
        ]))
run-answers_example = run-answers (starts 3 ∷ starts 4 ∷ []) (omega arith)

-- std::map, with its entries in the order of their keys.
abbrev by_key : List (ℕ × ℕ) → ℕ × ℕ → List (ℕ × ℕ)
by_key [] (k, v) = (k, v) ∷ []
by_key ((l, w) ∷ rest) (k, v) =
    if ltb l k then (l, w) ∷ by_key rest (k, v) else (k, v) ∷ (l, w) ∷ rest

by_key-perm : (l : List (ℕ × ℕ)) (e : ℕ × ℕ) → Perm (by_key l e) (e ∷ l)
by_key-perm [] (k, v) = Perm.refl ((k, v) ∷ [])
by_key-perm ((l, w) ∷ rest) (k, v) = elim (Bool-cases (ltb l k)) [
  | inl e ↦
      rw e (Perm.trans (Perm.cons (l, w) (by_key-perm rest (k, v))) (Perm.swap (k, v) (l, w) rest))
  | inr e ↦ rw e (Perm.refl ((k, v) ∷ (l, w) ∷ rest))
]

mapping_seen :
    (inverse_mapping by_key ((1, 20) ∷ (2, 10) ∷ []) ≡ some ((10, 2) ∷ (20, 1) ∷ []))
    × (inverse_mapping by_key ((1, 10) ∷ (2, 10) ∷ []) ≡ none)
unfolding inverse_mapping inverse_loop emplace has_key
mapping_seen = (refl, refl)

inverse_mapping_lem_example :
    if has_duplicate ((1, 20) ∷ (2, 10) ∷ [])
    then inverse_mapping by_key ((1, 20) ∷ (2, 10) ∷ []) ≡ none
    else (m : List (ℕ × ℕ)) × (inverse_mapping by_key ((1, 20) ∷ (2, 10) ∷ []) ≡ some m)
      × Perm m (swapped ((1, 20) ∷ (2, 10) ∷ []))
inverse_mapping_lem_example = inverse_mapping_lem by_key by_key-perm ((1, 20) ∷ (2, 10) ∷ [])
