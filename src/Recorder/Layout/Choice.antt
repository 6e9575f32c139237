-- ===== src/Recorder/Layout/Choice.antt =====
-- Which file GetRecordItr of src/msg_recorder/replayer.cc opens among those of a channel.
use cris_core.Prelude.{
  ℕ, ◌≡◌, refl, sym, subst, ◌⊎◌, inl, inr, Bool, true, false, ◌&&◌, Option, none, some, List, [],
  ◌∷◌, if◌then◌else◌, Bool-cases, arith,
}
use cris_core.Recorder.Key.{compare_bytes}
use cris_core.Recorder.Layout.{
  Entry, is_less, insert_name, sort_names, ends_with, matches, matching, list_subdirs_with_suffix,
  channel_dir, leveldb_dir_suffix, first_of, get_record_itr,
}

not_less_self : (a : List ℕ) → is_less a a ≡ false
unfolding compare_bytes
not_less_self [] = refl
not_less_self (c ∷ s) = ground (arith, not_less_self s)

not_less_trans : (a b c : List ℕ) → is_less b a ≡ false → is_less c b ≡ false → is_less c a ≡ false
unfolding compare_bytes
not_less_trans [] b [] h k = refl
not_less_trans [] b (z ∷ zs) h k = refl
not_less_trans (x ∷ xs) [] c h k = cc
not_less_trans (x ∷ xs) (y ∷ ys) [] h k = cc
not_less_trans (x ∷ xs) (y ∷ ys) (z ∷ zs) h k = ground (arith, not_less_trans xs ys zs)

not_less_flip : (a b : List ℕ) → is_less a b ≡ true → is_less b a ≡ false
unfolding compare_bytes
not_less_flip [] [] h = refl
not_less_flip [] (y ∷ ys) h = refl
not_less_flip (x ∷ xs) [] h = cc
not_less_flip (x ∷ xs) (y ∷ ys) h = ground (arith, not_less_flip xs ys)

abbrev pub All {ℓ} : {A : Type ℓ} → (A → Type 0) → List A → Type 0
All P [] = Unit
All P (x ∷ xs) = P x × All P xs

abbrev pub Any {ℓ} : {A : Type ℓ} → (A → Type 0) → List A → Type 0
Any P [] = ⊥
Any P (x ∷ xs) = P x ⊎ Any P xs

abbrev IsLeast : Option (List ℕ) → List (List ℕ) → Type 0
IsLeast none ns = ns ≡ []
IsLeast (some n) ns = Any (λ m. m ≡ n) ns × All (λ m. is_less m n ≡ false) ns

least_of : List ℕ → Option (List ℕ) → List ℕ
least_of a none = a
least_of a (some n) = if is_less n a then n else a

insert_first :
    (a : List ℕ) (ns : List (List ℕ))
    → first_of (insert_name a ns) ≡ some (least_of a (first_of ns))
unfolding insert_name least_of
insert_first a [] = refl
insert_first a (n ∷ ns) = ground arith

above_both :
    (a b : List ℕ) (ns : List (List ℕ))
    → is_less b a ≡ false
    → All (λ m. is_less m b ≡ false) ns
    → All (λ m. is_less m a ≡ false) ns
above_both a b [] h k = tt
above_both a b (n ∷ ns) h k = (not_less_trans a b n h k.0, above_both a b ns h k.1)

least_of-IsLeast :
    (a : List ℕ) (ns : List (List ℕ)) (o : Option (List ℕ))
    → IsLeast o ns
    → IsLeast (some (least_of a o)) (a ∷ ns)
unfolding least_of
least_of-IsLeast a ns none h =
    subst (λ (l : List (List ℕ)). IsLeast (some a) (a ∷ l)) (sym h)
      (inl refl, (not_less_self a, tt))
least_of-IsLeast a ns (some n) h = elim (Bool-cases (is_less n a)) [
  | inl t ↦
      subst (λ (b : Bool). IsLeast (some (if b then n else a)) (a ∷ ns)) (sym t)
        (inr h.0, (not_less_flip n a t, h.1))
  | inr e ↦
      subst (λ (b : Bool). IsLeast (some (if b then n else a)) (a ∷ ns)) (sym e)
        (inl refl, (not_less_self a, above_both a n ns e h.1))
]

sort_names-IsLeast : (ns : List (List ℕ)) → IsLeast (first_of (sort_names ns)) ns
unfolding sort_names
sort_names-IsLeast [] = refl
sort_names-IsLeast (n ∷ ns) =
    subst (λ (o : Option (List ℕ)). IsLeast o (n ∷ ns)) (sym (insert_first n (sort_names ns)))
      (least_of-IsLeast n ns (first_of (sort_names ns)) (sort_names-IsLeast ns))

-- A directory with the suffix of a database.
abbrev pub is_candidate : Entry → Bool
is_candidate entry = entry.is_directory && ends_with entry.name leveldb_dir_suffix

-- What a choice among the entries of a directory is: none where no entry is a directory with the
-- suffix, or else such an entry before which no other such entry lies.
abbrev pub IsChoice : List Entry → Option (List ℕ) → Type 0
IsChoice entries none = All (λ entry. is_candidate entry ≡ false) entries
IsChoice entries (some name) =
    Any (λ entry. (entry.name ≡ name) × (is_candidate entry ≡ true)) entries
    × All (λ entry. (is_candidate entry && is_less entry.name name) ≡ false) entries

none_if :
    (b : Bool) (n : List ℕ) (ns : List (List ℕ))
    → (if b then n ∷ ns else ns) ≡ []
    → (b ≡ false) × (ns ≡ [])
none_if true n ns h = cc
none_if false n ns h = (refl, h)

chosen_if :
    (b : Bool) (n name : List ℕ) (ns : List (List ℕ))
    → Any (λ m. m ≡ name) (if b then n ∷ ns else ns)
    → ((n ≡ name) × (b ≡ true)) ⊎ Any (λ m. m ≡ name) ns
chosen_if true n name ns (inl e) = inl (e, refl)
chosen_if true n name ns (inr h) = inr h
chosen_if false n name ns h = inr h

first_if :
    (b : Bool) (n name : List ℕ) (ns : List (List ℕ))
    → All (λ m. is_less m name ≡ false) (if b then n ∷ ns else ns)
    → ((b && is_less n name) ≡ false) × All (λ m. is_less m name ≡ false) ns
first_if true n name ns h = h
first_if false n name ns h = (refl, h)

module _ (suffix : List ℕ) where
  none_chosen :
      (entries : List Entry)
      → matching entries suffix ≡ []
      → All (λ entry. matches suffix entry ≡ false) entries
  unfolding matching
  none_chosen [] h = tt
  none_chosen (entry ∷ entries) h =
      let parts = none_if (matches suffix entry) entry.name (matching entries suffix) h in
      (parts.0, none_chosen entries parts.1)

  chosen_there :
      (entries : List Entry) (name : List ℕ)
      → Any (λ m. m ≡ name) (matching entries suffix)
      → Any (λ entry. (entry.name ≡ name) × (matches suffix entry ≡ true)) entries
  unfolding matching
  chosen_there [] name h = h
  chosen_there (entry ∷ entries) name h =
      elim (chosen_if (matches suffix entry) entry.name name (matching entries suffix) h) [
        | inl here ↦ inl here
        | inr later ↦ inr (chosen_there entries name later)
      ]

  chosen_first :
      (entries : List Entry) (name : List ℕ)
      → All (λ m. is_less m name ≡ false) (matching entries suffix)
      → All (λ entry. (matches suffix entry && is_less entry.name name) ≡ false) entries
  unfolding matching
  chosen_first [] name h = tt
  chosen_first (entry ∷ entries) name h =
      let parts = first_if (matches suffix entry) entry.name name (matching entries suffix) h in
      (parts.0, chosen_first entries name parts.1)

least-IsChoice :
    (entries : List Entry) (o : Option (List ℕ))
    → IsLeast o (matching entries leveldb_dir_suffix)
    → IsChoice entries o
least-IsChoice entries none h = none_chosen leveldb_dir_suffix entries h
least-IsChoice entries (some name) h = (
  chosen_there leveldb_dir_suffix entries name h.0,
  chosen_first leveldb_dir_suffix entries name h.1,
)

-- GetRecordItr throws where the directory of the channel has no directory with the suffix of a
-- database, and opens else one with it whose name is before that of no other such, in the order of
-- bytes.
pub get_record_itr-IsChoice :
    (dirs : List ℕ × List ℕ → Option (List Entry)) (message_type subid : List ℕ)
    (entries : List Entry)
    → dirs (channel_dir message_type subid) ≡ some entries
    → IsChoice entries (get_record_itr dirs message_type subid)
unfolding get_record_itr list_subdirs_with_suffix
get_record_itr-IsChoice dirs message_type subid entries h =
    subst
      (λ (o : Option (List Entry)).
        IsChoice entries (first_of (list_subdirs_with_suffix o leveldb_dir_suffix)))
      (sym h)
      (least-IsChoice entries (first_of (sort_names (matching entries leveldb_dir_suffix)))
        (sort_names-IsLeast (matching entries leveldb_dir_suffix)))
