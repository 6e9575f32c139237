-- ===== src/Recorder/Key/Unique.antt =====
-- The keys that RecordFileKey::Make of src/msg_recorder/record_key.cc makes.
use cris_core.Prelude.{
  ℕ, suc, ◌+◌, ◌%◌, ◌≤◌, ◌<◌, ◌≡◌, ◌≢◌, subst, List, [], ◌∷◌, length, ◌==◌, if◌then◌else◌, pos_part,
  arith,
}
use cris_core.Recorder.Key.{RecordFileKey, make}

-- Make, called at one time after the other by whatever threads; a counter is atomic, so that the
-- calls have an order.
unfoldable pub made : (ℕ → ℕ) → List ℕ → List RecordFileKey
made counters [] = []
made counters (now ∷ later) = (make counters now).0 ∷ made (make counters now).1 later

IsAbove : (ℕ → ℕ) → List RecordFileKey → Type 0
IsAbove counters [] = Unit
IsAbove counters (key ∷ keys) =
    (counters (pos_part key.timestamp_ns % 16) ≤ key.count) × IsAbove counters keys

unfoldable pub Avoids : RecordFileKey → List RecordFileKey → Type 0
Avoids key [] = Unit
Avoids key (k ∷ keys) = (k ≢ key) × Avoids key keys

unfoldable pub AreDifferent : List RecordFileKey → Type 0
AreDifferent [] = Unit
AreDifferent (key ∷ keys) = Avoids key keys × AreDifferent keys

-- No counter wraps within that many calls.
abbrev pub HasRoom : (ℕ → ℕ) → ℕ → Type 0
HasRoom counters calls = (i : ℕ) → counters i + calls < 18446744073709551616

make-counters :
    (counters : ℕ → ℕ) (now i calls : ℕ)
    → HasRoom counters (suc calls)
    → (make counters now).1 i ≡ counters i + (if i == now % 16 then 1 else 0)
unfolding make
make-counters counters now i calls h = ground (arith, h i)

make-next :
    (counters : ℕ → ℕ) (now calls : ℕ)
    → HasRoom counters (suc calls)
    → (make counters now).0.count
      < (make counters now).1 (pos_part (make counters now).0.timestamp_ns % 16)
unfolding make
make-next counters now calls h = ground (arith, h (now % 16))

make-HasRoom :
    (counters : ℕ → ℕ) (now calls : ℕ)
    → HasRoom counters (suc calls)
    → HasRoom (make counters now).1 calls
make-HasRoom counters now calls h i = ground (arith, make-counters counters now i calls h, h i)

lower-IsAbove :
    (c d : ℕ → ℕ) (keys : List RecordFileKey)
    → ((i : ℕ) → c i ≤ d i)
    → IsAbove d keys
    → IsAbove c keys
unfolding IsAbove
lower-IsAbove c d [] l h = tt
lower-IsAbove c d (key ∷ keys) l h =
    (omega (arith, l (pos_part key.timestamp_ns % 16), h.0), lower-IsAbove c d keys l h.1)

made-IsAbove :
    (counters : ℕ → ℕ) (times : List ℕ)
    → HasRoom counters (length times)
    → IsAbove counters (made counters times)
unfolding made IsAbove make
made-IsAbove counters [] h = tt
made-IsAbove counters (now ∷ later) h = (
  omega arith,
  lower-IsAbove counters (make counters now).1 (made (make counters now).1 later)
      (λ i. omega (arith, make-counters counters now i (length later) h))
      (made-IsAbove (make counters now).1 later (make-HasRoom counters now (length later) h)),
)

above-Avoids :
    (counters : ℕ → ℕ) (key : RecordFileKey) (keys : List RecordFileKey)
    → key.count < counters (pos_part key.timestamp_ns % 16)
    → IsAbove counters keys
    → Avoids key keys
unfolding IsAbove Avoids
above-Avoids counters key [] l h = tt
above-Avoids counters key (k ∷ keys) l h = (
  λ e. omega (
    arith,
    subst (λ (x : RecordFileKey). counters (pos_part x.timestamp_ns % 16) ≤ x.count) e h.0,
  ),
  above-Avoids counters key keys l h.1,
)

-- However often and at whatever times Make is called, before a counter wraps it never makes the same
-- key twice.
pub made-AreDifferent :
    (counters : ℕ → ℕ) (times : List ℕ)
    → HasRoom counters (length times)
    → AreDifferent (made counters times)
unfolding made AreDifferent
made-AreDifferent counters [] h = tt
made-AreDifferent counters (now ∷ later) h =
    let room = make-HasRoom counters now (length later) h in
    (
      above-Avoids (make counters now).1 (make counters now).0 (made (make counters now).1 later)
          (make-next counters now (length later) h) (made-IsAbove (make counters now).1 later room),
      made-AreDifferent (make counters now).1 later room,
    )
