-- ===== src/Timer/Section/Indices.antt =====
-- The sections of src/timer/timer_enable.cc have collector indices of their own.
use cris_core.Prelude.{
  ℕ, ◌+◌, ◌%◌, ◌^◌, ◌≤◌, ◌<◌, ◌≡◌, refl, none, some, List, [], ◌∷◌, ◌++◌, ◌==◌, ◌&&◌, leb, ltb,
  if◌then◌else◌, arith,
}
use cris_core.Timer.Stat.{collector_size}
use cris_core.Timer.Section.{
  Item, has_key, find, Sections, emplace, insert, Step, misses, inserts, start, Reach, here, next,
}

-- How many sections have an index, and how many a name under a parent.
pub times : ℕ → List Item → ℕ
times i [] = 0
times i (x ∷ xs) = (if x.collector_index == i then 1 else 0) + times i xs

pub keyed : ℕ → ℕ → List Item → ℕ
keyed parent name [] = 0
keyed parent name (x ∷ xs) = (if has_key parent name x then 1 else 0) + keyed parent name xs

times-append : (i : ℕ) (xs ys : List Item) → times i (xs ++ ys) ≡ times i xs + times i ys
unfolding times
times-append i [] ys = omega arith
times-append i (x ∷ xs) ys = omega (arith, times-append i xs ys)

times-split :
    (i : ℕ) (xs ys : List Item) (x : Item)
    → times i (xs ++ x ∷ ys) ≡ times i xs + times i ys + (if x.collector_index == i then 1 else 0)
unfolding times
times-split i xs ys x = omega (arith, times-append i xs (x ∷ ys))

keyed-append : (p n : ℕ) (xs ys : List Item) → keyed p n (xs ++ ys) ≡ keyed p n xs + keyed p n ys
unfolding keyed
keyed-append p n [] ys = omega arith
keyed-append p n (x ∷ xs) ys = omega (arith, keyed-append p n xs ys)

find-none-keyed : (p n : ℕ) (xs : List Item) → find xs p n ≡ none → keyed p n xs ≡ 0
unfolding find keyed
find-none-keyed p n [] e = refl
find-none-keyed p n (x ∷ xs) e = ground (arith, find-none-keyed p n xs)

emplace-times :
    (xs : List Item) (item : Item) (i : ℕ)
    → times i (emplace xs item) ≤ times i xs + (if item.collector_index == i then 1 else 0)
unfolding emplace times
emplace-times xs item i = ground (arith, times-append i xs (item ∷ []))

emplace-keyed :
    (xs : List Item) (item : Item) (p n : ℕ) → keyed p n xs ≤ 1 → keyed p n (emplace xs item) ≤ 1
unfolding emplace keyed
emplace-keyed xs item p n h =
    ground (arith, keyed-append p n xs (item ∷ []), find-none-keyed p n xs)

insert-times :
    (xs : List Item) (item : Item) (i : ℕ)
    → (times i (insert xs item).0 ≤ times i xs + (if item.collector_index == i then 1 else 0))
      × (collector_size ≤ i → times i (insert xs item).0 ≤ times i xs)
unfolding insert
insert-times xs item i = ground (arith, emplace-times xs item i)

insert-keyed :
    (xs : List Item) (item : Item) (p n : ℕ) → keyed p n xs ≤ 1 → keyed p n (insert xs item).0 ≤ 1
unfolding insert
insert-keyed xs item p n h = ground (arith, emplace-keyed xs item p n h)

pub record Inv (s : Sections) : Type 0 where
  once : (i : ℕ) → times i s.subsections + times i s.waiting ≤ 1
  low : (i : ℕ) → i < 2 → times i s.subsections + times i s.waiting ≡ 0
  used : (i : ℕ) → s.count ≤ i → times i s.subsections + times i s.waiting ≡ 0
  high : (i : ℕ) → collector_size ≤ i → times i s.subsections ≡ 0
  keys : (p n : ℕ) → keyed p n s.subsections ≤ 1
  counted : 2 ≤ s.count

Step-Inv : (s t : Sections) → s.count + 1 < 2 ^ 64 → Step s t → Inv s → Inv t
unfolding times
Step-Inv s t small (misses p n f e) inv =
    let counts : (s.count + 1) % 2 ^ 64 ≡ s.count + 1 = omega arith in
    let once = inv.once in
    let low = inv.low in
    let used = inv.used in
    let counted = inv.counted in
    rw e (record {
      once = λ i. ground (arith, once i, used i);
      low = λ i l. ground (arith, low i);
      used = λ i l. ground (arith, counts, used i);
      high = inv.high;
      keys = inv.keys;
      counted = omega (arith, counts);
    })
Step-Inv s t small (inserts xs ys item f e) inv =
    let once = inv.once in
    let low = inv.low in
    let used = inv.used in
    let split = λ (i : ℕ). times-split i xs ys item in
    rw e (record {
      once = λ i.
          ground
            (arith, once i, f, split i, insert-times s.subsections item i, times-append i xs ys);
      low = λ i l.
          ground
            (arith, low i, f, split i, insert-times s.subsections item i, times-append i xs ys);
      used = λ i l.
          ground
            (arith, used i, f, split i, insert-times s.subsections item i, times-append i xs ys);
      high = λ i l. ground (arith, inv.high i l, insert-times s.subsections item i);
      keys = λ p n. insert-keyed s.subsections item p n (inv.keys p n);
      counted = inv.counted;
    })

start-Inv : Inv start
unfolding start times keyed
start-Inv = record {
  once = λ i. omega arith;
  low = λ i l. refl;
  used = λ i l. refl;
  high = λ i l. refl;
  keys = λ p n. omega arith;
  counted = omega arith;
}

-- How many indices were given out.
abbrev pub given_out : {s : Sections} → Reach s → ℕ
given_out here = 0
given_out (next r (misses p n f e)) = given_out r + 1
given_out (next r (inserts xs ys item f e)) = given_out r

Step-count :
    (s t : Sections) (r : Reach s) (st : Step s t)
    → given_out (next r st) + 2 < 2 ^ 64
    → s.count ≡ given_out r + 2
    → t.count ≡ given_out (next r st) + 2
Step-count s t r (misses p n f e) h c = rw e (omega (arith, c))
Step-count s t r (inserts xs ys item f e) h c = rw e c

given_out-le : {s t : Sections} (r : Reach s) (st : Step s t) → given_out r ≤ given_out (next r st)
given_out-le r (misses p n f e) = omega arith
given_out-le r (inserts xs ys item f e) = omega arith

Reach-count : {s : Sections} (r : Reach s) → given_out r + 2 < 2 ^ 64 → s.count ≡ given_out r + 2
unfolding start
Reach-count here h = refl
Reach-count (next {s} {t} r st) h =
    Step-count s t r st h (Reach-count r (omega (arith, given_out-le r st)))

Reach-Inv : {s : Sections} (r : Reach s) → given_out r + 3 < 2 ^ 64 → Inv s
Reach-Inv here h = start-Inv
Reach-Inv (next {s} {t} r st) h =
    let less = given_out-le r st in
    Step-Inv s t (omega (arith, Reach-count r (omega arith))) st (Reach-Inv r (omega arith))

-- However threads interleave their calls of SubSection, as long as fewer than 2 ^ 64 - 3 calls have
-- missed, so that the counter has not wrapped: no two sections ever share a collector
-- index, no section has the dummy's, the main section's or one without an entry in the collectors, and
-- no two sections under one parent have the same name.
pub sections_distinct :
    {s : Sections} (r : Reach s)
    → given_out r + 3 < 2 ^ 64
    → ((i : ℕ) → times i s.subsections ≤ (if leb 2 i && ltb i collector_size then 1 else 0))
      × ((p n : ℕ) → keyed p n s.subsections ≤ 1)
sections_distinct r h =
    let inv = Reach-Inv r h in (λ i. ground (arith, inv.once i, inv.low i, inv.high i), inv.keys)

find-append : (xs ys : List Item) (p n i : ℕ) → find xs p n ≡ some i → find (xs ++ ys) p n ≡ some i
unfolding find
find-append [] ys p n i e = ground arith
find-append (x ∷ xs) ys p n i e = ground (arith, find-append xs ys p n i)

find-insert :
    (xs : List Item) (item : Item) (p n i : ℕ)
    → find xs p n ≡ some i
    → find (insert xs item).0 p n ≡ some i
unfolding insert emplace
find-insert xs item p n i e = ground (arith, find-append xs (item ∷ []) p n i e)

find_last :
    (xs : List Item) (item : Item)
    → find xs item.parent item.name ≡ none
    → find (xs ++ item ∷ []) item.parent item.name ≡ some item.collector_index
unfolding find
find_last [] item e = ground arith
find_last (x ∷ xs) item e = ground (arith, find_last xs item)

-- The call that inserts returns the section that later calls find under the name, or, when the
-- capacity is used up, the dummy with the sections as they were; a section that was found before is
-- found after.
pub insert-find :
    (xs : List Item) (item : Item)
    → ((item.collector_index < collector_size)
        → find (insert xs item).0 item.parent item.name ≡ some (insert xs item).1)
      × ((collector_size ≤ item.collector_index) → insert xs item ≡ (xs, 0))
      × ((p n i : ℕ) → find xs p n ≡ some i → find (insert xs item).0 p n ≡ some i)
unfolding insert emplace
insert-find xs item =
    (λ l. ground (arith, find_last xs item), λ l. ground arith, find-insert xs item)
