-- ===== src/Msg/SubscriptionMap.antt =====
-- src/msg/message.h and message.cc: channels and the SubscriptionMap. A node is known by a number
-- that stands for its address, a std::type_index by a number too. The std::unordered_map is a
-- function from channels, `none` where it has no entry.
use cris_core.Prelude.{
  ℕ, ◌+◌, ◌≡◌, refl, Bool, true, false, not, ◌&&◌, ◌||◌, Option, none, some, List, [], ◌∷◌, ◌++◌,
  ◌==◌, if◌then◌else◌, arith,
}

-- channel_id_t
pub record Channel : Type 0 where
  pub type_index : ℕ
  pub subid : ℕ

abbrev pub same : Channel → Channel → Bool
same a b = a.type_index == b.type_index && a.subid == b.subid

pub record SubscriptionInfo : Type 0 where
  pub latest_delivered_time : ℕ
  pub sub_list : List ℕ

abbrev pub Map : Type 0
Map = Channel → Option SubscriptionInfo

abbrev pub put : Map → Channel → SubscriptionInfo → Map
put m c info d = if same c d then some info else m d

abbrev pub empty : Map
empty c = none

-- `map_[channel]` makes a new entry where there is none.
abbrev pub entry : Option SubscriptionInfo → SubscriptionInfo
entry none = record { latest_delivered_time = 0; sub_list = [] }
entry (some info) = info

pub contains : List ℕ → ℕ → Bool
contains [] node = false
contains (x ∷ xs) node = x == node || contains xs node

-- std::erase
pub erase : List ℕ → ℕ → List ℕ
erase [] node = []
erase (x ∷ xs) node = let rest = erase xs node in if x == node then rest else x ∷ rest

pub subscribe : Map → Channel → ℕ → Map × Bool
subscribe m channel node =
    let info = entry (m channel) in
    if contains info.sub_list node
    then (put m channel info, false)
    else (put m channel (record info { sub_list = info.sub_list ++ node ∷ [] }), true)

pub unsubscribe : Map → Channel → ℕ → Map
unsubscribe m channel node = elim (m channel) [
  | none ↦ m
  | some info ↦ put m channel (record info { sub_list = erase info.sub_list node })
]

-- SubscribeUnsafe and UnsubscribeUnsafe want the write lock.
unfoldable pub subscribe_unsafe : Bool → Map → Channel → ℕ → Map × Bool
subscribe_unsafe owns_lock m channel node =
    if not owns_lock then (m, false) else subscribe m channel node

unfoldable pub unsubscribe_unsafe : Bool → Map → Channel → ℕ → Map
unsubscribe_unsafe owns_lock m channel node =
    if not owns_lock then m else unsubscribe m channel node

pub get_latest_delivered_time : Map → Channel → ℕ
get_latest_delivered_time m channel = elim (m channel) [
  | none ↦ 0
  | some info ↦ info.latest_delivered_time
]

-- The nodes that a channel has, and how often one stands among them.
abbrev pub subscribers : Map → Channel → List ℕ
subscribers m c = (entry (m c)).sub_list

unfoldable pub count : ℕ → List ℕ → ℕ
count node [] = 0
count node (x ∷ xs) = (if x == node then 1 else 0) + count node xs

pub count-append :
    (node : ℕ) (xs ys : List ℕ) → count node (xs ++ ys) ≡ count node xs + count node ys
unfolding count
count-append node [] ys = ground arith
count-append node (x ∷ xs) ys = ground (arith, count-append node xs ys)

pub count-erase :
    (xs : List ℕ) (node other : ℕ)
    → count other (erase xs node) ≡ (if node == other then 0 else count other xs)
unfolding count erase
count-erase [] node other = ground arith
count-erase (x ∷ xs) node other = ground (arith, count-erase xs node other)

pub contains-count :
    (xs : List ℕ) (node : ℕ) → contains xs node ≡ (if count node xs == 0 then false else true)
unfolding count contains
contains-count [] node = refl
contains-count (x ∷ xs) node = ground (arith, contains-count xs node)

pub same_refl : (c : Channel) → same c c ≡ true
same_refl c = ground arith

pub same→eq : (c d : Channel) → same c d ≡ true → c ≡ d
same→eq c d h = ground arith

-- What the operations do to the lists, for every channel and node.
pub subscribers-subscribe :
    (m : Map) (c d : Channel) (node other : ℕ)
    → count other (subscribers (subscribe m c node).0 d)
      ≡ count other (subscribers m d)
        + (if same c d && node == other && (subscribe m c node).1 then 1 else 0)
unfolding subscribe count
subscribers-subscribe m c d node other =
    ground (arith, count-append other (entry (m c)).sub_list (node ∷ []), same→eq c d)

pub subscribe-fresh :
    (m : Map) (c : Channel) (node : ℕ)
    → (subscribe m c node).1 ≡ (if count node (subscribers m c) == 0 then true else false)
unfolding subscribe
subscribe-fresh m c node = ground (arith, contains-count (entry (m c)).sub_list node)

pub subscribers-unsubscribe :
    (m : Map) (c d : Channel) (node other : ℕ)
    → count other (subscribers (unsubscribe m c node) d)
      ≡ (if same c d && node == other then 0 else count other (subscribers m d))
unfolding unsubscribe count
subscribers-unsubscribe m c d node other =
    ground (arith, count-erase (entry (m c)).sub_list node other, same→eq c d)
