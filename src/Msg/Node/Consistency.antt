-- ===== src/Msg/Node/Consistency.antt =====
-- The table of message.cc and the nodes of node.cc agree on who is subscribed to what.
use cris_core.Prelude.{
  ℕ, ◌+◌, ◌≤◌, ◌<◌, ◌≡◌, ◌≢◌, refl, subst, Bool, true, false, Option, none, some, List, [], ◌∷◌,
  ◌++◌, ◌==◌, if◌then◌else◌, arith, Option-cases, inl, inr,
}
use mathlib.Core.Option.{none-ne-some}
use cris_core.Msg.SubscriptionMap.{
  Channel, same, Map, subscribers, count, subscribe_unsafe, unsubscribe, unsubscribe_unsafe,
  subscribers-subscribe, subscribe-fresh, subscribers-unsubscribe, same→eq,
}
use cris_core.Msg.Node.{
  Handler, NodeState, World, construct, subscribe_impl, subscribe_node, check, unsubscribe_all,
  destroy, destroy_node, lose_runner, publish, start, Reach, here, constructs, subscribes, destroys,
  loses_runner, publishes, Delivery,
}

unfoldable pub occurs : Channel → List Channel → ℕ
occurs c [] = 0
occurs c (x ∷ xs) = (if same x c then 1 else 0) + occurs c xs

abbrev pub subscribed_of : Option NodeState → List Channel
subscribed_of none = []
subscribed_of (some n) = n.subscribed

abbrev pub subscriptions : World → ℕ → List Channel
subscriptions w id = subscribed_of (w.nodes id)

abbrev pub callbacks_of : Option NodeState → Channel → Option Handler
callbacks_of none c = none
callbacks_of (some n) c = n.callbacks c

-- The handler that a node has for a channel.
abbrev pub handler_of : World → ℕ → Channel → Option Handler
handler_of w id c = callbacks_of (w.nodes id) c

pub record Inv (w : World) : Type 0 where
  pub agree :
      (c : Channel) (id : ℕ) → count id (subscribers w.map c) ≡ occurs c (subscriptions w id)
  pub once : (c : Channel) (id : ℕ) → occurs c (subscriptions w id) ≤ 1
  pub handled :
      (c : Channel) (id : ℕ) → 0 < occurs c (subscriptions w id) → handler_of w id c ≢ none
  pub fresh : (c : Channel) (id : ℕ) → occurs c (subscriptions w id) ≡ 0 → handler_of w id c ≡ none

occurs-append :
    (c : Channel) (xs ys : List Channel) → occurs c (xs ++ ys) ≡ occurs c xs + occurs c ys
unfolding occurs
occurs-append c [] ys = ground arith
occurs-append c (x ∷ xs) ys = ground (arith, occurs-append c xs ys)

start-Inv : Inv start
unfolding start count occurs
start-Inv = record {
  agree = λ c id. refl;
  once = λ c id. omega arith;
  handled = λ c id h. absurd (omega arith);
  fresh = λ c id h. refl;
}

construct-Inv : (w : World) (id : ℕ) (b : Bool) → w.nodes id ≡ none → Inv w → Inv (construct w id b)
unfolding construct occurs
construct-Inv w id b free v = record {
  agree = λ c other. ground (arith, v.agree c other);
  once = λ c other. ground (arith, v.once c other);
  handled = λ c other h. ground (arith, v.handled c other);
  fresh = λ c other h. ground (arith, v.fresh c other);
}

lose_runner-Inv : (w : World) (id : ℕ) → Inv w → Inv (lose_runner w id)
unfolding lose_runner
lose_runner-Inv w id v = record {
  agree = λ c other. ground (arith, v.agree c other);
  once = λ c other. ground (arith, v.once c other);
  handled = λ c other h. ground (arith, v.handled c other);
  fresh = λ c other h. ground (arith, v.fresh c other);
}

pub unsubscribe_all-count :
    (cs : List Channel) (m : Map) (id other : ℕ) (d : Channel)
    → count other (subscribers (unsubscribe_all m cs id) d) ≡ (
        if id == other
        then (if occurs d cs == 0 then count other (subscribers m d) else 0)
        else count other (subscribers m d))
unfolding unsubscribe_all occurs unsubscribe_unsafe
unsubscribe_all-count [] m id other d = ground arith
unsubscribe_all-count (c ∷ cs) m id other d = ground (
  arith,
  unsubscribe_all-count cs (unsubscribe m c id) id other d,
  subscribers-unsubscribe m c d id other,
)

destroy_node-Inv :
    (w : World) (id : ℕ) (n : NodeState) → w.nodes id ≡ some n → Inv w → Inv (destroy_node w id n)
unfolding destroy_node occurs
destroy_node-Inv w id n e v = record {
  agree = λ c other.
      ground (arith, v.agree c other, unsubscribe_all-count n.subscribed w.map id other c);
  once = λ c other. ground (arith, v.once c other);
  handled = λ c other h. ground (arith, v.handled c other);
  fresh = λ c other h. ground (arith, v.fresh c other);
}

destroy-Inv : (w : World) (id : ℕ) → Inv w → Inv (destroy w id)
unfolding destroy
destroy-Inv w id v = elim (Option-cases (w.nodes id)) [
  | inl gone ↦ rw (gone, destroy) v
  | inr (n, e) ↦ rw (e, destroy) (destroy_node-Inv w id n e v)
]

subscribe_node-Inv :
    (w : World) (id : ℕ) (n : NodeState) (channel : Channel) (handler : Handler)
    → w.nodes id ≡ some n
    → Inv w
    → Inv (subscribe_node w id n channel handler)
unfolding subscribe_node occurs subscribe_unsafe
subscribe_node-Inv w id n channel handler e v = record {
  agree = λ c other. ground (
    arith,
    v.agree c other,
    v.once c other,
    subscribers-subscribe w.map channel c id other,
    subscribe-fresh w.map channel id,
    occurs-append c n.subscribed (channel ∷ []),
  );
  once = λ c other. ground (
    arith,
    v.agree c other,
    v.once c other,
    subscribe-fresh w.map channel id,
    same→eq channel c,
    occurs-append c n.subscribed (channel ∷ []),
  );
  handled =
      λ c other h. ground (arith, v.handled c other, occurs-append c n.subscribed (channel ∷ []));
  fresh = λ c other h. ground (arith, v.fresh c other, occurs-append c n.subscribed (channel ∷ []));
}

check-some : (b : Bool) (w v : World) → check b w ≡ some v → w ≡ v
unfolding check
check-some true w v h = cc
check-some false w v h = absurd (none-ne-some v h)

-- A subscription that is not refused leaves what the loop-free part of SubscribeImpl makes.
pub subscribe_impl-some :
    (w v : World) (id : ℕ) (channel : Channel) (handler : Handler)
    → subscribe_impl w id channel handler ≡ some v
    → (n : NodeState) × (w.nodes id ≡ some n) × (subscribe_node w id n channel handler ≡ v)
unfolding subscribe_impl
subscribe_impl-some w v id channel handler h = elim (Option-cases (w.nodes id)) [
  | inl gone ↦ absurd (none-ne-some v (rw (gone, subscribe_impl) at h))
  | inr (n, e) ↦ (n, e, check-some n.can_subscribe _ v (rw (e, subscribe_impl) at h))
]

subscribe_impl-Inv :
    (w v : World) (id : ℕ) (channel : Channel) (handler : Handler)
    → subscribe_impl w id channel handler ≡ some v
    → Inv w
    → Inv v
subscribe_impl-Inv w v id channel handler h inv =
    let (n, e, made) = subscribe_impl-some w v id channel handler h in
    subst Inv made (subscribe_node-Inv w id n channel handler e inv)

publish-Inv :
    (w v : World) (channel : Channel) (now : ℕ) (ds : List Delivery)
    → publish w channel now ≡ some (v, ds)
    → Inv w
    → Inv v
unfolding publish
publish-Inv w v channel now ds h inv = record {
  agree = λ c other. ground (arith, inv.agree c other, same→eq channel c);
  once = λ c other. ground (arith, inv.once c other);
  handled = λ c other k. ground (arith, inv.handled c other);
  fresh = λ c other k. ground (arith, inv.fresh c other);
}

-- In every reachable world a node stands in the list of a channel exactly once if it has subscribed
-- to the channel and is alive, and not at all otherwise.
pub Reach-Inv : {w : World} → Reach w → Inv w
Reach-Inv here = start-Inv
Reach-Inv (constructs {w} id b r free) = construct-Inv w id b free (Reach-Inv r)
Reach-Inv (subscribes {w} id c handler v r h) = subscribe_impl-Inv w v id c handler h (Reach-Inv r)
Reach-Inv (destroys {w} id r) = destroy-Inv w id (Reach-Inv r)
Reach-Inv (loses_runner {w} id r) = lose_runner-Inv w id (Reach-Inv r)
Reach-Inv (publishes {w} c now v ds r h) = publish-Inv w v c now ds h (Reach-Inv r)
