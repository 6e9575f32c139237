-- ===== src/Msg/Node/Dispatch.antt =====
-- Publish of node.cc: which nodes a message reaches, and with which callback.
use cris_core.Prelude.{
  ℕ, ◌+◌, ◌≤◌, ◌<◌, ◌≡◌, ◌≢◌, refl, subst, Bool, false, ◌&&◌, Option, none, some, List, [], ◌∷◌,
  ◌++◌, ◌==◌, if◌then◌else◌, arith, Option-cases, inl, inr,
}
use cris_core.Msg.SubscriptionMap.{
  Channel, same, put, subscribers, count, same→eq, subscribe-fresh, subscribe_unsafe,
}
use cris_core.Msg.Node.{
  Handler, NodeState, World, subscribe_impl, subscribe_node, add_message_to_runner, deliver_all,
  publish, Reach, Delivery, destroy, destroy_node,
}
use cris_core.Msg.Node.Consistency.{
  occurs, subscriptions, handler_of, Inv, Reach-Inv, subscribe_impl-some, unsubscribe_all-count,
}

-- How many of the deliveries go to a node.
pub delivered : ℕ → List Delivery → ℕ
delivered id [] = 0
delivered id (d ∷ ds) = (if d.node == id then 1 else 0) + delivered id ds

-- Each delivery carries the handler that its node has for the channel.
abbrev pub FromHandlers : World → Channel → List Delivery → Type 0
FromHandlers w c [] = Unit {0}
FromHandlers w c (d ∷ ds) = (handler_of w d.node c ≡ some d.handler) × FromHandlers w c ds

abbrev runs : Option NodeState → Bool
runs none = false
runs (some n) = n.runner_alive

-- The node lives, and so does the runner that it was bound to.
abbrev pub has_runner : World → ℕ → Bool
has_runner w id = runs (w.nodes id)

delivered-append :
    (id : ℕ) (xs ys : List Delivery) → delivered id (xs ++ ys) ≡ delivered id xs + delivered id ys
unfolding delivered
delivered-append id [] ys = ground arith
delivered-append id (x ∷ xs) ys = ground (arith, delivered-append id xs ys)

FromHandlers-append :
    (w : World) (c : Channel) (xs ys : List Delivery)
    → FromHandlers w c xs
    → FromHandlers w c ys
    → FromHandlers w c (xs ++ ys)
FromHandlers-append w c [] ys h k = k
FromHandlers-append w c (x ∷ xs) ys h k = (h.0, FromHandlers-append w c xs ys h.1 k)

add_message-lem :
    (w : World) (c : Channel) (id other : ℕ) (n : NodeState)
    → w.nodes id ≡ some n
    → handler_of w id c ≢ none
    → (delivered other (add_message_to_runner id n c)
        ≡ (if id == other && has_runner w other then 1 else 0))
      × FromHandlers w c (add_message_to_runner id n c)
unfolding add_message_to_runner delivered
add_message-lem w c id other n e h = ground arith

deliver_all-lem :
    (ids : List ℕ) (w : World) (c : Channel)
    → ((id : ℕ) → 0 < count id ids → handler_of w id c ≢ none)
    → (ds : List Delivery) × (deliver_all w c ids ≡ some ds)
      × ((id : ℕ) → delivered id ds ≡ (if has_runner w id then count id ids else 0))
      × FromHandlers w c ds
unfolding deliver_all delivered count
deliver_all-lem [] w c h = ([], refl, λ id. ground arith, tt)
deliver_all-lem (x ∷ xs) w c h =
    let (ds, e, counted, from) = deliver_all-lem xs w c (λ id k. h id (ground arith)) in
    elim (Option-cases (w.nodes x)) [
      | inl gone ↦ absurd (h x (ground arith) (ground arith))
      | inr (n, at) ↦
          let hx : handler_of w x c ≢ none = h x (ground arith) in
          (
            add_message_to_runner x n c ++ ds,
            rw (at, e, deliver_all) refl,
            λ id.
                let here = add_message-lem w c x id n at hx in
                ground (arith, counted id, delivered-append id (add_message_to_runner x n c) ds),
            FromHandlers-append w c (add_message_to_runner x n c) ds
                (add_message-lem w c x x n at hx).1 from,
          )
    ]

kept :
    (w : World) (id : ℕ) (n : NodeState) (c : Channel) (handler : Handler)
    → w.nodes id ≡ some n
    → Inv w
    → (d : Channel) (other : ℕ)
    → handler_of (subscribe_node w id n c handler) other d ≡ (
        if id == other && same c d && occurs c (subscriptions w id) == 0
        then some handler
        else handler_of w other d)
unfolding subscribe_node subscribe_unsafe
kept w id n c handler e inv d other =
    ground (arith, subscribe-fresh w.map c id, inv.agree c id, inv.fresh c id, same→eq c d)

-- In every reachable world a message that is published on a channel is dispatched without a call
-- through a destroyed node; each node that has subscribed to the channel and whose runner is alive
-- gets it exactly once, every other node not at all, and each delivery carries the callback and
-- the strand that the node has for the channel.
pub publish_delivers :
    (w : World) (c : Channel) (now : ℕ)
    → Reach w
    → (v : World) × (ds : List Delivery) × (publish w c now ≡ some (v, ds))
      × ((id : ℕ)
          → delivered id ds ≡ (if has_runner w id then occurs c (subscriptions w id) else 0))
      × FromHandlers w c ds
      × ((id : ℕ) → occurs c (subscriptions w id) ≤ 1)
unfolding publish delivered count
publish_delivers w c now r =
    let inv = Reach-Inv r in
    elim (Option-cases (w.map c)) [
      | inl unknown ↦ (
        w,
        [],
        rw (unknown, publish) refl,
        λ id. ground (arith, inv.agree c id),
        tt,
        λ id. inv.once c id,
      )
      | inr (info, e) ↦
          let handled : (id : ℕ) → 0 < count id info.sub_list → handler_of w id c ≢ none =
            λ id k. inv.handled c id (ground (arith, inv.agree c id)) in
          let (ds, sent, counted, from) = deliver_all-lem info.sub_list w c handled in
          (
            record w { map = put w.map c (record info { latest_delivered_time = now }) },
            ds,
            rw (e, publish, sent) refl,
            λ id. ground (arith, counted id, inv.agree c id),
            from,
            λ id. inv.once c id,
          )
    ]

-- Once a node is destroyed no list of the table holds its address, and every other node stands
-- where it stood.
pub destroy_forgets :
    (w : World) (id : ℕ)
    → Reach w
    → (c : Channel) (other : ℕ)
    → count other (subscribers (destroy w id).map c)
      ≡ (if id == other then 0 else count other (subscribers w.map c))
unfolding destroy occurs
destroy_forgets w id r c other =
    let inv = Reach-Inv r in
    elim (Option-cases (w.nodes id)) [
      | inl gone ↦ rw (gone, destroy) (ground (arith, inv.agree c other))
      | inr (n, e) ↦
          rw (e, destroy, destroy_node)
            (ground (arith, inv.agree c other, unsubscribe_all-count n.subscribed w.map id other c))
    ]

-- A node keeps the first callback that it gives for a channel: a later subscription to the same
-- channel changes no node, and a first one adds the channel and the callback to this node only.
pub subscribe_keeps_first :
    (w v : World) (id : ℕ) (c : Channel) (handler : Handler)
    → Reach w
    → subscribe_impl w id c handler ≡ some v
    → (d : Channel) (other : ℕ)
    → handler_of v other d ≡ (
        if id == other && same c d && occurs c (subscriptions w id) == 0
        then some handler
        else handler_of w other d)
subscribe_keeps_first w v id c handler r h d other =
    let inv = Reach-Inv r in
    let (n, e, made) = subscribe_impl-some w v id c handler h in
    subst
      (λ u. handler_of u other d ≡ (
        if id == other && same c d && occurs c (subscriptions w id) == 0
        then some handler
        else handler_of w other d))
      made (kept w id n c handler e inv d other)
