-- ===== src/Msg/Node/Tests.antt =====
-- Two nodes on one channel, and the instances of the theorems about nodes.
use cris_core.Prelude.{ℕ, ◌≤◌, ◌≡◌, refl, true, none, some, List, if◌then◌else◌}
use cris_core.Msg.SubscriptionMap.{Channel}
use cris_core.Msg.Node.{
  Handler, World, Delivery, start, construct, subscribe_impl, publish, Reach, here, constructs,
  subscribes,
}
use cris_core.Msg.Node.Consistency.{occurs, subscriptions}
use cris_core.Msg.Node.Dispatch.{delivered, FromHandlers, has_runner, publish_delivers}

abbrev news : Channel
news = record { type_index = 4; subid = 1 }

abbrev print : Handler
print = record { callback = 70; strand = some 2 }

abbrev count_up : Handler
count_up = record { callback = 71; strand = none }

abbrev two_nodes : World
two_nodes = construct (construct start 1 true) 2 true

two_nodes-Reach : Reach two_nodes
unfolding construct start
two_nodes-Reach = constructs 2 true (constructs 1 true here refl) refl

unfoldable first_subscribed : (v : World) × (subscribe_impl two_nodes 1 news print ≡ some v)
unfolding subscribe_impl construct start
first_subscribed = (_, refl)

abbrev one_listens : World
one_listens = first_subscribed.0

one_listens-Reach : Reach one_listens
one_listens-Reach = subscribes 1 news print one_listens two_nodes-Reach first_subscribed.1

publish_delivers_example :
    (v : World) × (ds : List Delivery) × (publish one_listens news 99 ≡ some (v, ds))
    × ((id : ℕ)
        → delivered id ds
          ≡ (if has_runner one_listens id then occurs news (subscriptions one_listens id) else 0))
    × FromHandlers one_listens news ds
    × ((id : ℕ) → occurs news (subscriptions one_listens id) ≤ 1)
publish_delivers_example = publish_delivers one_listens news 99 one_listens-Reach
