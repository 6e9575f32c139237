-- ===== src/Msg/Node.antt =====
-- src/msg/node.h and node.cc: CRNode, over the shared table of message.cc. The table and all nodes
-- form one world; each operation runs under the table's lock, and is one function on the world. A
-- result `none` is a failed CHECK, or a call through the address of a destroyed node.
pub mod Consistency
pub mod Dispatch
mod Tests
use cris_core.Prelude.{
  ℕ, suc, ◌+◌, ◌≡◌, refl, Bool, true, false, not, ◌&&◌, Option, none, some, List, [], ◌∷◌, ◌++◌,
  ◌==◌, if◌then◌else◌,
}
use cris_core.Msg.SubscriptionMap.{
  Channel, same, SubscriptionInfo, Map, put, empty, subscribers, subscribe, subscribe_unsafe,
  unsubscribe, unsubscribe_unsafe, get_latest_delivered_time,
}

-- CRNode::SubscriptionInfo: the callback and the strand by number, no strand for concurrent calls.
pub record Handler : Type 0 where
  pub callback : ℕ
  pub strand : Option ℕ

pub record NodeState : Type 0 where
  pub can_subscribe : Bool
  pub runner_alive : Bool
  pub subscribed : List Channel
  pub callbacks : Channel → Option Handler

pub record World : Type 0 where
  pub map : Map
  pub nodes : ℕ → Option NodeState

abbrev pub with_node : World → ℕ → Option NodeState → ℕ → Option NodeState
with_node w id n other = if id == other then n else w.nodes other

-- CRNode::CRNode: only a node that is given a runner can subscribe.
pub construct : World → ℕ → Bool → World
construct w id has_runner = record w {
  nodes = with_node w id (
      some (record {
        can_subscribe = has_runner;
        runner_alive = has_runner;
        subscribed = [];
        callbacks = λ c. none;
      }));
}

-- `callbacks_.emplace`, which keeps an entry that is there.
abbrev pub emplace : (Channel → Option Handler) → Channel → Handler → Channel → Option Handler
emplace callbacks channel handler c =
    if same channel c
    then (elim (callbacks c) [ none ↦ some handler | some old ↦ some old ])
    else callbacks c

note_subscribed : NodeState → Channel → Handler → NodeState
note_subscribed n channel handler = record n {
  subscribed = n.subscribed ++ channel ∷ [];
  callbacks = emplace n.callbacks channel handler;
}

-- The rest of SubscribeImpl, once the node is found and CHECKed.
pub subscribe_node : World → ℕ → NodeState → Channel → Handler → World
unfolding note_subscribed
subscribe_node w id n channel handler =
    let (map, ok) = subscribe_unsafe true w.map channel id in
    if not ok
    then record w { map = map }
    else record { map = map; nodes = with_node w id (some (note_subscribed n channel handler)) }

-- CHECK aborts the program where its condition fails.
check : Bool → World → Option World
check true w = some w
check false w = none

-- CRNode::SubscribeImpl
pub subscribe_impl : World → ℕ → Channel → Handler → Option World
unfolding subscribe_node check
subscribe_impl w id channel handler = elim (w.nodes id) [
  | none ↦ none
  | some n ↦ check n.can_subscribe (subscribe_node w id n channel handler)
]

pub unsubscribe_all : Map → List Channel → ℕ → Map
unsubscribe_all m [] id = m
unsubscribe_all m (c ∷ cs) id = unsubscribe_all (unsubscribe_unsafe true m c id) cs id

pub destroy_node : World → ℕ → NodeState → World
unfolding unsubscribe_all
destroy_node w id n = record {
  map = unsubscribe_all w.map n.subscribed id;
  nodes = with_node w id none;
}

-- CRNode::~CRNode
pub destroy : World → ℕ → World
unfolding destroy_node
destroy w id = elim (w.nodes id) [ none ↦ w | some n ↦ destroy_node w id n ]

-- The runner of a node may be destroyed at any time; the node holds a weak pointer only.
pub lose_runner : World → ℕ → World
lose_runner w id = elim (w.nodes id) [
  | none ↦ w
  | some n ↦ record w { nodes = with_node w id (some (record n { runner_alive = false })) }
]

-- A callback that was handed to a node's runner.
pub record Delivery : Type 0 where
  pub node : ℕ
  pub handler : Handler

-- CRNode::AddMessageToRunner with GetSubscriptionInfo and AddJobToRunner.
pub add_message_to_runner : ℕ → NodeState → Channel → List Delivery
add_message_to_runner id n channel = elim (n.callbacks channel) [
  | none ↦ []
  | some handler ↦ if n.runner_alive then record { node = id; handler = handler } ∷ [] else []
]

-- The loop of SubscriptionMap::Dispatch over the nodes of the channel.
pub deliver_all : World → Channel → List ℕ → Option (List Delivery)
deliver_all w channel [] = some []
deliver_all w channel (id ∷ ids) =
    let rest = deliver_all w channel ids in
    elim (w.nodes id) [
      | none ↦ none
      | some n ↦ elim rest [
        | none ↦ none
        | some ds ↦ some (add_message_to_runner id n channel ++ ds)
      ]
    ]

-- CRNode::Publish, CRMessageBase::Dispatch and SubscriptionMap::Dispatch, at the time `now`.
pub publish : World → Channel → ℕ → Option (World × List Delivery)
publish w channel now = elim (w.map channel) [
  | none ↦ some (w, [])
  | some info ↦ elim (deliver_all w channel info.sub_list) [
    | none ↦ none
    | some ds ↦
        some
          (record w { map = put w.map channel (record info { latest_delivered_time = now }) }, ds)
  ]
]

pub start : World
start = record { map = empty; nodes = λ id. none }

-- The operations, in any order. A new node has an address that no living node has.
pub data Reach : World → Type 0 where
  here : Reach start
  constructs :
      {w : World} (id : ℕ) (has_runner : Bool)
      → Reach w
      → w.nodes id ≡ none
      → Reach (construct w id has_runner)
  subscribes :
      {w : World} (id : ℕ) (channel : Channel) (handler : Handler) (v : World)
      → Reach w
      → subscribe_impl w id channel handler ≡ some v
      → Reach v
  destroys : {w : World} (id : ℕ) → Reach w → Reach (destroy w id)
  loses_runner : {w : World} (id : ℕ) → Reach w → Reach (lose_runner w id)
  publishes :
      {w : World} (channel : Channel) (now : ℕ) (v : World) (ds : List Delivery)
      → Reach w
      → publish w channel now ≡ some (v, ds)
      → Reach v
