-- ===== src/Msg.antt =====
-- src/msg: messages, the table of subscriptions, and the nodes that subscribe and publish.
pub mod SubscriptionMap
pub mod Node
