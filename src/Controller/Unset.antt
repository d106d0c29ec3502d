-- ===== src/Controller/Unset.antt =====
-- core/pubsub.go: the calls on a controller whose `c.cfg.Pubsub`, and so `c.pubsub`, can be nil, as NewController leaves it
-- for a configuration without pubsub.
use p2pmq.Base.{String, Option, none, some, eqb, if◌then◌else◌, string_key}
use p2pmq.Commons.Pubsub.{PubsubConfig}
use p2pmq.Controller.Libp2p.{Libp2p}
use p2pmq.Controller.Topics.{topic_state_joining, joining_topic, get_topic_wrapper, get_sub}
use p2pmq.Controller.Pubsub.{
  Controller, Outcome, returns, panic, already_joining, publish_on, relay_on, leave, unsubscribe,
  unrelay,
}
use p2pmq.Controller.Calls.{
  Call, publishing, subscribing, relaying, leaving, unsubscribing, unrelaying, call,
}

module _ (p : Libp2p) where
  -- `tryJoin` and what the caller does with its topic: a topic that the manager does not know is
  -- marked as joining, and then GetTopicConfig is called through nil.
  unfoldable pub unset_join :
      String
      → (Option p.Topic → Controller p → Controller p × Outcome)
      → Controller p
      → Controller p × Outcome
  unset_join name k c = elim (get_topic_wrapper p name c.topics) [
    | none ↦ (record c { topics = joining_topic p name c.topics }, panic)
    | some tw ↦
        if eqb tw.state topic_state_joining
        then (c, returns (some (already_joining name)))
        else k tw.topic c
  ]

  -- `trySubscribe` goes through nil as well, unless there is a subscription.
  unfoldable pub unset_subscribe_on : Option p.Topic → Controller p → Controller p × Outcome
  unset_subscribe_on none c = (c, panic)
  unset_subscribe_on (some topic) c = elim (get_sub p (p.topic_name topic) c.topics) [
    | some sub ↦ (c, returns none)
    | none ↦ (c, panic)
  ]

  unfoldable pub unset_call : Call → Controller p → Controller p × Outcome
  unset_call (publishing name bytes) c = unset_join name (publish_on p bytes) c
  unset_call (subscribing name) c = unset_join name unset_subscribe_on c
  unset_call (relaying name) c = unset_join name (relay_on p name) c
  unset_call (leaving name) c = leave p name c
  unset_call (unsubscribing name) c = unsubscribe p name c
  unset_call (unrelaying name) c = unrelay p name c

  -- A call, whether the configuration has pubsub or not.
  unfoldable pub any_call : Option PubsubConfig → Call → Controller p → Controller p × Outcome
  any_call none k c = unset_call k c
  any_call (some cfg) k c = call p cfg k c
