-- ===== src/Controller/Topics.antt =====
-- core/topic.go: the topic manager. Its map holds pointers, and a write through one is a write to
-- the entry of its name; each function runs under the manager's lock.
use p2pmq.Base.{ℕ, Bool, true, false, String, Option, none, some, eqb, if◌then◌else◌, string_key}
use p2pmq.Base.Dict.{Dict, lookup, insert}
use p2pmq.Controller.Libp2p.{Libp2p}

abbrev pub topic_state_unknown : ℕ
topic_state_unknown = 0

abbrev pub topic_state_joining : ℕ
topic_state_joining = 1

abbrev pub topic_state_joined : ℕ
topic_state_joined = 2

abbrev pub topic_state_err : ℕ
topic_state_err = 10

pub record TopicWrapper (p : Libp2p) : Type 0 where
  pub state : ℕ
  pub topic : Option p.Topic
  pub sub : Option p.Subscription
  pub relay_cancel_fn : Option p.RelayCancelFunc

abbrev pub Topics : Libp2p → Type 0
Topics p = Dict String (TopicWrapper p)

abbrev pub joining_wrapper : (p : Libp2p) → TopicWrapper p
joining_wrapper p = record {
  state = topic_state_joining;
  topic = none;
  sub = none;
  relay_cancel_fn = none;
}

module _ (p : Libp2p) where
  open p use {Topic, Subscription, RelayCancelFunc}

  unfoldable pub joining_topic : String → Topics p → Topics p
  joining_topic name topics = insert name (joining_wrapper p) topics

  -- The compare-and-swap from joining to joined; the result says whether it was made.
  unfoldable pub upgrade_topic : String → Topic → Topics p → Topics p × Bool
  upgrade_topic name topic topics = elim (lookup name topics) [
    | none ↦ (topics, false)
    | some tw ↦
        if eqb tw.state topic_state_joining
        then (
          insert name (record tw { state = topic_state_joined; topic = some topic }) topics,
          true,
        )
        else (topics, false)
  ]

  unfoldable pub set_topic_relay_cancel_fn : String → RelayCancelFunc → Topics p → Topics p × Bool
  set_topic_relay_cancel_fn name fn topics = elim (lookup name topics) [
    | none ↦ (topics, false)
    | some tw ↦ (insert name (record tw { relay_cancel_fn = some fn }) topics, true)
  ]

  unfoldable pub get_topic_wrapper : String → Topics p → Option (TopicWrapper p)
  get_topic_wrapper name topics = lookup name topics

  unfoldable pub add_sub : String → Subscription → Topics p → Topics p × Bool
  add_sub name sub topics = elim (lookup name topics) [
    | none ↦ (topics, false)
    | some tw ↦ (insert name (record tw { sub = some sub }) topics, true)
  ]

  unfoldable pub get_sub : String → Topics p → Option Subscription
  get_sub name topics = elim (lookup name topics) [ none ↦ none | some tw ↦ tw.sub ]
