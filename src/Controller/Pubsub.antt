-- ===== src/Controller/Pubsub.antt =====
-- core/pubsub.go: what the controller does on a topic, one call after the other. `topics`, the
-- goroutines that `Subscribe` starts and libp2p's state are the state; a nil pointer or a nil function that
-- the code goes through is `panic`. Here `c.cfg.Pubsub` is not nil; Unset has the calls where it is.
use p2pmq.Base.{
  ℕ, ◌||◌, String, List, [], ◌∷◌, Option, none, some, Result, ok, err, eqb, if◌then◌else◌,
  string_key,
}
use Prim.Native.String.{◌++◌}
use p2pmq.Base.Int.{ℤ, pos, is_pos}
use p2pmq.Base.Dict.{insert}
use p2pmq.Gossip.MsgId.{MsgIdFn, msg_id_fn}
use p2pmq.Commons.Pubsub.{
  MsgValidationConfig, PubsubConfig, get_topic_config, msg_validation_defaults,
}
use p2pmq.Controller.Libp2p.{Libp2p}
use p2pmq.Controller.Topics.{
  TopicWrapper, Topics, topic_state_unknown, topic_state_joining, topic_state_joined,
  topic_state_err, joining_topic, upgrade_topic, set_topic_relay_cancel_fn, get_topic_wrapper,
  add_sub, get_sub,
}

pub record Controller (p : Libp2p) : Type 0 where
  pub topics : Topics p
  -- the subscriptions that `Subscribe` has started a goroutine for, with their topics' names; the
  -- goroutine of a subscription that is cancelled returns, and its entry stays
  pub listeners : List (String × p.Subscription)
  pub world : p.World

-- How a call ends: it returns a Go `error`, `none` for nil, or it panics.
pub data Outcome : Type 0 where
  returns : Option String → Outcome
  panic : Outcome

abbrev pub already_joining : String → String
already_joining name = "already tring to join topic " ++ name

-- `opts` of `tryJoin` and of `trySubscribe`, from the topic's configuration.
unfoldable pub topic_opts : PubsubConfig → String → List MsgIdFn
topic_opts cfg name =
    let (tc, found) = get_topic_config cfg name in
    if found
    then elim tc.msg_id_fn_config [ none ↦ [] | some c ↦ msg_id_fn c.type c.size ∷ [] ]
    else []

unfoldable pub sub_opts : PubsubConfig → String → List ℤ
sub_opts cfg name =
    let (tc, found) = get_topic_config cfg name in
    if found then (if is_pos tc.buffer_size then tc.buffer_size ∷ [] else []) else []

-- The options of the topic's validator; `none` where neither configuration has one.
unfoldable pub validator_opts : PubsubConfig → String → Option MsgValidationConfig
validator_opts cfg name =
    let (tc, _) = get_topic_config cfg name in
    let base =
      msg_validation_defaults (record { timeout = pos 0; concurrency = pos 0 }) cfg.msg_validator in
    elim tc.msg_validator [
      | some v ↦ some (msg_validation_defaults base (some v))
      | none ↦ elim cfg.msg_validator [ none ↦ none | some _ ↦ some base ]
    ]

module _ (p : Libp2p) where
  open p use {
    Topic, Subscription, topic_name, publish as lib_publish, close, relay as lib_relay, cancel,
    cancel_relay,
  }

  -- `Publish`, `Subscribe` and `Relay` after a join with no error. A nil topic is a panic.
  unfoldable pub publish_on : List ℕ → Option Topic → Controller p → Controller p × Outcome
  publish_on bytes none c = (c, panic)
  publish_on bytes (some topic) c =
      let (w, e) = lib_publish topic bytes c.world in (record c { world = w }, returns e)

  unfoldable pub listen :
      String → Result (Option Subscription) → Controller p → Controller p × Outcome
  listen name (err e) c = (c, returns (some e))
  listen name (ok none) c = (c, returns none)
  listen name (ok (some sub)) c = (record c { listeners = (name, sub) ∷ c.listeners }, returns none)

  unfoldable pub relay_on : String → Option Topic → Controller p → Controller p × Outcome
  relay_on name none c = (c, panic)
  relay_on name (some topic) c =
      let (w, r) = lib_relay topic c.world in
      elim r [
        | err e ↦ (record c { world = w }, returns (some e))
        | ok fn ↦ (
          record c { topics = (set_topic_relay_cancel_fn p name fn c.topics).0; world = w },
          returns none,
        )
      ]

  -- `tw.state.Store(v)`
  abbrev pub store_state : String → TopicWrapper p → ℕ → Controller p → Controller p
  store_state name tw v c = record c { topics = insert name (record tw { state = v }) c.topics }

  unfoldable pub close_topic : String → TopicWrapper p → Controller p → Controller p × Outcome
  close_topic name tw c = elim tw.topic [
    | none ↦ (c, panic)
    | some topic ↦
        let (w, e) = close topic c.world in
        elim e [
          | some x ↦
              (store_state name tw topic_state_err (record c { world = w }), returns (some x))
          | none ↦ (store_state name tw topic_state_unknown (record c { world = w }), returns none)
        ]
  ]

  unfoldable pub leave : String → Controller p → Controller p × Outcome
  leave name c = elim (get_topic_wrapper p name c.topics) [
    | none ↦ (c, panic)
    | some tw ↦
        if eqb tw.state topic_state_joined || eqb tw.state topic_state_err
        then close_topic name tw c
        else (c, returns none)
  ]

  unfoldable pub unsubscribe : String → Controller p → Controller p × Outcome
  unsubscribe name c = elim (get_topic_wrapper p name c.topics) [
    | none ↦ (c, panic)
    | some tw ↦ if eqb tw.state topic_state_unknown then (c, returns none) else elim tw.sub [
      | none ↦ (c, panic)
      | some sub ↦ (record c { world = cancel sub c.world }, returns none)
    ]
  ]

  unfoldable pub unrelay : String → Controller p → Controller p × Outcome
  unrelay name c = elim (get_topic_wrapper p name c.topics) [
    | none ↦ (c, panic)
    | some tw ↦
        if eqb tw.state topic_state_unknown then (c, returns none) else elim tw.relay_cancel_fn [
          | none ↦ (c, panic)
          | some fn ↦ (record c { world = cancel_relay fn c.world }, returns none)
        ]
  ]

module _ (p : Libp2p) (cfg : PubsubConfig) where
  open p use {
    Topic, Subscription, topic_name, join, subscribe as lib_subscribe, register_topic_validator,
  }

  -- The end of `tryJoin`, after the upgrade.
  unfoldable pub register_validator :
      String → Topic → Controller p → Controller p × Option Topic × Option String
  register_validator name topic c = elim (validator_opts cfg name) [
    | none ↦ (c, some topic, none)
    | some opts ↦
        let (w, e) = register_topic_validator name opts c.world in
        (record c { world = w }, some topic, e)
  ]

  -- The part of `tryJoin` for a topic that the manager does not know.
  unfoldable pub join_new : String → Controller p → Controller p × Option Topic × Option String
  join_new name c =
      let (w, r) = join name (topic_opts cfg name) c.world in
      elim r [
        | err e ↦ (record c { topics = joining_topic p name c.topics; world = w }, none, some e)
        | ok topic ↦ register_validator name topic (record c {
          topics = (upgrade_topic p name topic (joining_topic p name c.topics)).0;
          world = w;
        })
      ]

  -- The topic and the error that `tryJoin` returns.
  unfoldable pub try_join : String → Controller p → Controller p × Option Topic × Option String
  try_join name c = elim (get_topic_wrapper p name c.topics) [
    | none ↦ join_new name c
    | some tw ↦
        if eqb tw.state topic_state_joining
        then (c, none, some (already_joining name))
        else (c, tw.topic, none)
  ]

  -- `(sub, nil)`, `(nil, nil)` where there is a subscription, or `(nil, err)`.
  unfoldable pub try_subscribe_named :
      String → Topic → Controller p → Controller p × Result (Option Subscription)
  try_subscribe_named name topic c = elim (get_sub p name c.topics) [
    | some _ ↦ (c, ok none)
    | none ↦
        let (w, r) = lib_subscribe topic (sub_opts cfg name) c.world in
        elim r [
          | err e ↦ (record c { world = w }, err e)
          | ok sub ↦
              (record c { topics = (add_sub p name sub c.topics).0; world = w }, ok (some sub))
        ]
  ]

  unfoldable pub try_subscribe : Topic → Controller p → Controller p × Result (Option Subscription)
  try_subscribe topic c = try_subscribe_named (topic_name topic) topic c

  unfoldable pub subscribe_on : String → Option Topic → Controller p → Controller p × Outcome
  subscribe_on name none c = (c, panic)
  subscribe_on name (some topic) c = let (c', r) = try_subscribe topic c in listen p name r c'

  -- `if err != nil { return err }`
  abbrev pub or_return :
      Controller p × Option Topic × Option String
      → (Option Topic → Controller p → Controller p × Outcome)
      → Controller p × Outcome
  or_return (c, topic, e) k = elim e [ none ↦ k topic c | some x ↦ (c, returns (some x)) ]

  unfoldable pub publish : String → List ℕ → Controller p → Controller p × Outcome
  publish name bytes c = or_return (try_join name c) (publish_on p bytes)

  unfoldable pub subscribe : String → Controller p → Controller p × Outcome
  subscribe name c = or_return (try_join name c) (subscribe_on name)

  unfoldable pub relay : String → Controller p → Controller p × Outcome
  relay name c = or_return (try_join name c) (relay_on p name)
